-- ===== src/Import/Added.antt =====
-- An import without a strategy that succeeds: every imported recipe is new, and is there.
use pilatus.Base.{
  ◌≡◌, refl, sym, ap, subst, ◌∙◌, inl, inr, true, false, Option, none, some, List, [], ◌∷◌, arith,
  PartialEq, ◌==◌, nat_eq, list_eq, Bool-cases, Option-cases, eq_of_test,
}
use pilatus.Base.Result.{Result, ok, err, Result-cases}
use pilatus.Name.{RecipeId}
use pilatus.Json.{Json}
use pilatus.HashMap
use pilatus.HashMap.{HashMap}
use pilatus.OrdHashMap
use pilatus.OrdHashMap.{OrdHashMap}
use pilatus.OrdHashMap.Lookup.{get-insert_self}
use pilatus.Variables.{Variables, VariableConflict, add}
use pilatus.Recipe.{DeviceId, DeviceConfig, Recipe, Recipes}
use pilatus.Recipe.Active.{IsValid, try_add-cases, active_of_IsValid}
use pilatus.Service.{DeviceContext}
use pilatus.Import.Defs.{DuplicateDevice, error_for_duplicate_device}
use pilatus.Import.Merge.{
  Validate, Serde, MergeStrategy, unspecified, Merging, AlreadyExists, validate_devices, applied,
  recipes_try_add_new_with_id, add_as, merge_with, handle_json,
}
use pilatus.Import.Apply.{
  Files, Importer, World, Outcome, with_active, finalize, stored, with_files, without_duplicates,
  checked, apply_strategy, apply, merge_all, with_error, ImportRecipeError, irreversible,
  existing_device_in_other_recipe, closed,
}
use pilatus.Import.Untouched.{Kept, Merges, After, add_as-After}

-- The devices `after` are those `before`, in their places; each has been validated with the variables
-- `vars`, and differs at most in its parameters, by what its validation has answered.
abbrev pub Validated :
    {N D : Type 0}
    → Validate N D
    → Variables N
    → (before after : OrdHashMap DeviceId (DeviceConfig N)) → Type 0
Validated validate vars [] [] = Unit
Validated validate vars [] (x ∷ after) = ⊥
Validated validate vars (x ∷ before) [] = ⊥
Validated {N} {D} validate vars ((id, (i, device)) ∷ before) ((id', (i', device')) ∷ after) =
    (id' ≡ id)
    × (i' ≡ i)
    × ((w : D) × (update : Option (Json N)) × ((validate device.device_type
            (record { id = id; variables = vars; params_with_vars = device.params }) w).1
          ≡ ok update)
        × (device' ≡ applied device update))
    × Validated validate vars before after

-- The recipe `r` is found under `id`, with its devices validated.
pub record Present {N D : Type 0} (validate : Validate N D) (vars : Variables N) (id : RecipeId)
    (r : Recipe N) (rs : Recipes N) : Type 0 where
  pub recipe : Recipe N
  pub found : OrdHashMap.get id rs.all ≡ some recipe
  pub created : recipe.created ≡ r.created
  pub tags : recipe.tags ≡ r.tags
  pub devices : Validated validate vars r.devices recipe.devices

abbrev Everywhere : RecipeId → Type 0
Everywhere k = Unit

module _ {N D : Type 0} (validate : Validate N D) where
  validate_devices-Validated :
      (vars : Variables N) (devices : OrdHashMap DeviceId (DeviceConfig N)) (w : D)
      → (validate_devices validate vars devices w).1.1 ≡ true
      → Validated validate vars devices (validate_devices validate vars devices w).1.0
  unfolding validate_devices
  validate_devices-Validated vars [] w valid = tt
  validate_devices-Validated vars ((id, (i, device)) ∷ rest) w valid =
      let ctx : DeviceContext N = record {
        id = id;
        variables = vars;
        params_with_vars = device.params;
      } in
      let answer = validate device.device_type ctx w in
      let all = validate_devices validate vars ((id, (i, device)) ∷ rest) w in
      elim (Result-cases answer.1) [
        | inl (update, e) ↦
            let same : all.1.1 ≡ (validate_devices validate vars rest answer.0).1.1 =
              rw (e, validate_devices) refl in
            let later = validate_devices-Validated vars rest answer.0 (sym same ∙ valid) in
            rw (e, validate_devices) (refl, refl, (w, update, e, refl), later)
        | inr (x, e) ↦
            let invalid : all.1.1 ≡ false = rw (e, validate_devices) refl in
            absurd (cc (invalid, valid))
      ]

  -- Of one addition: the recipe is new and is there, if it succeeds.
  abbrev Adds :
      Merging N D
      → RecipeId
      → Recipe N
      → Option (Merging N D × Result AlreadyExists (Unit {0}))
      → Type 0
  Adds s id r none = Unit
  Adds s id r (some (s', ok u)) =
      (OrdHashMap.get id s.recipes_copy.all ≡ none)
      × Present validate s.recipes_copy.variables id r s'.recipes_copy
      × (s'.strategy ≡ s.strategy)
      × (s'.recipes_copy.variables ≡ s.recipes_copy.variables)
  Adds s id r (some (s', err x)) =
      (s'.strategy ≡ s.strategy) × (s'.recipes_copy.variables ≡ s.recipes_copy.variables)

  add_as-Adds :
      (s : Merging N D) (id : RecipeId) (recipe : Recipe N)
      → Adds s id recipe (add_as validate s id recipe)
  unfolding add_as recipes_try_add_new_with_id
  add_as-Adds s id recipe =
      let checked = validate_devices validate s.recipes_copy.variables recipe.devices s.devices in
      let r = record recipe { devices = checked.1.0 } in
      elim (Bool-cases checked.1.1) [
        | inr invalid ↦ rw invalid (refl, refl)
        | inl valid ↦ elim (try_add-cases s.recipes_copy id r) [
          | inr (old, present, e) ↦ rw (valid, e) (refl, refl)
          | inl (absent, e) ↦
              rw (valid, e)
                (
                  absent,
                  record {
                    recipe = r;
                    found = get-insert_self id r s.recipes_copy.all;
                    created = refl;
                    tags = refl;
                    devices =
                        validate_devices-Validated s.recipes_copy.variables recipe.devices s.devices
                          valid;
                  },
                  refl,
                  refl,
                )
        ]
      ]

  absent_before :
      (a b : Recipes N) (id : RecipeId)
      → Kept Everywhere a b
      → OrdHashMap.get id b.all ≡ none
      → OrdHashMap.get id a.all ≡ none
  absent_before a b id h absent = elim (Option-cases (OrdHashMap.get id a.all)) [
    | inl e ↦ e
    | inr (x, e) ↦ absurd (cc (absent, h.recipes id x tt e))
  ]

  Present-Kept :
      (vars : Variables N) (a b : Recipes N) (id : RecipeId) (r : Recipe N)
      → Kept Everywhere a b
      → Present validate vars id r a
      → Present validate vars id r b
  Present-Kept vars a b id r h p = record {
    recipe = p.recipe;
    found = h.recipes id p.recipe tt p.found;
    created = p.created;
    tags = p.tags;
    devices = p.devices;
  }

  keeps_itself :
      (s : Merging N D)
      → IsValid s.recipes_copy
      → s.strategy ≡ unspecified
      → Merges Everywhere true s.recipes_copy unspecified s
  keeps_itself s valid e = record {
    kept = record {
      valid = valid;
      active_id = refl;
      backup = refl;
      recipes = λ k x p found. found;
    };
    allowed = rw e tt;
    panics = rw e (λ p. p);
  }

  Kept_trans : {a b c : Recipes N} → Kept Everywhere a b → Kept Everywhere b c → Kept Everywhere a c
  Kept_trans h k = record {
    valid = k.valid;
    active_id = k.active_id ∙ h.active_id;
    backup = k.backup ∙ h.backup;
    recipes = λ j x p found. k.recipes j x p (h.recipes j x p found);
  }

  -- A recipe of the list is the one just added, or one of the rest.
  first_or_later :
      (vars : Variables N) (s s' m : Merging N D) (id : RecipeId) (recipe : Recipe N)
      (rest : HashMap RecipeId (Recipe N))
      → Kept Everywhere s.recipes_copy s'.recipes_copy
      → OrdHashMap.get id s.recipes_copy.all ≡ none
      → Present validate vars id recipe s'.recipes_copy
      → Kept Everywhere s'.recipes_copy m.recipes_copy
      → (j : RecipeId) (r : Recipe N)
      → (HashMap.get j rest ≡ some r
          → (OrdHashMap.get j s'.recipes_copy.all ≡ none)
            × Present validate vars j r m.recipes_copy)
      → HashMap.get j ((id, recipe) ∷ rest) ≡ some r
      → (OrdHashMap.get j s.recipes_copy.all ≡ none) × Present validate vars j r m.recipes_copy
  unfolding HashMap.get
  first_or_later vars s s' m id recipe rest k absent present kept j r later found =
      elim (Bool-cases (id == j)) [
        | inl t ↦
            let same_id : id ≡ j = eq_of_test id j t in
            let same : recipe ≡ r = ground (arith, found, t) in
            let here : Present validate vars j r s'.recipes_copy = rw (← same_id, ← same) present in
            (rw (← same_id) absent, Present-Kept vars s'.recipes_copy m.recipes_copy j r kept here)
        | inr t ↦
            let (absent', present') = later (ground (arith, found, t)) in
            (absent_before s.recipes_copy s'.recipes_copy j k absent', present')
      ]

  module _ (serde : Serde N) (active_id : RecipeId) where
    -- Of the whole loop: without an error at its end, there was none at its start, and every
    -- recipe was new and is there.
    abbrev AllAdded :
        Merging N D
        → HashMap RecipeId (Recipe N)
        → List RecipeId
        → Option (Merging N D × Option (List RecipeId))
        → Type 0
    AllAdded s imported errors none = Unit
    AllAdded s imported errors (some (m, none)) = Unit
    AllAdded s imported errors (some (m, some es)) =
        Kept Everywhere s.recipes_copy m.recipes_copy
        × (es ≡ [] → errors ≡ [])
        × (es ≡ []
            → (id : RecipeId) (r : Recipe N) → HashMap.get id imported ≡ some r
            → (OrdHashMap.get id s.recipes_copy.all ≡ none)
              × Present validate s.recipes_copy.variables id r m.recipes_copy)

    -- The rest of the loop, behind one addition.
    step_added :
        (s s' : Merging N D) (id : RecipeId) (recipe : Recipe N)
        (rest : HashMap RecipeId (Recipe N)) (errors : List RecipeId)
        (res : Result AlreadyExists (Unit {0})) (r : Option (Merging N D × Option (List RecipeId)))
        → Kept Everywhere s.recipes_copy s'.recipes_copy
        → Adds s id recipe (some (s', res))
        → AllAdded s' rest (with_error id errors res) r
        → AllAdded s ((id, recipe) ∷ rest) errors r
    step_added s s' id recipe rest errors res none k a h = tt
    step_added s s' id recipe rest errors res (some (m, none)) k a h = tt
    step_added s s' id recipe rest errors (err x) (some (m, some es)) k a
          (kept, none_before, later) =
        (Kept_trans k kept, λ e. absurd (cc (none_before e)), λ e. absurd (cc (none_before e)))
    step_added s s' id recipe rest errors (ok u) (some (m, some es)) k (absent, present, same, vars)
          (kept, none_before, later) =
        (
          Kept_trans k kept,
          none_before,
          λ e j r found.
              first_or_later s.recipes_copy.variables s s' m id recipe rest k absent present kept j
                r (λ found'. rw (← vars) (later e j r found')) found,
        )

    merge_all-AllAdded :
        (imported : HashMap RecipeId (Recipe N)) (s : Merging N D) (errors : List RecipeId)
        → IsValid s.recipes_copy
        → s.strategy ≡ unspecified
        → AllAdded s imported errors (merge_all validate serde active_id imported s errors)
    unfolding merge_all handle_json HashMap.get
    merge_all-AllAdded [] s errors valid e =
        ((keeps_itself s valid e).kept, λ h. h, λ h id r found. absurd (cc found))
    merge_all-AllAdded ((id, recipe) ∷ rest) s errors valid e =
        elim (Bool-cases (id == active_id)) [
          | inl active ↦ rw active tt
          | inr other ↦ rw other (
              let added = λ (t : MergeStrategy). merge_with validate serde t s id recipe in
              go (added s.strategy) (merge_all-AllAdded rest)
                (subst (λ t. Adds s id recipe (added t)) (sym e) (add_as-Adds s id recipe))
                (subst (λ t. After Everywhere true s.recipes_copy unspecified (added t)) (sym e)
                  (add_as-After Everywhere true s.recipes_copy unspecified validate s id recipe
                    (keeps_itself s valid e))))
        ]
      where
        go :
            (r : Option (Merging N D × Result AlreadyExists (Unit {0})))
            → ((t : Merging N D) (errors : List RecipeId)
                → IsValid t.recipes_copy
                → t.strategy ≡ unspecified
                → AllAdded t rest errors (merge_all validate serde active_id rest t errors))
            → Adds s id recipe r
            → After Everywhere true s.recipes_copy unspecified r
            → AllAdded s ((id, recipe) ∷ rest) errors (elim r [
              | none ↦ none
              | some (s', result) ↦
                  merge_all validate serde active_id rest s' (with_error id errors result)
            ])
        go none ih a h = tt
        go (some (s', ok u)) ih a h =
            step_added s s' id recipe rest errors (ok u) _ h.kept a
              (ih s' errors h.kept.valid (a.2 ∙ e))
        go (some (s', err x)) ih a h =
            step_added s s' id recipe rest errors (err x) _ h.kept a
              (ih s' (id ∷ errors) h.kept.valid (a.0 ∙ e))

-- The end of an import: it succeeds only with the recipes that the loop has made.
module _ {N D F : Type 0} (fs : Files N F) (s : World N D F) where
  abbrev Replaced : Merging N D → Outcome N D F → Type 0
  Replaced m none = Unit
  Replaced m (some (t, ok u)) = t.recipes ≡ m.recipes_copy
  Replaced m (some (t, err x)) = Unit

  closed-Replaced :
      (m : Merging N D) (t : World N D F) (x : ImportRecipeError N) → Replaced m (closed fs t x)
  closed-Replaced m t x = elim (Result-cases (fs.close_tmp t.files).1) [
    | inl (u, e) ↦ rw e tt
    | inr (y, e) ↦ rw e tt
  ]

  stored-Replaced :
      (m : Merging N D) (r : F × Result (Unit {0}) (Unit {0})) → Replaced m (stored fs s m r)
  stored-Replaced m (f, err x) =
      closed-Replaced m (record s { devices = m.devices; files = f }) irreversible
  stored-Replaced m (f, ok u) = elim (Result-cases (fs.commit m.recipes_copy f).1) [
    | inl (u, e) ↦ rw e refl
    | inr (x, e) ↦ rw e (
        closed-Replaced m
          (record s {
            recipes = m.recipes_copy;
            devices = m.devices;
            files = (fs.commit m.recipes_copy f).0;
          })
          irreversible)
  ]

  with_files-Replaced :
      (m : Merging N D) (r : Option (F × Result (Unit {0}) (Unit {0})))
      → Replaced m (with_files fs s m r)
  with_files-Replaced m none = tt
  with_files-Replaced m (some (f, err x)) =
      closed-Replaced m (record s { devices = m.devices; files = f }) irreversible
  with_files-Replaced m (some (f, ok u)) = stored-Replaced m (fs.clone_tmp f)

  without_duplicates-Replaced :
      (m : Merging N D) (r : Result DuplicateDevice (Unit {0}))
      → Replaced m (without_duplicates fs s m r)
  without_duplicates-Replaced m (err x) =
      closed-Replaced m (record s { devices = m.devices }) (existing_device_in_other_recipe x)
  without_duplicates-Replaced m (ok u) = with_files-Replaced m (finalize fs m.strategy s.files)

  -- What an import that succeeds knows of the loop.
  abbrev Succeeds : Option (Merging N D × Option (List RecipeId)) → Outcome N D F → Type 0
  Succeeds r none = Unit
  Succeeds r (some (t, err x)) = Unit
  Succeeds r (some (t, ok u)) =
      (m : Merging N D) × (r ≡ some (m, some [])) × (t.recipes ≡ m.recipes_copy)

  Succeeds-of :
      (m : Merging N D) (o : Outcome N D F) → Replaced m o → Succeeds (some (m, some [])) o
  Succeeds-of m none h = tt
  Succeeds-of m (some (t, ok u)) h = (m, refl, h)
  Succeeds-of m (some (t, err x)) h = tt

  checked-Succeeds :
      (vars : List (VariableConflict N)) (r : Option (Merging N D × Option (List RecipeId)))
      → Succeeds r (checked fs s vars r)
  checked-Succeeds vars none = tt
  checked-Succeeds vars (some (m, none)) = tt
  checked-Succeeds [] (some (m, some [])) =
      Succeeds-of m _ (without_duplicates-Replaced m (error_for_duplicate_device m.recipes_copy))
  checked-Succeeds [] (some (m, some (x ∷ errors))) = tt
  checked-Succeeds (v ∷ vars) (some (m, some [])) = tt
  checked-Succeeds (v ∷ vars) (some (m, some (x ∷ errors))) = tt

-- If an import without a strategy succeeds from a valid state, no recipe had the id of an imported
-- one, and the imported recipe is found under it, with its time of creation, its tags and its
-- devices, each with its id, its place in the order, its type, its name and its committed
-- parameters. Each device was validated with the merged variables, and its parameters are those
-- that the validation has migrated them to, or as imported.
pub apply-Present :
    {N D F : Type 0} ⦃e : PartialEq N⦄ (validate : Validate N D) (serde : Serde N) (fs : Files N F)
    (importer : Importer N) (s t : World N D F) (id : RecipeId) (r : Recipe N)
    → IsValid s.recipes
    → apply validate serde fs unspecified importer s ≡ some (t, ok tt)
    → HashMap.get id importer.recipes ≡ some r
    → (OrdHashMap.get id s.recipes.all ≡ none)
      × Present validate (add s.recipes.variables importer.variables).0 id r t.recipes
unfolding apply apply_strategy
apply-Present {N} {D} {F} validate serde fs importer s t id r valid success found =
    let (running, active) = active_of_IsValid s.recipes valid in
    let (variables, variable_conflicts) = add s.recipes.variables importer.variables in
    let start : Merging N D = record {
      devices = s.devices;
      strategy = unspecified;
      recipes_copy = record s.recipes { variables = variables };
    } in
    let loop = merge_all validate serde s.recipes.active_id importer.recipes start [] in
    let rest = checked fs s variable_conflicts loop in
    let reached : rest ≡ some (t, ok tt) = sym (ap (λ o. with_active o rest) active) ∙ success in
    let (m, ended, same) =
      subst (Succeeds fs s loop) reached (checked-Succeeds fs s variable_conflicts loop) in
    let all_added =
      merge_all-AllAdded validate serde s.recipes.active_id importer.recipes start []
        (record { nodup = valid.nodup; active = valid.active }) refl in
    let (absent, present) =
      (subst (AllAdded validate serde s.recipes.active_id start importer.recipes []) ended
          all_added).2
        refl id r found in
    (absent, rw same present)
