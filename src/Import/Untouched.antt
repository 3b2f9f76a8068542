-- ===== src/Import/Untouched.antt =====
-- What an import leaves as it is.
use pilatus.Base.{
  ◌≡◌, refl, sym, subst, ◌∙◌, inl, inr, Bool, false, Option, none, some, List, [], ◌∷◌, ◌++◌, arith,
  ◌==◌, nat_eq, list_eq, Bool-cases, eq_of_test, test_of_ne,
}
use pilatus.Base.Result.{Result, ok, err}
use pilatus.Name.{RecipeId}
use pilatus.HashMap
use pilatus.HashMap.{HashMap}
use pilatus.OrdHashMap
use pilatus.OrdHashMap.{OrdHashMap}
use pilatus.OrdHashMap.Lookup.{get-insert, get-remove}
use pilatus.Recipe.{
  DeviceId, Recipe, Recipes, RemoveRecipeError, try_add, has_recipe, remove as remove_from,
}
use pilatus.Recipe.Active.{IsValid, try_add-cases, try_add-IsValid, remove-cases, remove-IsValid}
use pilatus.Import.Merge.{
  Validate, Serde, MergeStrategy, unspecified, duplicate, replace, Merging, AlreadyExists,
  validate_devices, recipes_try_add_new_with_id, merged, add_as, then_add, taken_out, duplicated,
  build_duplicate, merge_with, handle_json,
}
use pilatus.Import.Apply.{merge_all, with_error}

-- A state that is valid and still has the active recipe, its backup, and the recipes at `P`.
pub record Kept {N : Type 0} (P : RecipeId → Type 0) (before after : Recipes N) : Type 0 where
  pub valid : IsValid after
  pub active_id : after.active_id ≡ before.active_id
  pub backup : after.active_backup ≡ before.active_backup
  pub recipes :
      (k : RecipeId) (x : Recipe N)
      → P k
      → OrdHashMap.get k before.all ≡ some x
      → OrdHashMap.get k after.all ≡ some x

module _ {N : Type 0} (P : RecipeId → Type 0) (before : Recipes N) where
  insert_new-Kept :
      (rs : Recipes N) (id : RecipeId) (r : Recipe N)
      → OrdHashMap.get id rs.all ≡ none
      → IsValid (record rs { all = (OrdHashMap.insert id r rs.all).0 })
      → Kept P before rs
      → Kept P before (record rs { all = (OrdHashMap.insert id r rs.all).0 })
  insert_new-Kept rs id r absent v h = record {
    valid = v;
    active_id = h.active_id;
    backup = h.backup;
    recipes = λ k x p found. elim (Bool-cases (id == k)) [
      | inl t ↦ absurd (cc (absent, h.recipes k x p found, eq_of_test id k t))
      | inr t ↦ ground (arith, get-insert id k r rs.all, t, h.recipes k x p found)
    ];
  }

  insert_back-Kept :
      (rs : Recipes N) (id : RecipeId) (r old : Recipe N)
      → OrdHashMap.get id rs.all ≡ some old
      → let back = record rs {
        all = (OrdHashMap.insert id old (OrdHashMap.insert id r rs.all).0).0;
      } in
        IsValid back → Kept P before rs → Kept P before back
  insert_back-Kept rs id r old present v h = record {
    valid = v;
    active_id = h.active_id;
    backup = h.backup;
    recipes = λ k x p found.
        let first = (OrdHashMap.insert id r rs.all).0 in
        elim (Bool-cases (id == k)) [
          | inl t ↦
              let same : old ≡ x = cc (present, h.recipes k x p found, eq_of_test id k t) in
              ground (arith, get-insert id k old first, t, same)
          | inr t ↦
              ground (
                arith,
                get-insert id k old first,
                get-insert id k r rs.all,
                t,
                h.recipes k x p found,
              )
        ];
  }

  -- `try_add` never panics and changes no recipe that is there.
  try_add-Kept :
      (rs : Recipes N) (id : RecipeId) (r : Recipe N)
      → Kept P before rs
      → (rs' : Recipes N) × (res : Result (Recipe N) (Unit {0})) × (try_add rs id r
          ≡ some (rs', res))
        × Kept P before rs'
  try_add-Kept rs id r h = elim (try_add-cases rs id r) [
    | inl (absent, e) ↦
        (_, _, e, insert_new-Kept rs id r absent (try_add-IsValid rs _ id r _ e h.valid) h)
    | inr (old, present, e) ↦
        (_, _, e, insert_back-Kept rs id r old present (try_add-IsValid rs _ id r _ e h.valid) h)
  ]

  remove-Kept :
      (rs : Recipes N) (id : RecipeId)
      → ((k : RecipeId) → P k → k ≡ before.active_id)
      → Kept P before rs
      → (rs' : Recipes N) × (res : Result RemoveRecipeError (Recipe N)) × (remove_from rs id
          ≡ some (rs', res))
        × Kept P before rs'
  remove-Kept rs id only h = elim (remove-cases rs id h.valid) [
    | inl (same, e) ↦ (_, _, e, h)
    | inr (inl (absent, e)) ↦ (_, _, e, h)
    | inr (inr (x, n, present, e)) ↦ (
      _,
      _,
      e,
      record {
        valid = remove-IsValid rs _ id _ e h.valid;
        active_id = h.active_id;
        backup = h.backup;
        recipes = λ k y p found.
            let other = test_of_ne id k (λ q. n (q ∙ only k p ∙ sym h.active_id)) in
            ground (arith, get-remove id k rs.all, other, h.recipes k y p found);
      },
    )
  ]

-- The recipes that a strategy may replace are those that are not active.
abbrev pub Protected : {N : Type 0} → MergeStrategy → Recipes N → RecipeId → Type 0
Protected unspecified rs k = Unit
Protected (duplicate m) rs k = Unit
Protected (replace ds) rs k = k ≡ rs.active_id

-- A strategy replaces no recipe at `P` but the active one.
abbrev pub Allowed : (P : RecipeId → Type 0) (active_id : RecipeId) → MergeStrategy → Type 0
Allowed P active_id unspecified = Unit
Allowed P active_id (duplicate m) = Unit
Allowed P active_id (replace ds) = (k : RecipeId) → P k → k ≡ active_id

-- When an import may panic: `Duplicate` if the copy of a recipe cannot be read or no id is free, and
-- `Replace` if the directory of the recipes is not `safe`.
abbrev pub Panics : Bool → MergeStrategy → Type 0
Panics safe unspecified = ⊥
Panics safe (duplicate m) = Unit
Panics safe (replace ds) = safe ≡ false

-- What holds throughout an import that began with the strategy `start`.
pub record Merges {N D : Type 0} (P : RecipeId → Type 0) (safe : Bool) (before : Recipes N)
    (start : MergeStrategy) (s : Merging N D) : Type 0 where
  pub kept : Kept P before s.recipes_copy
  pub allowed : Allowed P before.active_id s.strategy
  pub panics : Panics safe s.strategy → Panics safe start

module _ {N D : Type 0} (P : RecipeId → Type 0) (safe : Bool) (before : Recipes N)
    (start : MergeStrategy) where
  abbrev pub After : {A : Type 0} → Option (Merging N D × A) → Type 0
  After none = Panics safe start
  After (some (s, a)) = Merges P safe before start s

  merged-After :
      (s : Merging N D) (id : RecipeId) (w : D) (rs : Recipes N)
      (res : Result (Recipe N) (Unit {0}))
      → Kept P before rs
      → Merges P safe before start s
      → After (merged s id (some (w, (rs, res))))
  merged-After s id w rs (ok u) k h = record { kept = k; allowed = h.allowed; panics = h.panics }
  merged-After s id w rs (err r) k h = record { kept = k; allowed = h.allowed; panics = h.panics }

  module _ (validate : Validate N D) where
    pub add_as-After :
        (s : Merging N D) (id : RecipeId) (recipe : Recipe N)
        → Merges P safe before start s
        → After (add_as validate s id recipe)
    unfolding add_as recipes_try_add_new_with_id
    add_as-After s id recipe h =
        let checked = validate_devices validate s.recipes_copy.variables recipe.devices s.devices in
        let r = record recipe { devices = checked.1.0 } in
        elim (Bool-cases checked.1.1) [
          | inr invalid ↦ rw invalid (merged-After s id checked.0 s.recipes_copy (err r) h.kept h)
          | inl valid ↦
              let (rs, res, e, kept) = try_add-Kept P before s.recipes_copy id r h.kept in
              rw (valid, e) (merged-After s id checked.0 rs res kept h)
        ]

    replaced-After :
        (s : Merging N D) (ds : List DeviceId) (id : RecipeId) (recipe : Recipe N) (rs : Recipes N)
        (res : Result RemoveRecipeError (Recipe N))
        → s.strategy ≡ replace ds
        → Kept P before rs
        → Merges P safe before start s
        → After (then_add validate id recipe (taken_out s ds id (some (rs, res))))
    replaced-After s ds id recipe rs (err x) e k h =
        add_as-After (record s { recipes_copy = rs }) id recipe
          (record { kept = k; allowed = h.allowed; panics = h.panics })
    replaced-After s ds id recipe rs (ok old) e k h =
        add_as-After
          (record s { recipes_copy = rs; strategy = replace (ds ++ OrdHashMap.keys old.devices) })
          id recipe
          (record {
            kept = k;
            allowed = subst (Allowed P before.active_id) e h.allowed;
            panics = subst (λ t. Panics safe t → Panics safe start) e h.panics;
          })

    module _ (serde : Serde N) where
      duplicated-After :
          (s : Merging N D) (m : HashMap DeviceId DeviceId)
          (built : Option (RecipeId × (HashMap DeviceId DeviceId × Recipe N)))
          → s.strategy ≡ duplicate m
          → Merges P safe before start s
          → After (duplicated validate s m built)
      duplicated-After s m none e h = subst (λ t. Panics safe t → Panics safe start) e h.panics tt
      duplicated-After s m (some (id, (mappings, copy))) e h =
          add_as-After (record s { strategy = duplicate (HashMap.extend mappings m) }) id copy
            (record {
              kept = h.kept;
              allowed = tt;
              panics = subst (λ t. Panics safe t → Panics safe start) e h.panics;
            })

      merge_with-After :
          (strategy : MergeStrategy) (s : Merging N D) (id : RecipeId) (recipe : Recipe N)
          → s.strategy ≡ strategy
          → Merges P safe before start s
          → After (merge_with validate serde strategy s id recipe)
      merge_with-After unspecified s id recipe e h = add_as-After s id recipe h
      merge_with-After (replace ds) s id recipe e h =
          let (rs, res, removed, kept) =
            remove-Kept P before s.recipes_copy id (subst (Allowed P before.active_id) e h.allowed)
              h.kept in
          rw removed (replaced-After s ds id recipe rs res e kept h)
      merge_with-After (duplicate m) s id recipe e h =
          elim (Bool-cases (has_recipe s.recipes_copy id)) [
            | inl taken ↦
                rw taken (duplicated-After s m (build_duplicate serde s.recipes_copy id recipe) e h)
            | inr free ↦ rw free (add_as-After s id recipe h)
          ]

      pub merge_all-After :
          (active_id : RecipeId) (imported : HashMap RecipeId (Recipe N)) (s : Merging N D)
          (errors : List RecipeId)
          → Merges P safe before start s
          → After (merge_all validate serde active_id imported s errors)
      unfolding merge_all handle_json
      merge_all-After active_id [] s errors h = h
      merge_all-After active_id ((id, recipe) ∷ rest) s errors h =
          elim (Bool-cases (id == active_id)) [
            | inl active ↦ rw active h
            | inr other ↦ rw other (
                go (merge_with validate serde s.strategy s id recipe)
                  (merge_all-After active_id rest) (merge_with-After s.strategy s id recipe refl h))
          ]
        where
          go :
              (r : Option (Merging N D × Result AlreadyExists (Unit {0})))
              → ((s : Merging N D) (errors : List RecipeId)
                  → Merges P safe before start s
                  → After (merge_all validate serde active_id rest s errors))
              → After r
              → After (elim r [
                | none ↦ none
                | some (s', result) ↦
                    merge_all validate serde active_id rest s' (with_error id errors result)
              ])
          go none ih a = a
          go (some (s', result)) ih a = ih s' (with_error id errors result) a
