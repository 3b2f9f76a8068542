-- ===== src/Import/Whole.antt =====
-- A whole import: what it leaves untouched, with each strategy and each outcome.
use pilatus.Base.{
  ◌≡◌, refl, Option, none, some, List, [], ◌∷◌, PartialEq, nat_eq, list_eq, inl, inr, arith,
  Bool-cases,
}
use pilatus.Base.Result.{Result, ok, err, Result-cases}
use pilatus.Name.{RecipeId}
use pilatus.Variables.{VariableConflict, add}
use pilatus.Recipe.Active.{IsValid, active_of_IsValid}
use pilatus.Import.Defs.{DuplicateDevice, error_for_duplicate_device}
use pilatus.Import.Merge.{Validate, Serde, MergeStrategy, unspecified, duplicate, replace, Merging}
use pilatus.Import.Apply.{
  Files, Importer, World, ImportRecipeError, irreversible, finalize, stored, with_files,
  without_duplicates, checked, apply_strategy, apply, existing_device_in_other_recipe, closed,
  contains_active_recipe, conflicts, io,
}
use pilatus.Import.Untouched.{Kept, Protected, Allowed, Panics, Merges, After, merge_all-After}

module _ {N D F : Type 0} (fs : Files N F) where
  -- What holds after an import from the world `s`.
  abbrev pub Imported :
      (P : RecipeId → Type 0)
      → MergeStrategy
      → World N D F
      → Option (World N D F × Result (ImportRecipeError N) (Unit {0}))
      → Type 0
  Imported P strategy s none = Panics fs.root_is_safe strategy
  Imported P strategy s (some (t, ok u)) = Kept P s.recipes t.recipes
  Imported P strategy s (some (t, err irreversible)) = Kept P s.recipes t.recipes
  Imported P strategy s (some (t, err io)) = Kept P s.recipes t.recipes
  Imported P strategy s (some (t, err (existing_device_in_other_recipe x))) =
      (t.recipes ≡ s.recipes) × (t.files ≡ (fs.close_tmp s.files).0)
  Imported P strategy s (some (t, err contains_active_recipe)) =
      (t.recipes ≡ s.recipes) × (t.files ≡ fs.drop_tmp s.files)
  Imported P strategy s (some (t, err (conflicts ids vars))) =
      (t.recipes ≡ s.recipes) × (t.files ≡ s.files)

  module _ (P : RecipeId → Type 0) (strategy : MergeStrategy) (s : World N D F)
      (valid : IsValid s.recipes) where
    nothing_changed : Kept P s.recipes s.recipes
    nothing_changed = record {
      valid = valid;
      active_id = refl;
      backup = refl;
      recipes = λ k x p found. found;
    }

    closed-Imported :
        (t : World N D F)
        → Kept P s.recipes t.recipes
        → Imported P strategy s (closed fs t irreversible)
    closed-Imported t h = elim (Result-cases (fs.close_tmp t.files).1) [
      | inl (u, e) ↦ rw e h
      | inr (x, e) ↦ rw e h
    ]

    duplicate-Imported :
        (m : Merging N D) (x : DuplicateDevice)
        → Imported P strategy s
            (closed fs (record s { devices = m.devices }) (existing_device_in_other_recipe x))
    duplicate-Imported m x = elim (Result-cases (fs.close_tmp s.files).1) [
      | inl (u, e) ↦ rw e (refl, refl)
      | inr (y, e) ↦ rw e nothing_changed
    ]

    stored-Imported :
        (m : Merging N D) (r : F × Result (Unit {0}) (Unit {0}))
        → Kept P s.recipes m.recipes_copy
        → Imported P strategy s (stored fs s m r)
    stored-Imported m (f, err x) h =
        closed-Imported (record s { devices = m.devices; files = f }) nothing_changed
    stored-Imported m (f, ok u) h = elim (Result-cases (fs.commit m.recipes_copy f).1) [
      | inl (u, e) ↦ rw e h
      | inr (x, e) ↦ rw e (
          closed-Imported
            (record s {
              recipes = m.recipes_copy;
              devices = m.devices;
              files = (fs.commit m.recipes_copy f).0;
            })
            h)
    ]

    with_files-Imported :
        (m : Merging N D) (r : Option (F × Result (Unit {0}) (Unit {0})))
        → (r ≡ none → Panics fs.root_is_safe strategy)
        → Kept P s.recipes m.recipes_copy
        → Imported P strategy s (with_files fs s m r)
    with_files-Imported m none p h = p refl
    with_files-Imported m (some (f, err x)) p h =
        closed-Imported (record s { devices = m.devices; files = f }) nothing_changed
    with_files-Imported m (some (f, ok u)) p h = stored-Imported m (fs.clone_tmp f) h

    finalize-Panics :
        (t : MergeStrategy) (f : F) → finalize fs t f ≡ none → Panics fs.root_is_safe t
    unfolding finalize
    finalize-Panics unspecified f h = cc h
    finalize-Panics (duplicate m) f h = tt
    finalize-Panics (replace ds) f h = elim (Bool-cases fs.root_is_safe) [
      | inl safe ↦ absurd (ground (arith, h, safe))
      | inr unsafe ↦ unsafe
    ]

    without_duplicates-Imported :
        (m : Merging N D) (r : Result DuplicateDevice (Unit {0}))
        → Merges P fs.root_is_safe s.recipes strategy m
        → Imported P strategy s (without_duplicates fs s m r)
    without_duplicates-Imported m (err x) h = duplicate-Imported m x
    without_duplicates-Imported m (ok u) h =
        with_files-Imported m (finalize fs m.strategy s.files)
          (λ p. h.panics (finalize-Panics m.strategy s.files p)) h.kept

    checked-Imported :
        (vars : List (VariableConflict N)) (r : Option (Merging N D × Option (List RecipeId)))
        → After P fs.root_is_safe s.recipes strategy r
        → Imported P strategy s (checked fs s vars r)
    checked-Imported vars none h = h
    checked-Imported vars (some (m, none)) h = (refl, refl)
    checked-Imported [] (some (m, some [])) h =
        without_duplicates-Imported m (error_for_duplicate_device m.recipes_copy) h
    checked-Imported [] (some (m, some (x ∷ errors))) h = (refl, refl)
    checked-Imported (v ∷ vars) (some (m, some [])) h = (refl, refl)
    checked-Imported (v ∷ vars) (some (m, some (x ∷ errors))) h = (refl, refl)

module _ {N D F : Type 0} ⦃e : PartialEq N⦄ (validate : Validate N D) (serde : Serde N)
    (fs : Files N F) where
  apply_strategy-Imported :
      (P : RecipeId → Type 0) (strategy : MergeStrategy) (importer : Importer N) (s : World N D F)
      → IsValid s.recipes
      → Allowed P s.recipes.active_id strategy
      → Imported fs P strategy s (apply_strategy validate serde fs strategy importer s)
  unfolding apply_strategy
  apply_strategy-Imported P strategy importer s valid allowed =
      let (running, active) = active_of_IsValid s.recipes valid in
      let (variables, variable_conflicts) = add s.recipes.variables importer.variables in
      let copy = record s.recipes { variables = variables } in
      rw active (
        checked-Imported fs P strategy s valid variable_conflicts _ (
          merge_all-After P fs.root_is_safe s.recipes strategy validate serde s.recipes.active_id
            importer.recipes
            (record { devices = s.devices; strategy = strategy; recipes_copy = copy }) []
            (record {
              kept = record {
                valid = record { nodup = valid.nodup; active = valid.active };
                active_id = refl;
                backup = refl;
                recipes = λ k x p found. found;
              };
              allowed = allowed;
              panics = λ p. p;
            })))

  -- From a valid state, an import does the following with every strategy, whatever the devices and
  -- the file system answer. If it meets the active recipe, the recipes do not change, and the files
  -- only by dropping the temporary directory; with conflicts, neither changes. If it meets a device
  -- in two recipes, the recipes do not change, and the files only by closing the temporary
  -- directory, or that fails. With any other outcome the state stays valid, the active id and the
  -- backup are as before, and so are all recipes that were there, with `Replace` at least the
  -- active one. It panics only with `Duplicate`, or with `Replace` if the assertion on the
  -- directory fails.
  pub apply-Imported :
      (strategy : MergeStrategy) (importer : Importer N) (s : World N D F)
      → IsValid s.recipes
      → Imported fs
          (Protected strategy s.recipes)
          strategy
          s
          (apply validate serde fs strategy importer s)
  unfolding apply
  apply-Imported unspecified importer s h =
      apply_strategy-Imported (Protected unspecified s.recipes) unspecified importer s h tt
  apply-Imported (duplicate m) importer s h =
      apply_strategy-Imported (Protected (duplicate m) s.recipes) (duplicate []) importer s h tt
  apply-Imported (replace ds) importer s h =
      apply_strategy-Imported (Protected (replace ds) s.recipes) (replace []) importer s h
        (λ k p. p)
