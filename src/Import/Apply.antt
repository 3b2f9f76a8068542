-- ===== src/Import/Apply.antt =====
-- `apply_strategy`: an import works on a copy of the recipes, which replaces them at the end. The
-- importer owns the temporary directory, and drops it unless the error of a conflict takes it along.
use pilatus.Base.{
  Bool, Option, none, some, List, [], ◌∷◌, if◌then◌else◌, PartialEq, ◌==◌, nat_eq, list_eq,
}
use pilatus.Base.Result.{Result, ok, err}
use pilatus.Name.{RecipeId}
use pilatus.HashMap.{HashMap}
use pilatus.Variables.{Variables, VariableConflict, add}
use pilatus.Recipe.{DeviceId, Recipe, Recipes, active_without_id}
use pilatus.Import.Defs.{DuplicateDevice, error_for_duplicate_device}
use pilatus.Import.Merge.{
  Validate, Serde, MergeStrategy, unspecified, duplicate, replace, Merging, AlreadyExists,
  handle_json,
}

-- The file system, as far as an import uses it. An error is an `io::Error`.
pub record Files (N F : Type 0) : Type 0 where
  -- the result of a renaming is ignored
  pub rename_in_tmp : (from to : DeviceId) → F → F
  pub exists_dir : DeviceId → F → Bool
  pub remove_dir_all : DeviceId → F → F × Result (Unit {0}) (Unit {0})
  pub clone_tmp : F → F × Result (Unit {0}) (Unit {0})
  pub close_tmp : F → F × Result (Unit {0}) (Unit {0})
  -- `Drop` of the temporary directory, which removes it and ignores an error
  pub drop_tmp : F → F
  pub commit : Recipes N → F → F × Result (Unit {0}) (Unit {0})
  -- the test that `finalize` of `Replace` asserts of the directory of the recipes
  pub root_is_safe : Bool

pub record Importer (N : Type 0) : Type 0 where
  pub recipes : HashMap RecipeId (Recipe N)
  pub variables : Variables N

-- The recipes behind the lock, the devices and the files.
pub record World (N D F : Type 0) : Type 0 where
  pub recipes : Recipes N
  pub devices : D
  pub files : F

pub data ImportRecipeError (N : Type 0) : Type 0 where
  contains_active_recipe irreversible io : ImportRecipeError N
  conflicts : List RecipeId → List (VariableConflict N) → ImportRecipeError N
  existing_device_in_other_recipe : DuplicateDevice → ImportRecipeError N

module _ {N F : Type 0} (fs : Files N F) where
  abbrev pub rename_all : HashMap DeviceId DeviceId → F → F
  rename_all [] f = f
  rename_all ((old_id, new_id) ∷ rest) f = rename_all rest (fs.rename_in_tmp old_id new_id f)

  abbrev pub remove_all : List DeviceId → F → F × Result (Unit {0}) (Unit {0})
  remove_all [] f = (f, ok tt)
  remove_all (d ∷ rest) f =
      let later = remove_all rest in
      let (f', result) = fs.remove_dir_all d f in
      if fs.exists_dir d f then elim result [ ok u ↦ later f' | err e ↦ (f', err e) ] else later f

  -- `finalize` of the strategy; none where an assertion fails.
  unfoldable pub finalize : MergeStrategy → F → Option (F × Result (Unit {0}) (Unit {0}))
  finalize unspecified f = some (f, ok tt)
  finalize (duplicate m) f = some (rename_all m f, ok tt)
  finalize (replace ds) f = if fs.root_is_safe then some (remove_all ds f) else none

abbrev pub with_error : RecipeId → List RecipeId → Result AlreadyExists (Unit {0}) → List RecipeId
with_error id errors (ok u) = errors
with_error id errors (err e) = id ∷ errors

module _ {N D : Type 0} (validate : Validate N D) (serde : Serde N) where
  -- The loop over the imported recipes; none inside where one of them is active.
  unfoldable pub merge_all :
      RecipeId
      → HashMap RecipeId (Recipe N)
      → Merging N D
      → List RecipeId
      → Option (Merging N D × Option (List RecipeId))
  merge_all active_id [] s errors = some (s, some errors)
  merge_all active_id ((id, recipe) ∷ rest) s errors =
      let handled = handle_json validate serde s id recipe in
      let next : Option (Merging N D × Option (List RecipeId)) = elim handled [
        | none ↦ none
        | some (s', result) ↦ merge_all active_id rest s' (with_error id errors result)
      ] in
      if id == active_id then some (s, none) else next

abbrev pub Outcome : (N D F : Type 0) → Type 0
Outcome N D F = Option (World N D F × Result (ImportRecipeError N) (Unit {0}))

-- `get_active` panics without an active recipe.
abbrev pub with_active : {N D F : Type 0} → Option (Recipe N) → Outcome N D F → Outcome N D F
with_active none rest = none
with_active (some r) rest = rest

module _ {N D F : Type 0} (fs : Files N F) where
  -- An error behind which the temporary directory is closed, which may fail itself.
  abbrev pub closed : World N D F → ImportRecipeError N → Outcome N D F
  closed s x = some (
    record s { files = (fs.close_tmp s.files).0 },
    elim (fs.close_tmp s.files).1 [ ok u ↦ err x | err e ↦ err io ],
  )

  abbrev pub committed : World N D F → Result (Unit {0}) (Unit {0}) → Outcome N D F
  committed s (ok u) = some (record s { files = fs.drop_tmp s.files }, ok tt)
  committed s (err x) = closed s irreversible

  -- The end of the block `finalize`: the recipes are replaced before they are stored.
  abbrev pub stored : World N D F → Merging N D → F × Result (Unit {0}) (Unit {0}) → Outcome N D F
  stored s m (f, err x) = closed (record s { devices = m.devices; files = f }) irreversible
  stored s m (f, ok u) =
      let (f', result) = fs.commit m.recipes_copy f in
      committed (record s { recipes = m.recipes_copy; devices = m.devices; files = f' }) result

  abbrev pub with_files :
      World N D F → Merging N D → Option (F × Result (Unit {0}) (Unit {0})) → Outcome N D F
  with_files s m none = none
  with_files s m (some (f, err x)) =
      closed (record s { devices = m.devices; files = f }) irreversible
  with_files s m (some (f, ok u)) = stored s m (fs.clone_tmp f)

  abbrev pub without_duplicates :
      World N D F → Merging N D → Result DuplicateDevice (Unit {0}) → Outcome N D F
  without_duplicates s m (err x) =
      closed (record s { devices = m.devices }) (existing_device_in_other_recipe x)
  without_duplicates s m (ok u) = with_files s m (finalize fs m.strategy s.files)

  abbrev pub checked :
      World N D F
      → List (VariableConflict N)
      → Option (Merging N D × Option (List RecipeId))
      → Outcome N D F
  checked s vars none = none
  checked s vars (some (m, none)) =
      some
        (record s { devices = m.devices; files = fs.drop_tmp s.files }, err contains_active_recipe)
  checked s [] (some (m, some [])) =
      without_duplicates s m (error_for_duplicate_device m.recipes_copy)
  checked s vars (some (m, some errors)) =
      some (record s { devices = m.devices }, err (conflicts errors vars))

module _ {N D F : Type 0} ⦃e : PartialEq N⦄ (validate : Validate N D) (serde : Serde N)
    (fs : Files N F) where
  unfoldable pub apply_strategy : MergeStrategy → Importer N → World N D F → Outcome N D F
  apply_strategy strategy importer s =
      let (variables, variable_conflicts) = add s.recipes.variables importer.variables in
      let copy = record s.recipes { variables = variables } in
      with_active (active_without_id s.recipes) (
        checked fs s variable_conflicts (
          merge_all validate serde s.recipes.active_id importer.recipes
            (record { devices = s.devices; strategy = strategy; recipes_copy = copy }) []))

  -- `apply`, with the strategy that the options name.
  unfoldable pub apply : MergeStrategy → Importer N → World N D F → Outcome N D F
  apply unspecified = apply_strategy unspecified
  apply (duplicate m) = apply_strategy (duplicate [])
  apply (replace ds) = apply_strategy (replace [])
