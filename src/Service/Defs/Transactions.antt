-- ===== src/Service/Defs/Transactions.antt =====
-- The transactions of `RecipeDataService` that call devices or files.
use pilatus.Base.{
  Bool, true, false, ◌||◌, Option, none, some, List, [], ◌∷◌, if◌then◌else◌, PartialEq, ◌==◌,
  nat_eq, list_eq,
}
use pilatus.Base.Text.{Text}
use pilatus.Base.Result.{ok, err}
use pilatus.Name.{RecipeId}
use pilatus.Json.{Json}
use pilatus.OrdHashMap
use pilatus.Variables.{Variables, patch}
use pilatus.Recipe.{
  DeviceId, DeviceConfig, restore_committed as config_restored, Recipe,
  update_device_params as update_params, unknown_device_error, other, set_active, has_device,
}
use pilatus.Service.Tx.{Tx, pure, fail, ◌>>=◌, ◌>>◌}
use pilatus.Service.Defs.Access.{
  DeviceContext, Outside, State, Usage, set_active_error, remove_recipe_error, usages_of,
  write_device, get_with_id_or_error, get_device_or_error, find_device, edit, get_recipes,
  set_variables, active, call, attempt, remove_recipe, commit_recipes, write_recipe,
  restored_params, directory_removed, or_invalid, unless_migrated,
}

module _ {N W : Type 0} (out : Outside N W) where
  abbrev pub remove_files : DeviceId → Option (DeviceConfig N) → Tx (State N W) (Unit {0})
  remove_files device_id none = fail (unknown_device_error device_id)
  remove_files device_id (some d) = do ignored ← attempt (out.remove_device_dir device_id); pure tt

  unfoldable pub delete_device : RecipeId → DeviceId → Tx (State N W) (Unit {0})
  delete_device recipe_id device_id = do
    recipe ← get_with_id_or_error recipe_id
    edit recipe_id (λ r. record r { devices = (OrdHashMap.remove device_id r.devices).0 })
    remove_files device_id (OrdHashMap.remove device_id recipe.devices).1

  -- The loop of `delete_recipe`: a directory that is not there is no error.
  abbrev pub remove_dirs : List DeviceId → Tx (State N W) (Unit {0})
  remove_dirs [] = pure tt
  remove_dirs (device_id ∷ rest) =
      let later = remove_dirs rest in
      do result ← attempt (out.remove_device_dir device_id); directory_removed later result

  unfoldable pub delete_recipe : RecipeId → Tx (State N W) (Unit {0})
  unfolding remove_recipe_error
  delete_recipe recipe_id = do
    removed ← remove_recipe recipe_id
    remove_dirs (OrdHashMap.keys removed.devices)

  abbrev pub clone_files : List DeviceId → Tx (State N W) (Unit {0})
  clone_files [] = pure tt
  clone_files (device_id ∷ rest) =
      let later = clone_files rest in
      do
        is_dir ← attempt (λ w. (w, out.is_device_dir device_id w))
        if is_dir then call (out.clone_to_backup device_id) else pure tt
        later

  unfoldable pub copy_backup_files : List DeviceId → Tx (State N W) (Unit {0})
  copy_backup_files device_ids = do
    attempt (λ w. (out.remove_backup w, tt {0}))
    clone_files device_ids

  unfoldable pub commit_active : Tx (State N W) (Unit {0})
  unfolding copy_backup_files
  commit_active = do
    recipe ← active
    copy_backup_files (OrdHashMap.keys recipe.devices)
    commit_recipes

  abbrev pub validate_for : RecipeId → Text → DeviceContext N → Tx (State N W) (Option (Json N))
  validate_for recipe_id device_type ctx = do
    result ← attempt (out.validate device_type ctx)
    or_invalid recipe_id result

  -- The loop of `apply_params`: whether the active recipe uses a changed variable.
  abbrev pub check_usages : Variables N → RecipeId → List (Usage N) → Bool → Tx (State N W) Bool
  check_usages patched_vars active_id [] changed = pure changed
  check_usages patched_vars active_id ((recipe_id, (device_type, (device_id, params))) ∷ rest)
        changed =
      let skipped = check_usages patched_vars active_id rest true in
      let later = check_usages patched_vars active_id rest changed in
      if recipe_id == active_id then skipped else (do
        update ←
            validate_for recipe_id device_type
              (record { id = device_id; variables = patched_vars; params_with_vars = params })
        unless_migrated later update)

  abbrev pub apply_on_device : DeviceId → Json N → Variables N → Tx (State N W) (Unit {0})
  apply_on_device device_id params patched_vars = do
    device ← get_device_or_error device_id
    call (
        out.try_apply device.device_type
          (record { id = device_id; variables = patched_vars; params_with_vars = params }))

  unfoldable pub apply_params : DeviceId → Json N → Variables N → Tx (State N W) (Variables N)
  apply_params device_id params variables = do
    recipes ← get_recipes
    running ← active
    changed ←
        check_usages (patch recipes.variables variables) recipes.active_id
          (usages_of recipes variables) false
    if changed || has_device running device_id
        then apply_on_device device_id params (patch recipes.variables variables)
        else pure tt
    pure (patch recipes.variables variables)

  unfoldable pub update_device_params :
      RecipeId → DeviceId → Json N → Variables N → Bool → Tx (State N W) (Unit {0})
  unfolding apply_params
  update_device_params recipe_id device_id parameters variables committed = do
    variables' ← apply_params device_id parameters variables
    recipe ← get_with_id_or_error recipe_id
    write_recipe recipe_id (update_params committed recipe device_id parameters)
    set_variables variables'

  unfoldable pub restore_committed : RecipeId → DeviceId → Tx (State N W) (Unit {0})
  unfolding apply_params
  restore_committed recipe_id device_id = do
    recipe ← get_with_id_or_error recipe_id
    device ← find_device recipe device_id
    params ← restored_params (config_restored device).1
    edit recipe_id (write_device device_id (λ d. (config_restored d).0))
    variables ← apply_params device_id params []
    set_variables variables

  -- The loop of `check_active_files` over the running devices.
  abbrev pub compare_files : Recipe N → List DeviceId → Tx (State N W) (Unit {0})
  compare_files backup [] = pure tt
  compare_files backup (device_id ∷ rest) =
      let later = compare_files backup rest in
      do
        if has_device backup device_id then pure tt else fail other
        same ← call (λ w. (w, out.same_files device_id w))
        if same then later else fail other

  unfoldable pub check_active_files : Tx (State N W) (Unit {0})
  check_active_files = do
    recipes ← get_recipes
    running ← active
    compare_files recipes.active_backup (OrdHashMap.keys running.devices)

module _ {N W : Type 0} ⦃e : PartialEq N⦄ where
  abbrev pub switch : RecipeId → Tx (State N W) (List DeviceId)
  switch id s = elim (set_active s.recipes id) [
    | none ↦ none
    | some (rs, res) ↦ elim res [
      | ok ids ↦ pure ids (record s { recipes = rs })
      | err x ↦ fail (set_active_error x) (record s { recipes = rs })
    ]
  ]

module _ {N W : Type 0} ⦃e : PartialEq N⦄ (out : Outside N W) where
  unfoldable pub activate_recipe : RecipeId → Tx (State N W) (Unit {0})
  unfolding check_active_files copy_backup_files set_active_error
  activate_recipe id = do
    check_active_files out
    active_devices ← switch id
    copy_backup_files out active_devices
