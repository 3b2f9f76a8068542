-- ===== src/Service/Defs/Access.antt =====
-- The transactions. Devices and files are outside the program: `Outside` has what the transactions
-- call of them, on a state of the world that they pass along.
use pilatus.Base.{
  Bool, Option, none, some, List, [], ◌∷◌, ◌++◌, if◌then◌else◌, any, ◌==◌, nat_eq, list_eq,
}
use pilatus.Base.Text.{Text}
use pilatus.Base.Result.{Result, ok, err}
use pilatus.Name.{Name, RecipeId}
use pilatus.Json.{Json}
use pilatus.HashMap
use pilatus.OrdHashMap
use pilatus.Variables.{Variables, variables_names}
use pilatus.Recipe.{
  DeviceId, DeviceConfig, NoCommitted, Recipe, UnknownDeviceError, unknown_device, TransactionError,
  unknown_recipe_id, unknown_device_error, invalid_variable, file_system_error, other, Recipes,
  SetActiveError, uncommitted_changes, unknown_recipe, RemoveRecipeError, is_active,
  unknown_removed, get_with_id, get_with_id_mut, active_without_id, get_device, iter_with_backup,
  update_recipe_id, remove as remove_from, commit_active as commit_recipe,
  with_name as config_named,
}
use pilatus.Service.Tx.{Tx, pure, fail, ◌>>=◌, ◌>>◌}

pub record DeviceContext (N : Type 0) : Type 0 where
  pub id : DeviceId
  pub variables : Variables N
  pub params_with_vars : Json N

pub data IoError : Type 0 where
  not_found other_io : IoError

-- The trait `DeviceActions`, and the file system. `validate` answers with the parameters that it
-- has migrated, if it had to.
pub record Outside (N W : Type 0) : Type 0 where
  pub validate : Text → DeviceContext N → W → W × Result TransactionError (Option (Json N))
  pub try_apply : Text → DeviceContext N → W → W × Result TransactionError (Unit {0})
  pub remove_device_dir : DeviceId → W → W × Result IoError (Unit {0})
  pub remove_backup : W → W
  pub is_device_dir : DeviceId → W → Bool
  pub clone_to_backup : DeviceId → W → W × Result TransactionError (Unit {0})
  -- whether the files of a device are those of its backup
  pub same_files : DeviceId → W → Result TransactionError Bool

pub record State (N W : Type 0) : Type 0 where
  pub recipes : Recipes N
  pub world : W

abbrev pub Usage : Type 0 → Type 0
Usage N = RecipeId × (Text × (DeviceId × Json N))

unfoldable pub set_active_error : SetActiveError → TransactionError
set_active_error uncommitted_changes = other
set_active_error (unknown_recipe id) = unknown_recipe_id id

unfoldable pub remove_recipe_error : RemoveRecipeError → TransactionError
remove_recipe_error is_active = other
remove_recipe_error (unknown_removed id) = unknown_recipe_id id

module _ {N : Type 0} where
  -- `find_variable_usage_in_all_recipes`
  abbrev pub device_usage :
      Variables N → RecipeId → List (DeviceId × DeviceConfig N) → List (Usage N)
  device_usage vars id [] = []
  device_usage vars id ((device_id, device) ∷ rest) =
      if any (λ v. HashMap.contains_key v vars) (variables_names device.params)
      then (id, (device.device_type, (device_id, device.params))) ∷ device_usage vars id rest
      else device_usage vars id rest

  abbrev pub usages_in : Variables N → List (RecipeId × Recipe N) → List (Usage N)
  usages_in vars [] = []
  usages_in vars ((id, recipe) ∷ rest) =
      device_usage vars id (OrdHashMap.iter_unordered recipe.devices) ++ usages_in vars rest

  unfoldable pub find_variable_usage_in_all_recipes : Recipes N → Variables N → List (Usage N)
  find_variable_usage_in_all_recipes rs vars = usages_in vars (iter_with_backup rs)

  abbrev pub usages_of : Recipes N → Variables N → List (Usage N)
  usages_of rs [] = []
  usages_of rs (v ∷ vars) = find_variable_usage_in_all_recipes rs (v ∷ vars)

  abbrev pub write_device : DeviceId → (DeviceConfig N → DeviceConfig N) → Recipe N → Recipe N
  write_device id f r = record r { devices = OrdHashMap.get_mut id f r.devices }

module _ {N W : Type 0} where
  abbrev pub get_with_id_or_error : RecipeId → Tx (State N W) (Recipe N)
  get_with_id_or_error id s = elim (get_with_id s.recipes id) [
    | none ↦ fail (unknown_recipe_id id) s
    | some r ↦ pure r s
  ]

  abbrev pub get_device_or_error : DeviceId → Tx (State N W) (DeviceConfig N)
  get_device_or_error id s = elim (get_device s.recipes id) [
    | none ↦ fail (unknown_device_error id) s
    | some d ↦ pure d s
  ]

  abbrev pub find_device : Recipe N → DeviceId → Tx (State N W) (DeviceConfig N)
  find_device r id = elim (OrdHashMap.get id r.devices) [
    | none ↦ fail (unknown_device_error id)
    | some d ↦ pure d
  ]

  -- A write through the reference to a recipe.
  abbrev pub edit : RecipeId → (Recipe N → Recipe N) → Tx (State N W) (Unit {0})
  edit id f s = pure tt (record s { recipes = get_with_id_mut s.recipes id f })

  abbrev pub get_recipes : Tx (State N W) (Recipes N)
  get_recipes s = pure s.recipes s

  abbrev pub set_variables : Variables N → Tx (State N W) (Unit {0})
  set_variables vars s = pure tt (record s { recipes = record s.recipes { variables = vars } })

  -- `active()`, which panics without an active recipe.
  abbrev pub active : Tx (State N W) (Recipe N)
  active s = elim (active_without_id s.recipes) [ none ↦ none | some r ↦ pure r s ]

  -- A call of the outside that may fail, and one whose failure the caller looks at.
  abbrev pub call : {A : Type 0} → (W → W × Result TransactionError A) → Tx (State N W) A
  call f s = some (record s { world = (f s.world).0 }, (f s.world).1)

  abbrev pub attempt : {A : Type 0} → (W → W × A) → Tx (State N W) A
  attempt f s = pure (f s.world).1 (record s { world = (f s.world).0 })

  abbrev pub rename : RecipeId → RecipeId → Tx (State N W) (Unit {0})
  rename id new_id s =
      let renamed = update_recipe_id s.recipes id new_id in
      some (record s { recipes = renamed.0 }, renamed.1)

  unfoldable pub update_recipe_metadata :
      RecipeId → RecipeId → List Name → Tx (State N W) (Unit {0})
  update_recipe_metadata id new_id tags = do
    if id == new_id then pure tt else rename id new_id
    recipe ← get_with_id_or_error new_id
    edit new_id (λ r. record r { tags = tags })

  abbrev pub remove_recipe : RecipeId → Tx (State N W) (Recipe N)
  remove_recipe id s = elim (remove_from s.recipes id) [
    | none ↦ none
    | some (rs, res) ↦ elim res [
      | ok r ↦ pure r (record s { recipes = rs })
      | err x ↦ fail (remove_recipe_error x) (record s { recipes = rs })
    ]
  ]

  abbrev pub commit_recipes : Tx (State N W) (Unit {0})
  commit_recipes s = elim (commit_recipe s.recipes) [
    | none ↦ none
    | some rs ↦ pure tt (record s { recipes = rs })
  ]

  abbrev pub write_recipe :
      RecipeId → Result UnknownDeviceError (Recipe N) → Tx (State N W) (Unit {0})
  write_recipe recipe_id (err (unknown_device id)) = fail (unknown_device_error id)
  write_recipe recipe_id (ok r) = edit recipe_id (λ old. r)

  abbrev pub restored_params : Result NoCommitted (Json N) → Tx (State N W) (Json N)
  restored_params (err x) = fail other
  restored_params (ok params) = pure params

  unfoldable pub update_device_name : RecipeId → DeviceId → Name → Tx (State N W) (Unit {0})
  update_device_name recipe_id device_id name = do
    recipe ← get_with_id_or_error recipe_id
    device ← find_device recipe device_id
    edit recipe_id (write_device device_id (λ d. config_named d name))

  -- The arms of the loops below.
  abbrev pub directory_removed :
      Tx (State N W) (Unit {0}) → Result IoError (Unit {0}) → Tx (State N W) (Unit {0})
  directory_removed later (ok u) = later
  directory_removed later (err not_found) = later
  directory_removed later (err other_io) = fail file_system_error

  abbrev pub or_invalid :
      RecipeId → Result TransactionError (Option (Json N)) → Tx (State N W) (Option (Json N))
  or_invalid recipe_id (ok update) = pure update
  or_invalid recipe_id (err x) = fail (invalid_variable recipe_id)

  abbrev pub unless_migrated : Tx (State N W) Bool → Option (Json N) → Tx (State N W) Bool
  unless_migrated later none = later
  unless_migrated later (some p) = fail other
