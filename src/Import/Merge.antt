-- ===== src/Import/Merge.antt =====
-- The merge strategies, and `recipes_try_add_new_with_id`. The devices that validate parameters are
-- outside, and so are serde_json, `str::replace` and the ids that `new_v4` draws (`Serde`).
use pilatus.Base.{
  Bool, true, false, Option, none, some, List, [], ◌∷◌, ◌++◌, if◌then◌else◌, nat_eq, list_eq,
}
use pilatus.Base.Text.{Text}
use pilatus.Base.Result.{Result, ok, err}
use pilatus.Name.{RecipeId}
use pilatus.Json.{Json}
use pilatus.HashMap
use pilatus.HashMap.{HashMap, map_option}
use pilatus.OrdHashMap
use pilatus.OrdHashMap.{OrdHashMap}
use pilatus.Variables.{Variables}
use pilatus.Recipe.{
  DeviceId, DeviceConfig, Recipe, Recipes, RemoveRecipeError, TransactionError, has_recipe,
  get_unique_id, try_add, remove as remove_from,
}
use pilatus.Service.{DeviceContext}

-- `DeviceActions::validate`: the parameters that a device has migrated, if it had to.
abbrev pub Validate : Type 0 → Type 0 → Type 0
Validate N D = Text → DeviceContext N → D → D × Result TransactionError (Option (Json N))

pub record Serde (N : Type 0) : Type 0 where
  pub to_string : Recipe N → Text
  pub from_str : Text → Option (Recipe N)
  pub replace : (config old new : Text) → Text
  pub quoted : DeviceId → Text
  -- drawn for the copy of a device in the copy of a recipe
  pub new_v4 : RecipeId → DeviceId → DeviceId

pub data MergeStrategy : Type 0 where
  unspecified : MergeStrategy
  duplicate : (device_id_map : HashMap DeviceId DeviceId) → MergeStrategy
  replace : (delete_devices : List DeviceId) → MergeStrategy

-- The state of an import: the devices, the strategy, and the copy of the recipes.
pub record Merging (N D : Type 0) : Type 0 where
  pub devices : D
  pub strategy : MergeStrategy
  pub recipes_copy : Recipes N

pub data AlreadyExists : Type 0 where
  already_exists : RecipeId → AlreadyExists

module _ {N : Type 0} (serde : Serde N) where
  abbrev pub mappings_of : RecipeId → List DeviceId → HashMap DeviceId DeviceId
  mappings_of id [] = []
  mappings_of id (d ∷ rest) = (d, serde.new_v4 id d) ∷ mappings_of id rest

  abbrev pub replace_ids : HashMap DeviceId DeviceId → Text → Text
  replace_ids [] config = config
  replace_ids ((old_id, new_id) ∷ rest) config =
      replace_ids rest (serde.replace config (serde.quoted old_id) (serde.quoted new_id))

  -- `Recipe::duplicate`; none where the text is no recipe any more.
  unfoldable pub duplicate_recipe :
      RecipeId → Recipe N → Option (HashMap DeviceId DeviceId × Recipe N)
  duplicate_recipe id recipe =
      let mappings = mappings_of id (OrdHashMap.keys recipe.devices) in
      elim (serde.from_str (replace_ids mappings (serde.to_string recipe))) [
        | none ↦ none
        | some r ↦ some (mappings, r)
      ]

  -- `Recipes::build_duplicate`
  unfoldable pub build_duplicate :
      Recipes N → RecipeId → Recipe N → Option (RecipeId × (HashMap DeviceId DeviceId × Recipe N))
  build_duplicate rs old_id recipe = elim (get_unique_id rs old_id) [
    | none ↦ none
    | some id ↦ elim (duplicate_recipe old_id recipe) [ none ↦ none | some d ↦ some (id, d) ]
  ]

-- `InfallibleParamApplier::apply` on a device.
abbrev pub applied : {N : Type 0} → DeviceConfig N → Option (Json N) → DeviceConfig N
applied device none = device
applied device (some p) = record device { params = p }

module _ {N D : Type 0} where
  abbrev pub merged :
      Merging N D
      → RecipeId
      → Option (D × (Recipes N × Result (Recipe N) (Unit {0})))
      → Option (Merging N D × Result AlreadyExists (Unit {0}))
  merged s id none = none
  merged s id (some (w, (rs, ok u))) = some (record s { devices = w; recipes_copy = rs }, ok tt)
  merged s id (some (w, (rs, err r))) =
      some (record s { devices = w; recipes_copy = rs }, err (already_exists id))

  -- `Replace`: the old recipe is taken out, and its devices are noted.
  abbrev pub taken_out :
      Merging N D
      → List DeviceId
      → RecipeId
      → Option (Recipes N × Result RemoveRecipeError (Recipe N))
      → Option (Merging N D)
  taken_out s ds id none = none
  taken_out s ds id (some (rs, err x)) = some (record s { recipes_copy = rs })
  taken_out s ds id (some (rs, ok old)) =
      some (record s { recipes_copy = rs; strategy = replace (ds ++ OrdHashMap.keys old.devices) })

module _ {N D : Type 0} (validate : Validate N D) where
  -- The devices with the changes applied, up to the first that is not valid.
  unfoldable pub validate_devices :
      Variables N
      → OrdHashMap DeviceId (DeviceConfig N)
      → D
      → D × (OrdHashMap DeviceId (DeviceConfig N) × Bool)
  validate_devices vars [] w = (w, ([], true))
  validate_devices vars ((id, (i, device)) ∷ rest) w =
      let later = validate_devices vars rest in
      let (w', result) =
        validate device.device_type
          (record { id = id; variables = vars; params_with_vars = device.params }) w in
      elim result [
        | err e ↦ (w', ((id, (i, device)) ∷ rest, false))
        | ok update ↦
            let (w'', (devices, valid)) = later w' in
            (w'', ((id, (i, applied device update)) ∷ devices, valid))
      ]

  -- A recipe that is not added comes back.
  unfoldable pub recipes_try_add_new_with_id :
      Recipes N → RecipeId → Recipe N → D → Option (D × (Recipes N × Result (Recipe N) (Unit {0})))
  recipes_try_add_new_with_id rs id new_recipe w =
      let (w', (devices, valid)) = validate_devices rs.variables new_recipe.devices w in
      let checked = record new_recipe { devices = devices } in
      if valid
      then map_option (λ added. (w', added)) (try_add rs id checked)
      else some (w', (rs, err checked))

  unfoldable pub add_as :
      Merging N D → RecipeId → Recipe N → Option (Merging N D × Result AlreadyExists (Unit {0}))
  add_as s id recipe = merged s id (recipes_try_add_new_with_id s.recipes_copy id recipe s.devices)

  abbrev pub then_add :
      RecipeId
      → Recipe N
      → Option (Merging N D)
      → Option (Merging N D × Result AlreadyExists (Unit {0}))
  then_add id recipe none = none
  then_add id recipe (some s) = add_as s id recipe

  -- `Duplicate`: under a taken id a copy is added, under a free id.
  abbrev pub duplicated :
      Merging N D
      → HashMap DeviceId DeviceId
      → Option (RecipeId × (HashMap DeviceId DeviceId × Recipe N))
      → Option (Merging N D × Result AlreadyExists (Unit {0}))
  duplicated s m none = none
  duplicated s m (some (id, (mappings, copy))) =
      add_as (record s { strategy = duplicate (HashMap.extend mappings m) }) id copy

  abbrev pub merge_with :
      Serde N
      → MergeStrategy
      → Merging N D
      → RecipeId
      → Recipe N
      → Option (Merging N D × Result AlreadyExists (Unit {0}))
  merge_with serde unspecified s id recipe = add_as s id recipe
  merge_with serde (replace ds) s id recipe =
      then_add id recipe (taken_out s ds id (remove_from s.recipes_copy id))
  merge_with serde (duplicate m) s id recipe =
      if has_recipe s.recipes_copy id
      then duplicated s m (build_duplicate serde s.recipes_copy id recipe)
      else add_as s id recipe

  -- `handle_json` of the strategy.
  unfoldable pub handle_json :
      Serde N
      → Merging N D
      → RecipeId
      → Recipe N
      → Option (Merging N D × Result AlreadyExists (Unit {0}))
  handle_json serde s = merge_with serde s.strategy s
