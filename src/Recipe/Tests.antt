-- ===== src/Recipe/Tests.antt =====
-- Runs on a state of two recipes, and the theorems at it.
use pilatus.Base.{
  ℕ, ◌≡◌, refl, ◌↔◌, ◌⊎◌, true, false, none, some, [], ◌∷◌, arith, map, nat_eq, list_eq,
  if◌then◌else◌, ◌==◌, length, ◌+◌,
}
use pilatus.Base.Sort.{sort_by_key, insert_sorted}
use pilatus.Base.Text.{codes}
use pilatus.Base.Result.{ok, err}
use pilatus.Name.{RecipeId, default_id, base, rsplit_once}
use pilatus.Json.{number, json_beq}
use pilatus.HashMap
use pilatus.HashMap.{map_option}
use pilatus.OrdHashMap
use pilatus.OrdHashMap.{OrdHashMap}
use pilatus.Recipe.Config.{
  DeviceConfig, config_eq, update_params_committed, update_params_uncommitted, restore_committed,
}
use pilatus.Recipe.Defs.{
  Recipe, add_device_with_id, update_device_params, count_devices, default_recipe,
}
use pilatus.Recipe.Collection.{
  Recipes, uncommitted_changes, unknown_recipe, is_active, default_recipes, active_without_id,
  get_with_id, commit_active, set_active, remove, has_active_changes, update_recipe_id, try_add,
  get_unique_id, has_recipe,
}
use pilatus.Recipe.Restore.{updates}
use pilatus.Recipe.Changes.{has_active_changes_iff, set_active_lem}
use pilatus.Recipe.Unique.{HasRoom, get_unique_id_lem}
use pilatus.Recipe.Active.{IsValid}
use pilatus.Recipe.Steps.{Reach, here, next, rename, reachable-active, renamed_lem}

run : Unit {0}
unfolding json_beq OrdHashMap.iter_unordered OrdHashMap.get OrdHashMap.insert OrdHashMap.remove
    OrdHashMap.get_mut HashMap.get HashMap.insert HashMap.remove HashMap.modify commit_active
    active_without_id get_with_id has_active_changes set_active remove update_recipe_id try_add
    default_recipes default_recipe OrdHashMap.from OrdHashMap.iter_ordered sort_by_key insert_sorted
    count_devices updates update_params_committed update_params_uncommitted restore_committed
    update_device_params add_device_with_id
run = tt

abbrev camera : DeviceConfig ℕ
camera = record {
  device_type = codes "camera";
  device_name = codes "top";
  params = number 4;
  committed_params = none;
}

abbrev one_device : Recipe ℕ
one_device = record { created = 0; tags = []; devices = (3, (0, camera)) ∷ [] }

abbrev empty : Recipe ℕ
empty = record { created = 1; tags = []; devices = [] }

abbrev id_a : RecipeId
id_a = codes "a"

abbrev id_b : RecipeId
id_b = codes "b"

abbrev id_c : RecipeId
id_c = codes "c"

abbrev two : Recipes ℕ
two = record {
  active_id = id_a;
  active_backup = one_device;
  all = (id_a, (0, one_device)) ∷ (id_b, (1, empty)) ∷ [];
  variables = [];
}

two_active : active_without_id two ≡ some one_device
unfolding run
two_active = refl

two-IsValid : IsValid two
unfolding run
two-IsValid = record { nodup = (refl, (refl, tt)); active = (one_device, refl) }

two_activated :
    set_active two id_b ≡ some (record two { active_id = id_b; active_backup = empty }, ok [])
unfolding run
two_activated = refl

two_removed : remove two id_a ≡ some (two, err is_active)
unfolding run
two_removed = refl

reach : (t : Recipes ℕ) × Reach (default_recipes 5) t
reach =
    let first = (update_recipe_id (default_recipes 5) default_id id_a).0 in
    (first, next here (rename (default_recipes 5) default_id id_a))

reachable-active_example : IsValid reach.0 × ((r : Recipe ℕ) × (active_without_id reach.0 ≡ some r))
reachable-active_example = reachable-active 5 reach.1

set_active_lem_example :
    ((get_with_id two id_b ≡ none) × (set_active two id_b ≡ some (two, err (unknown_recipe id_b))))
    ⊎ ((has_active_changes two ≡ some true)
        × (set_active two id_b ≡ some (two, err uncommitted_changes)))
    ⊎ ((recipe : Recipe ℕ) × (get_with_id two id_b ≡ some recipe)
        × (has_active_changes two ≡ some false)
        × (set_active two id_b
            ≡ some (
              record two { active_id = id_b; active_backup = recipe },
              ok (map (λ x. x.0) (OrdHashMap.iter_unordered recipe.devices)),
            ))
        × (has_active_changes (record two { active_id = id_b; active_backup = recipe })
            ≡ some false))
set_active_lem_example = set_active_lem two id_b one_device two_active

has_active_changes_iff_example : (has_active_changes two ≡ some false) ↔ (
    OrdHashMap.iter_ordered one_device.devices ≡ OrdHashMap.iter_ordered two.active_backup.devices)
has_active_changes_iff_example = has_active_changes_iff two one_device two_active

two_committed : commit_active two ≡ some two
unfolding run
two_committed = refl

room_b : HasRoom (base id_b).0 (length two.all + 2)
unfolding run base rsplit_once
room_b = omega arith

get_unique_id_lem_example :
    (x : RecipeId) × (get_unique_id two id_b ≡ some x) × (has_recipe two x ≡ false)
get_unique_id_lem_example = get_unique_id_lem two id_b room_b

b_present : get_with_id two id_b ≡ some empty
unfolding run
b_present = refl

c_free : get_with_id two id_c ≡ none
unfolding run
c_free = refl

renamed_lem_example :
    ((j : RecipeId)
      → get_with_id (update_recipe_id two id_b id_c).0 j
        ≡ (if id_c == j then some empty else if id_b == j then none else get_with_id two j))
    × (active_without_id (update_recipe_id two id_b id_c).0 ≡ some one_device)
    × (has_active_changes (update_recipe_id two id_b id_c).0 ≡ has_active_changes two)
renamed_lem_example = renamed_lem two id_b id_c empty one_device b_present c_free two_active
