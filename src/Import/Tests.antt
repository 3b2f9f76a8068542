-- ===== src/Import/Tests.antt =====
-- The check at a state whose active recipe has a device.
use pilatus.Base.{true, ◌+◌, ℕ, ◌≡◌, refl, ◌≢◌, [], ◌∷◌, none, some, nat_eq, list_eq}
use pilatus.Base.Text.{codes}
use pilatus.Base.Result.{ok, err}
use pilatus.Json.{number}
use pilatus.HashMap
use pilatus.OrdHashMap
use pilatus.Name.{default_id}
use pilatus.Variables
use pilatus.Recipe.{
  DeviceConfig, Recipe, active_without_id, new_with_recipe, default_recipes, default_recipe,
  iter_with_backup, try_add,
}
use pilatus.Recipe.Active.{IsValid, default_recipes-IsValid}
use pilatus.Import.Defs.{error_for_duplicate_device, check_owners, recipeid_per_deviceid}
use pilatus.Import.Merge.{
  Validate, Serde, unspecified, duplicate, replace, handle_json, add_as,
  recipes_try_add_new_with_id, validate_devices,
}
use pilatus.Import.Apply.{
  Files, Importer, World, conflicts, finalize, merge_all, apply_strategy, apply,
}
use pilatus.Import.Untouched.{Protected}
use pilatus.Import.Whole.{Imported, apply-Imported}
use pilatus.Import.Blocked.{apply_blocked}
use pilatus.Import.Added.{Present, apply-Present}

run : Unit {0}
unfolding active_without_id new_with_recipe OrdHashMap.from OrdHashMap.get HashMap.get
    HashMap.insert
run = tt

abbrev device : DeviceConfig ℕ
device = record {
  device_type = codes "camera";
  device_name = codes "top";
  params = number 4;
  committed_params = none;
}

abbrev recipe : Recipe ℕ
recipe = record { created = 0; tags = []; devices = (3, (0, device)) ∷ [] }

active : active_without_id (new_with_recipe recipe) ≡ some recipe
unfolding run
active = refl

has_device : OrdHashMap.get 3 recipe.devices ≡ some device
unfolding run
has_device = refl

in_backup : OrdHashMap.get 3 (new_with_recipe recipe).active_backup.devices ≡ some device
unfolding run
in_backup = refl

-- Devices that accept everything, and a file system on which every call succeeds.
abbrev accept : Validate ℕ (Unit {0})
accept device_type ctx w = (w, ok none)

abbrev serde : Serde ℕ
serde = record {
  to_string = λ r. [];
  from_str = λ c. none;
  replace = λ c old new. c;
  quoted = λ d. [];
  new_v4 = λ r d. d + 1;
}

abbrev files : Files ℕ ℕ
files = record {
  rename_in_tmp = λ a b f. f;
  exists_dir = λ d f. true;
  remove_dir_all = λ d f. (f, ok tt);
  clone_tmp = λ f. (f + 1, ok tt);
  close_tmp = λ f. (f, ok tt);
  drop_tmp = λ f. f + 10;
  commit = λ rs f. (f + 1, ok tt);
  root_is_safe = true;
}

abbrev empty : Recipe ℕ
empty = record { created = 0; tags = []; devices = [] }

abbrev world : World ℕ (Unit {0}) ℕ
world = record { recipes = default_recipes 0; devices = tt; files = 0 }

abbrev importer : Importer ℕ
importer = record { recipes = (codes "new", recipe) ∷ []; variables = [] }

abbrev after : World ℕ (Unit {0}) ℕ
after = record {
  recipes = record (default_recipes 0) {
    all = (default_id, (0, empty)) ∷ (codes "new", (1, recipe)) ∷ [];
  };
  devices = tt;
  files = 12;
}

imported : apply accept serde files unspecified importer world ≡ some (after, ok tt)
unfolding run apply apply_strategy merge_all handle_json add_as recipes_try_add_new_with_id
    validate_devices try_add finalize error_for_duplicate_device check_owners recipeid_per_deviceid
    iter_with_backup OrdHashMap.insert OrdHashMap.iter_unordered default_recipes default_recipe
    Variables.add
imported = refl

-- A recipe that is there is a conflict, and nothing changes.
conflict :
    apply accept serde files unspecified importer after
    ≡ some (after, err (conflicts (codes "new" ∷ []) []))
unfolding run apply apply_strategy merge_all handle_json add_as recipes_try_add_new_with_id
    validate_devices try_add OrdHashMap.insert default_recipes default_recipe Variables.add
conflict = refl

apply-Imported_example :
    Imported files
      (Protected (replace []) (default_recipes {N = ℕ} 0))
      (replace [])
      world
      (apply accept serde files (replace []) importer world)
apply-Imported_example =
    apply-Imported accept serde files (replace []) importer world (default_recipes-IsValid 0)

apply-Present_example :
    (OrdHashMap.get (codes "new") (default_recipes {N = ℕ} 0).all ≡ none)
    × Present accept (Variables.add world.recipes.variables []).0 (codes "new") recipe after.recipes
apply-Present_example =
    apply-Present accept serde files importer world after (codes "new") recipe
      (default_recipes-IsValid 0) imported found
  where
    found : HashMap.get (codes "new") importer.recipes ≡ some recipe
    found = unfold HashMap.get in refl

abbrev blocked : World ℕ (Unit {0}) ℕ
blocked = record { recipes = new_with_recipe recipe; devices = tt; files = 0 }

blocked-IsValid : IsValid blocked.recipes
unfolding new_with_recipe OrdHashMap.from HashMap.insert HashMap.get OrdHashMap.get
    active_without_id
blocked-IsValid = record { nodup = (refl, tt); active = (recipe, active) }

apply_blocked_example :
    apply accept serde files (duplicate []) (record { recipes = []; variables = [] }) blocked
    ≢ some (blocked, ok tt)
apply_blocked_example =
    apply_blocked accept serde files (duplicate []) (record { recipes = []; variables = [] })
      blocked recipe 3 device device blocked-IsValid active has_device in_backup blocked
