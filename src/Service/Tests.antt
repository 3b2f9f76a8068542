-- ===== src/Service/Tests.antt =====
-- The theorems on a state with one device, where the outside accepts or refuses everything.
use pilatus.Base.{ℕ, ◌≡◌, refl, [], ◌∷◌, true, none, some, nat_eq, list_eq}
use pilatus.Base.Text.{codes}
use pilatus.Base.Result.{Result, ok, err}
use pilatus.Name.{default_id}
use pilatus.Json.{number}
use pilatus.HashMap
use pilatus.OrdHashMap
use pilatus.Variables.{patch}
use pilatus.Recipe.{
  DeviceConfig, restore_committed as config_restored, Recipe, TransactionError, other, get_with_id,
  get_with_id_mut, active_without_id, get_device, has_device,
}
use pilatus.Recipe.Active.{IsValid}
use pilatus.Service.Tx.{Post}
use pilatus.Service.Defs.{Outside, State, apply_params, restore_committed, update_device_params}
use pilatus.Service.Serve.{serve, committing, activating, restoring, serve-IsValid}
use pilatus.Service.Atomic.{
  Written, restored_in, update_device_params_atomic, restore_committed_not_atomic,
}

run : Unit {0}
unfolding get_with_id get_with_id_mut active_without_id get_device has_device config_restored
    apply_params OrdHashMap.get OrdHashMap.get_mut OrdHashMap.contains_key OrdHashMap.values
    HashMap.get HashMap.modify patch HashMap.extend
run = tt

abbrev accepting : Outside ℕ (Unit {0})
accepting = record {
  validate = λ device_type ctx w. (w, ok none);
  try_apply = λ device_type ctx w. (w, ok tt);
  remove_device_dir = λ id w. (w, ok tt);
  remove_backup = λ w. w;
  is_device_dir = λ id w. true;
  clone_to_backup = λ id w. (w, ok tt);
  same_files = λ id w. ok true;
}

abbrev refusing : Outside ℕ (Unit {0})
refusing = record {
  validate = λ device_type ctx w. (w, err other);
  try_apply = λ device_type ctx w. (w, err other);
  remove_device_dir = λ id w. (w, ok tt);
  remove_backup = λ w. w;
  is_device_dir = λ id w. true;
  clone_to_backup = λ id w. (w, ok tt);
  same_files = λ id w. ok true;
}

-- Its parameters are 8, and 4 is committed.
abbrev edited : DeviceConfig ℕ
edited = record {
  device_type = codes "camera";
  device_name = codes "top";
  params = number 8;
  committed_params = some (number 4);
}

abbrev recipe : Recipe ℕ
recipe = record { created = 0; tags = []; devices = (3, (0, edited)) ∷ [] }

abbrev state : State ℕ (Unit {0})
state = record {
  recipes = record {
    active_id = default_id;
    active_backup = recipe;
    all = (default_id, (0, recipe)) ∷ [];
    variables = [];
  };
  world = tt;
}

state-IsValid : IsValid state.recipes
unfolding run
state-IsValid = record { nodup = (refl, tt); active = (recipe, refl) }

serve-IsValid_example :
    (t : State ℕ (Unit {0})) × (serve accepting
        (restoring default_id 3 ∷ committing ∷ activating default_id ∷ [])
        state
      ≡ some t)
    × IsValid t.recipes
serve-IsValid_example =
    serve-IsValid accepting (restoring default_id 3 ∷ committing ∷ activating default_id ∷ []) state
      state-IsValid

update_device_params_atomic_example :
    (t : State ℕ (Unit {0})) × (res : Result TransactionError (Unit {0})) × (update_device_params
        accepting default_id 3
        (number 5)
        []
        true
        state
      ≡ some (t, res))
    × Post
        (λ u a.
          Written true default_id 3
            (number 5)
            (patch state.recipes.variables [])
            state.recipes
            u.recipes)
        (λ u. u.recipes ≡ state.recipes)
        t
        res
update_device_params_atomic_example =
    update_device_params_atomic accepting default_id 3 (number 5) [] true state state-IsValid

abbrev restored : State ℕ (Unit {0})
restored = record state { recipes = restored_in state.recipes default_id 3 }

found : get_with_id state.recipes default_id ≡ some recipe
unfolding run
found = refl

there : OrdHashMap.get 3 recipe.devices ≡ some edited
unfolding run
there = refl

committed : (config_restored edited).1 ≡ ok (number 4)
unfolding run
committed = refl

refused : apply_params refusing 3 (number 4) [] restored ≡ some (restored, err other)
unfolding run
refused = refl

restore_committed_not_atomic_example :
    (restore_committed refusing default_id 3 state ≡ some (restored, err other))
    × (restored.recipes ≡ restored_in state.recipes default_id 3)
restore_committed_not_atomic_example =
    restore_committed_not_atomic refusing default_id 3 state restored recipe edited (number 4) other
      state-IsValid found there committed refused
