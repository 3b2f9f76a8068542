-- ===== src/Runner/Tests.antt =====
-- A runner with one device, which runs until it is asked to stop.
use pilatus.Base.{ℕ, ◌≢◌, refl, [], ◌∷◌, true, false, none, some, nat_eq, list_eq}
use pilatus.Base.Text.{codes}
use pilatus.Base.Result.{ok, err}
use pilatus.Name.{default_id}
use pilatus.Json.{number}
use pilatus.HashMap
use pilatus.OrdHashMap
use pilatus.Recipe.{DeviceConfig, Recipe, active_without_id}
use pilatus.Recipe.Active.{IsValid}
use pilatus.Service.{Outside}
use pilatus.Handler.{unknown_device_type}
use pilatus.Runner.Defs.{
  Spawner, starting, stopped, executing, Runner, select_recipe, shut_down, begin,
}
use pilatus.Runner.Steps.{Own, begins, ends, own, here, next}
use pilatus.Runner.Progress.{IsSound}
use pilatus.Runner.Rounds.{Eventually}
use pilatus.Runner.Ends.{HasStopped, shut_down-HasStopped}
use pilatus.Runner.Shutdown.{shut_down-select_recipe-lost}

run : Unit {0}
unfolding select_recipe shut_down begin active_without_id HashMap.get OrdHashMap.get
    OrdHashMap.iter_unordered
run = tt

abbrev outside : Outside ℕ (Unit {0})
outside = record {
  validate = λ device_type ctx w. (w, ok none);
  try_apply = λ device_type ctx w. (w, ok tt);
  remove_device_dir = λ id w. (w, ok tt);
  remove_backup = λ w. w;
  is_device_dir = λ id w. true;
  clone_to_backup = λ id w. (w, ok tt);
  same_files = λ id w. ok true;
}

abbrev spawner : Spawner ℕ (Unit {0})
spawner = record {
  spawn = λ device_type ctx w. (w, err unknown_device_type);
  store = λ recipes w. (w, ok tt);
}

abbrev camera : DeviceConfig ℕ
camera = record {
  device_type = codes "camera";
  device_name = codes "top";
  params = number 8;
  committed_params = some (number 4);
}

abbrev recipe : Recipe ℕ
recipe = record { created = 0; tags = []; devices = (3, (0, camera)) ∷ [] }

abbrev runner : Runner ℕ (Unit {0})
runner = record {
  service = record {
    recipes = record {
      active_id = default_id;
      active_backup = recipe;
      all = (default_id, (0, recipe)) ∷ [];
      variables = [];
    };
    world = tt;
  };
  phase = starting;
  slot = false;
  job = none;
  answers = [];
}

abbrev with_device : Runner ℕ (Unit {0})
with_device = record runner { phase = executing default_id [] [] (3 ∷ []); slot = true }

runner-IsValid : IsValid runner.service.recipes
unfolding run
runner-IsValid = record { nodup = (refl, tt); active = (recipe, refl) }

runner-IsSound : IsSound runner
runner-IsSound = record { valid = runner-IsValid; sound = (refl, refl) }

with_device-IsSound : IsSound with_device
with_device-IsSound = record { valid = runner-IsValid; sound = λ q. refl }

abbrev begun : Runner ℕ (Unit {0})
begun = record runner { phase = executing default_id [] ((3, camera) ∷ []) []; slot = true }

runner-begun : Own outside spawner runner begun
unfolding run
runner-begun = begins refl refl

shut_down-HasStopped_example : Eventually outside spawner HasStopped (shut_down begun)
shut_down-HasStopped_example =
    shut_down-HasStopped outside spawner runner begun runner-IsSound (next here (own runner-begun))
      refl

abbrev turned : Runner ℕ (Unit {0})
turned = record with_device { slot = false; job = some default_id }

shut_down-select_recipe-lost_example :
    (record turned { phase = executing default_id [] [] [] }).phase ≢ stopped
unfolding run
shut_down-select_recipe-lost_example =
    shut_down-select_recipe-lost outside spawner with_device
      (record turned { phase = executing default_id [] [] [] }) default_id with_device-IsSound refl
      (next here (ends turned default_id [] [] [] 3 refl))
