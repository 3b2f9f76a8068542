-- ===== src/Runner/Defs.antt =====
-- The state of the runner and what it does in each phase. The devices and the file to which recipes are
-- written are outside; a panic is none.
use pilatus.Base.{
  Bool, true, false, Option, none, some, List, [], ◌∷◌, ◌++◌, PartialEq, nat_eq, list_eq,
}
use pilatus.Base.Text.{Text}
use pilatus.Base.Result.{Result, ok, err}
use pilatus.Name.{RecipeId}
use pilatus.Json.{Json}
use pilatus.OrdHashMap
use pilatus.Variables.{Variables}
use pilatus.Recipe.{DeviceId, DeviceConfig, Recipe, Recipes, TransactionError, active_without_id}
use pilatus.Handler.{StartDeviceError, DeviceSpawnerService, spawn}
use pilatus.Service.Tx.{Tx, ◌>>◌}
use pilatus.Service.{DeviceContext, Outside, State, call, activate_recipe, update_device_params}

-- `spawn` of the service with the handlers, with the parameters that a device has migrated, and the rest of
-- `commit`, which writes the recipes.
pub record Spawner (N W : Type 0) : Type 0 where
  pub spawn : Text → DeviceContext N → W → W × Result StartDeviceError (Option (Json N))
  pub store : Recipes N → W → W × Result TransactionError (Unit {0})

-- The handlers as a spawner.
abbrev pub device_spawner :
    {N W : Type 0}
    → DeviceSpawnerService N W
    → (Recipes N → W → W × Result TransactionError (Unit {0}))
    → Spawner N W
device_spawner service store = record { spawn = spawn service; store = store }

-- `executing`: the devices still to be spawned, and those that run. `idle`: waiting for the next id.
pub data Phase (N : Type 0) : Type 0 where
  starting idle stopped : Phase N
  executing :
      (recipe_id : RecipeId) (variables : Variables N) (todo : List (DeviceId × DeviceConfig N))
      (alive : List DeviceId)
      → Phase N

-- `slot`: whether a sender stands in `next_recipe_id`. `job`: what was sent with it. `answers`: what
-- the selections were answered, the last one first.
pub record Runner (N W : Type 0) : Type 0 where
  pub service : State N W
  pub phase : Phase N
  pub slot : Bool
  pub job : Option RecipeId
  pub answers : List (RecipeId × Result TransactionError (Unit {0}))

module _ {N W : Type 0} where
  abbrev pub launched :
      Runner N W
      → RecipeId
      → Variables N
      → List (DeviceId × DeviceConfig N)
      → List DeviceId
      → Option (State N W)
      → Option (Runner N W)
  launched s recipe_id variables todo alive none = none
  launched s recipe_id variables todo alive (some t) =
      some (record s { service = t; phase = executing recipe_id variables todo alive })

  -- The start of a round: the devices are read, and a new sender is put into the slot.
  abbrev pub opened : Runner N W → Option (Recipe N) → Option (Runner N W)
  opened s none = none
  opened s (some r) = some (record s {
    slot = true;
    job = none;
    phase =
        executing s.service.recipes.active_id s.service.recipes.variables
          (OrdHashMap.iter_unordered r.devices) [];
  })

  unfoldable pub begin : Runner N W → Option (Runner N W)
  begin s = opened s (active_without_id s.service.recipes)

  abbrev pub answered :
      Runner N W
      → RecipeId
      → Option (State N W × Result TransactionError (Unit {0}))
      → Option (Runner N W)
  answered s id none = none
  answered s id (some (t, result)) =
      some
        (record s { service = t; job = none; phase = starting; answers = (id, result) ∷ s.answers })

module _ {N W : Type 0} ⦃e : PartialEq N⦄ (out : Outside N W) (spawner : Spawner N W) where
  abbrev pub store : Tx (State N W) (Unit {0})
  store s = call (spawner.store s.recipes) s

  unfoldable pub activate_recipe_with : RecipeId → Tx (State N W) (Unit {0})
  activate_recipe_with id = activate_recipe out id >> store

  unfoldable pub update_device_params_with :
      RecipeId → DeviceId → Json N → Tx (State N W) (Unit {0})
  update_device_params_with recipe_id device_id parameters =
      update_device_params out recipe_id device_id parameters [] true >> store

  -- `RecipeServiceParamApplier::apply`: an error is logged.
  abbrev pub applied_changes :
      RecipeId → DeviceId → Option (Json N) → State N W → Option (State N W)
  applied_changes recipe_id device_id none s = some s
  applied_changes recipe_id device_id (some parameters) s =
      elim (update_device_params_with recipe_id device_id parameters s) [
        | none ↦ none
        | some (t, result) ↦ some t
      ]

  -- The first loop of `run_devices`, for one device.
  abbrev pub spawned :
      Runner N W
      → RecipeId
      → Variables N
      → DeviceId
      → List (DeviceId × DeviceConfig N)
      → List DeviceId
      → W × Result StartDeviceError (Option (Json N))
      → Option (Runner N W)
  spawned s recipe_id variables id todo alive (w, err x) =
      launched s recipe_id variables todo alive (some (record s.service { world = w }))
  spawned s recipe_id variables id todo alive (w, ok changes) =
      launched s recipe_id variables todo (alive ++ id ∷ [])
        (applied_changes recipe_id id changes (record s.service { world = w }))

  unfoldable pub launch :
      Runner N W
      → RecipeId
      → Variables N
      → DeviceId
      → DeviceConfig N
      → List (DeviceId × DeviceConfig N)
      → List DeviceId
      → Option (Runner N W)
  launch s recipe_id variables id device todo alive = spawned s recipe_id variables id todo alive (
      spawner.spawn device.device_type
        (record { id = id; variables = variables; params_with_vars = device.params })
        s.service.world)

  -- The end of a round with a job: the recipe is activated, and the selection answered.
  unfoldable pub next_round : Runner N W → RecipeId → Option (Runner N W)
  next_round s id = answered s id (activate_recipe_with id s.service)

module _ {N W : Type 0} where
  -- `select_recipe`: whether the selection was accepted.
  unfoldable pub select_recipe : RecipeId → Runner N W → Runner N W × Bool
  select_recipe id s = elim s.slot [
    | true ↦ (record s { slot = false; job = some id }, true)
    | false ↦ (s, false)
  ]

  -- `set_next(None)`, when the system shuts down. A sender that is dropped there is not used.
  unfoldable pub shut_down : Runner N W → Runner N W
  shut_down s = record s { slot = false }
