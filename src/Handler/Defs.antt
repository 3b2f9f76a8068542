-- ===== src/Handler/Defs.antt =====
-- A handler for one type of devices, with the code of the device as parameters, and the service that
-- finds the handler of a type.
use pilatus.Base.{Bool, true, false, Option, none, some, List, [], ◌∷◌, nat_eq, list_eq}
use pilatus.Base.Text.{Text}
use pilatus.Base.Result.{Result, ok, err}
use pilatus.Json.{Json}
use pilatus.HashMap
use pilatus.HashMap.{HashMap}
use pilatus.Recipe.{
  DeviceId, TransactionError, unknown_device_error, invalid_device_config, other as other_error,
}
use pilatus.Actor.{ActorError, unknown_device_id, unknown_device}
use pilatus.Service.{DeviceContext, Outside}

pub data UpdateParamsMessageError : Type 0 where
  invalid_field : (path message : Text) → UpdateParamsMessageError
  invalid_format validation_error not_applied : UpdateParamsMessageError
  file_error variable_error : Text → UpdateParamsMessageError

pub data SpawnError : Type 0 where
  spawn_io : SpawnError
  spawn_validation : UpdateParamsMessageError → SpawnError

pub data StartDeviceError : Type 0 where
  start_io unknown_device_type : StartDeviceError
  start_validation : UpdateParamsMessageError → StartDeviceError

pub data UpdateDeviceError : Type 0 where
  validate_error : UpdateParamsMessageError → UpdateDeviceError
  update_unknown_device : DeviceId → UpdateDeviceError
  update_other : UpdateDeviceError

-- Data with a migration of the parameters.
pub record WithInfallibleParamUpdate (A N : Type 0) : Type 0 where
  pub data_of : A
  pub update : Option (Json N)

-- `validator` is told whether it may repair, and `handler` is the device, whose task is started. `ask`
-- is that of the actor system, for the message that updates parameters of the type `P`.
pub record DepDeviceHandler (P N W : Type 0) : Type 0 where
  pub device_type : Text
  pub validator :
      Bool
      → DeviceContext N
      → W
      → W × Result UpdateParamsMessageError (WithInfallibleParamUpdate P N)
  pub handler : DeviceContext N → P → W → W
  pub ask : DeviceId → P → W → W × Result (ActorError (Unit {0})) (Unit {0})

-- A boxed handler. Of what a spawned device gives, the model keeps the migration.
pub record DeviceHandler (N W : Type 0) : Type 0 where
  pub get_device_type : Text
  pub spawn : DeviceContext N → W → W × Result SpawnError (Option (Json N))
  pub validate : DeviceContext N → W → W × Result UpdateParamsMessageError (Option (Json N))
  pub update : DeviceContext N → W → W × Result UpdateDeviceError (Unit {0})

abbrev pub update_device_error : ActorError (Unit {0}) → UpdateDeviceError
update_device_error (unknown_device (unknown_device_id id name)) = update_unknown_device id
update_device_error x = update_other

abbrev pub start_device_error : SpawnError → StartDeviceError
start_device_error spawn_io = start_io
start_device_error (spawn_validation x) = start_validation x

abbrev pub transaction_error : UpdateParamsMessageError → TransactionError
transaction_error validation_error = invalid_device_config
transaction_error x = other_error

abbrev pub apply_error : UpdateDeviceError → TransactionError
apply_error (validate_error x) = transaction_error x
apply_error (update_unknown_device id) = unknown_device_error id
apply_error update_other = other_error

-- `map_err`, of a result beside the state of the world.
abbrev pub map_err : {E F A W : Type 0} → (E → F) → W × Result E A → W × Result F A
map_err f (w, ok a) = (w, ok a)
map_err f (w, err x) = (w, err (f x))

module _ {P N W : Type 0} (h : DepDeviceHandler P N W) (ctx : DeviceContext N) where
  abbrev pub spawned_with :
      W × Result UpdateParamsMessageError (WithInfallibleParamUpdate P N)
      → W × Result SpawnError (Option (Json N))
  spawned_with (w, err x) = (w, err (spawn_validation x))
  spawned_with (w, ok v) = (h.handler ctx v.data_of w, ok v.update)

  abbrev pub validated_with :
      W × Result UpdateParamsMessageError (WithInfallibleParamUpdate P N)
      → W × Result UpdateParamsMessageError (Option (Json N))
  validated_with (w, err x) = (w, err x)
  validated_with (w, ok v) = (w, ok v.update)

  -- A migration of a running device is refused.
  abbrev pub updated_with :
      W × Result UpdateParamsMessageError (WithInfallibleParamUpdate P N)
      → W × Result UpdateDeviceError (Unit {0})
  updated_with (w, err x) = (w, err (validate_error x))
  updated_with (w, ok v) = elim v.update [
    | some migration ↦ (w, err update_other)
    | none ↦ map_err update_device_error (h.ask ctx.id v.data_of w)
  ]

unfoldable pub as_device_handler : {P N W : Type 0} → DepDeviceHandler P N W → DeviceHandler N W
as_device_handler h = record {
  get_device_type = h.device_type;
  spawn = λ ctx w. spawned_with h ctx (h.validator true ctx w);
  validate = λ ctx w. validated_with h ctx (h.validator true ctx w);
  update = λ ctx w. updated_with h ctx (h.validator false ctx w);
}

abbrev pub DeviceSpawnerService : Type 0 → Type 0 → Type 0
DeviceSpawnerService N W = HashMap Text (DeviceHandler N W)

module _ {N W : Type 0} where
  -- `collect` into the map, in which a later handler replaces one of the same type.
  abbrev pub collect :
      DeviceSpawnerService N W → List (DeviceHandler N W) → DeviceSpawnerService N W
  collect map [] = map
  collect map (h ∷ devices) = collect (HashMap.insert h.get_device_type h map) devices

  unfoldable pub new_service : List (DeviceHandler N W) → DeviceSpawnerService N W
  new_service devices = collect [] devices

  unfoldable pub get_spawner : Text → DeviceSpawnerService N W → Option (DeviceHandler N W)
  get_spawner device_type map = HashMap.get device_type map

  abbrev pub spawn_by :
      Option (DeviceHandler N W)
      → DeviceContext N
      → W
      → W × Result StartDeviceError (Option (Json N))
  spawn_by none ctx w = (w, err unknown_device_type)
  spawn_by (some h) ctx w = map_err start_device_error (h.spawn ctx w)

  abbrev pub validate_by :
      Option (DeviceHandler N W)
      → DeviceContext N
      → W
      → W × Result TransactionError (Option (Json N))
  validate_by none ctx w = (w, err other_error)
  validate_by (some h) ctx w = map_err transaction_error (h.validate ctx w)

  abbrev pub try_apply_by :
      Option (DeviceHandler N W) → DeviceContext N → W → W × Result TransactionError (Unit {0})
  try_apply_by none ctx w = (w, err other_error)
  try_apply_by (some h) ctx w = map_err apply_error (h.update ctx w)

  module _ (service : DeviceSpawnerService N W) where
    unfoldable pub spawn :
        Text → DeviceContext N → W → W × Result StartDeviceError (Option (Json N))
    spawn device_type = spawn_by (get_spawner device_type service)

    unfoldable pub validate :
        Text → DeviceContext N → W → W × Result TransactionError (Option (Json N))
    validate device_type = validate_by (get_spawner device_type service)

    unfoldable pub try_apply : Text → DeviceContext N → W → W × Result TransactionError (Unit {0})
    try_apply device_type = try_apply_by (get_spawner device_type service)

    -- The service as the actions of a transaction.
    abbrev pub device_actions : Outside N W → Outside N W
    device_actions out = record out { validate = validate; try_apply = try_apply }
