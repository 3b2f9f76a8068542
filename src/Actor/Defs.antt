-- ===== src/Actor/Defs.antt =====
-- pilatus/src/device/system/mod.rs: the state of the actor system, and the devices that register.
-- A `TypeId` and a sender of a channel are numbers; a handler is of any type `H`.
use pilatus.Base.{ℕ, Option, none, some, List, [], ◌∷◌, if◌then◌else◌, nat_eq, map, filter}
use pilatus.HashMap
use pilatus.HashMap.{HashMap, contains_key}
use pilatus.Recipe.{DeviceId}

abbrev pub TypeId : Type 0
TypeId = ℕ

abbrev pub Sender : Type 0
Sender = ℕ

-- `HashSet<T>` is a `HashMap<T, ()>`.
abbrev pub HashSet : Type 0 → Type 0
HashSet A = HashMap A (Unit {0})

pub record ActorSystemState : Type 0 where
  pub devices : HashMap DeviceId Sender
  pub messages : HashMap TypeId (HashSet DeviceId)

pub record ActorDevice (H : Type 0) : Type 0 where
  pub id : DeviceId
  pub handlers : HashMap TypeId H

abbrev pub new_state : ActorSystemState
new_state = record { devices = []; messages = [] }

-- `unwrap_or_default`
abbrev pub or_empty : Option (HashSet DeviceId) → HashSet DeviceId
or_empty none = []
or_empty (some ids) = ids

unfoldable pub forget_senders : ActorSystemState → ActorSystemState
forget_senders s = record s { devices = [] }

unfoldable pub list_devices_for_message_type : ActorSystemState → TypeId → HashSet DeviceId
list_devices_for_message_type s t = or_empty (HashMap.get t s.messages)

unfoldable pub list_grouped_devices_for_message_types :
    ActorSystemState → List TypeId → List (TypeId × HashSet DeviceId)
list_grouped_devices_for_message_types s types =
    map (λ t. (t, or_empty (HashMap.get t s.messages))) types

-- `HashSet::retain` of the elements of another set.
abbrev pub retain_in : HashSet DeviceId → HashSet DeviceId → HashSet DeviceId
retain_in next init = filter (λ i. contains_key i.0 next) init

abbrev pub retain_all : List (HashSet DeviceId) → HashSet DeviceId → HashSet DeviceId
retain_all [] init = init
retain_all (next ∷ sets) init = retain_all sets (retain_in next init)

abbrev pub intersection : List (HashSet DeviceId) → HashSet DeviceId
intersection [] = []
intersection (init ∷ sets) = retain_all sets init

unfoldable pub list_devices_for_message_types : ActorSystemState → List TypeId → HashSet DeviceId
list_devices_for_message_types s types =
    intersection (map (λ t. or_empty (HashMap.get t s.messages)) types)

-- `entry(typeid).or_default().insert(id)`
unfoldable pub publish_message : DeviceId → TypeId → ActorSystemState → ActorSystemState
publish_message id t s =
    let ids = or_empty (HashMap.get t s.messages) in
    record s { messages = HashMap.insert t (HashMap.insert id tt ids) s.messages }

-- `none` where the `expect` or the `assert!` panics.
unfoldable pub revoke_message_responsibility :
    DeviceId → List TypeId → ActorSystemState → Option ActorSystemState
revoke_message_responsibility id [] s = some s
revoke_message_responsibility id (t ∷ types) s =
    let later =
      revoke_message_responsibility id types
        (record s { messages = HashMap.modify t (HashMap.remove id) s.messages }) in
    elim (HashMap.get t s.messages) [
      | none ↦ none
      | some ids ↦ if contains_key id ids then later else none
    ]

-- `Drop` of the `DeviceReleaser`.
unfoldable pub drop_releaser : DeviceId → ActorSystemState → ActorSystemState
drop_releaser id s = record s { devices = HashMap.remove id s.devices }

abbrev pub released : DeviceId → Option ActorSystemState → Option ActorSystemState
released id none = none
released id (some s) = some (drop_releaser id s)

module _ {H : Type 0} where
  -- The sender is that of the channel made for the device.
  unfoldable pub register : DeviceId → Sender → ActorSystemState → ActorSystemState × ActorDevice H
  register id sender s =
      (record s { devices = HashMap.insert id sender s.devices }, record { id = id; handlers = [] })

  unfoldable pub add_handler :
      TypeId → H → ActorDevice H → ActorSystemState → ActorSystemState × ActorDevice H
  add_handler t h d s =
      (publish_message d.id t s, record d { handlers = HashMap.insert t h d.handlers })

  -- `Drop` of the `ActorDevicePostExecute`, then of its field `manager`.
  unfoldable pub drop_device : ActorDevice H → ActorSystemState → Option ActorSystemState
  drop_device d s = released d.id (revoke_message_responsibility d.id (HashMap.keys d.handlers) s)
