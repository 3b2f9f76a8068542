-- ===== src/Actor/Senders.antt =====
-- pilatus/src/device/system/{error,identifier,sender}.rs: looking up senders, and sending. A message
-- type stands for its `type_name`. The channels and the answers are outside: `Channels`.
use pilatus.Base.{Option, none, some, List, [], ◌∷◌, any, ◌==◌, nat_eq, if◌then◌else◌}
use pilatus.Base.Text.{Text, codes}
use pilatus.Base.Result.{Result, ok, err}
use pilatus.Name.{Name}
use pilatus.HashMap
use pilatus.HashMap.{HashMap}
use pilatus.Recipe.{DeviceId}
use pilatus.Actor.Defs.{
  TypeId, Sender, HashSet, ActorSystemState, or_empty, list_devices_for_message_type,
}

pub data ActorErrorUnknownDevice : Type 0 where
  unknown_device_id : DeviceId → Text → ActorErrorUnknownDevice
  ambiguous_handler : TypeId → HashSet DeviceId → ActorErrorUnknownDevice
  unknown_device_name : Name → Text → ActorErrorUnknownDevice

pub data ActorErrorBusy : Type 0 where
  exceeded_queue_capacity : DeviceId → ActorErrorBusy
  spawn_blocking : ActorErrorBusy

pub data ActorError (C : Type 0) : Type 0 where
  unknown_device : ActorErrorUnknownDevice → ActorError C
  unknown_message_type : TypeId → ActorError C
  custom : C → ActorError C
  busy : ActorErrorBusy → ActorError C
  aborted timeout : ActorError C

pub data ActorWeakTellError : Type 0 where
  weak_unknown_device : ActorErrorUnknownDevice → ActorWeakTellError
  weak_busy : ActorErrorBusy → ActorWeakTellError

unfoldable pub map_custom : {C D : Type 0} → (C → D) → ActorError C → ActorError D
map_custom mapper (unknown_device x) = unknown_device x
map_custom mapper (unknown_message_type t) = unknown_message_type t
map_custom mapper (custom x) = custom (mapper x)
map_custom mapper (busy x) = busy x
map_custom mapper aborted = aborted
map_custom mapper timeout = timeout

-- `From<ActorWeakTellError>`
unfoldable pub from_weak : {C : Type 0} → ActorWeakTellError → ActorError C
from_weak (weak_unknown_device x) = unknown_device x
from_weak (weak_busy x) = busy x

pub record UntypedActorMessageSender : Type 0 where
  pub device_id : DeviceId
  pub mpsc_sender : Sender

pub data DynamicIdentifier : Type 0 where
  identified : DeviceId → DynamicIdentifier
  unidentified : DynamicIdentifier

abbrev pub found_sender :
    Text → DeviceId → Option Sender → Result ActorErrorUnknownDevice UntypedActorMessageSender
found_sender details id none = err (unknown_device_id id details)
found_sender details id (some sender) = ok (record { device_id = id; mpsc_sender = sender })

-- `get_untyped_sender` of a `DeviceId`; `get_typed_sender` is the same sender with a type.
unfoldable pub sender_of_device :
    DeviceId → ActorSystemState → Result ActorErrorUnknownDevice UntypedActorMessageSender
sender_of_device id s =
    found_sender (codes "No message queue for this device") id (HashMap.get id s.devices)

-- `none` where the `todo!()` panics.
unfoldable pub get_untyped_sender :
    DynamicIdentifier
    → ActorSystemState
    → Option (Result ActorErrorUnknownDevice UntypedActorMessageSender)
get_untyped_sender (identified id) s = some (sender_of_device id s)
get_untyped_sender unidentified s = none

abbrev pub single_handler :
    TypeId
    → HashSet DeviceId
    → ActorSystemState
    → Result ActorErrorUnknownDevice UntypedActorMessageSender
single_handler t [] s = err (ambiguous_handler t [])
single_handler t ((id, u) ∷ []) s = sender_of_device id s
single_handler t ((id, u) ∷ other ∷ ids) s = err (ambiguous_handler t ((id, u) ∷ other ∷ ids))

-- `get_typed_sender` of a `DynamicIdentifier` for messages of type `t`.
unfoldable pub get_typed_sender :
    TypeId
    → DynamicIdentifier
    → ActorSystemState
    → Result ActorErrorUnknownDevice UntypedActorMessageSender
get_typed_sender t (identified id) s = sender_of_device id s
get_typed_sender t unidentified s = single_handler t (or_empty (HashMap.get t s.messages)) s

unfoldable pub get_sender_or_single_handler :
    TypeId
    → Option DeviceId
    → ActorSystemState
    → Result ActorErrorUnknownDevice UntypedActorMessageSender
get_sender_or_single_handler t (some id) s = sender_of_device id s
get_sender_or_single_handler t none s = get_typed_sender t unidentified s

abbrev pub with_sender :
    DeviceId
    → Result ActorErrorUnknownDevice UntypedActorMessageSender
    → List (DeviceId × UntypedActorMessageSender)
    → List (DeviceId × UntypedActorMessageSender)
with_sender id (ok sender) rest = (id, sender) ∷ rest
with_sender id (err x) rest = rest

abbrev pub senders_of :
    ActorSystemState → HashSet DeviceId → List (DeviceId × UntypedActorMessageSender)
senders_of s [] = []
senders_of s ((id, u) ∷ ids) = with_sender id (sender_of_device id s) (senders_of s ids)

unfoldable pub get_senders : TypeId → ActorSystemState → List (DeviceId × UntypedActorMessageSender)
get_senders t s = senders_of s (list_devices_for_message_type s t)

-- A weak sender names the channel; the table of devices holds the one strong reference to the
-- shared sender.
pub record WeakUntypedActorMessageSender : Type 0 where
  pub device_id : DeviceId
  pub weak_sender : Sender

abbrev pub downgraded :
    DeviceId → Option Sender → Result ActorErrorUnknownDevice WeakUntypedActorMessageSender
downgraded id none = err (unknown_device_id id (codes "Unknown Id"))
downgraded id (some sender) = ok (record { device_id = id; weak_sender = sender })

unfoldable pub get_weak_untyped_sender :
    DeviceId → ActorSystemState → Result ActorErrorUnknownDevice WeakUntypedActorMessageSender
get_weak_untyped_sender id s = downgraded id (HashMap.get id s.devices)

-- `Weak::upgrade`
abbrev pub upgrade : Sender → ActorSystemState → Option Sender
upgrade sender s = if any (λ c. c == sender) (HashMap.values s.devices) then some sender else none

abbrev pub upgraded :
    DeviceId → Option Sender → Result ActorErrorUnknownDevice UntypedActorMessageSender
upgraded id none =
    err (
      unknown_device_id id (codes "Channel from WeakUntypedActorMessageSender was dropped already"))
upgraded id (some sender) = ok (record { device_id = id; mpsc_sender = sender })

unfoldable pub build_strong :
    WeakUntypedActorMessageSender
    → ActorSystemState
    → Result ActorErrorUnknownDevice UntypedActorMessageSender
build_strong w s = upgraded w.device_id (upgrade w.weak_sender s)

-- The channels of a world `W`: whether a message goes into a channel, and what comes back on the
-- channel for the answer (`none` where its sender is dropped).
pub record Channels (M A C W : Type 0) : Type 0 where
  pub try_send : Sender → TypeId → M → W → Option W
  pub response : W → W × Option (Result (ActorError C) A)

module _ {M A C W : Type 0} (io : Channels M A C W) where
  abbrev pub sent : DeviceId → W → Option W → W × Result ActorErrorBusy (Unit {0})
  sent id w none = (w, err (exceeded_queue_capacity id))
  sent id w (some w') = (w', ok tt)

  unfoldable pub get_channel :
      UntypedActorMessageSender → TypeId → M → W → W × Result ActorErrorBusy (Unit {0})
  get_channel sender t msg w = sent sender.device_id w (io.try_send sender.mpsc_sender t msg w)

  unfoldable pub tell :
      UntypedActorMessageSender → TypeId → M → W → W × Result ActorErrorBusy (Unit {0})
  tell sender t msg w = get_channel sender t msg w

  abbrev pub received : TypeId → W × Option (Result (ActorError C) A) → W × Result (ActorError C) A
  received t (w, none) = (w, err (unknown_message_type t))
  received t (w, some answer) = (w, answer)

  abbrev pub answered : TypeId → W × Result ActorErrorBusy (Unit {0}) → W × Result (ActorError C) A
  answered t (w, err x) = (w, err (busy x))
  answered t (w, ok u) = received t (io.response w)

  unfoldable pub ask : UntypedActorMessageSender → TypeId → M → W → W × Result (ActorError C) A
  ask sender t msg w = answered t (get_channel sender t msg w)

  abbrev pub weak_told :
      DeviceId → W × Result ActorErrorBusy (Unit {0}) → W × Result ActorWeakTellError (Unit {0})
  weak_told id (w, ok u) = (w, ok u)
  weak_told id (w, err x) = (w, err (weak_busy x))

  abbrev pub tell_strong :
      DeviceId
      → Result ActorErrorUnknownDevice UntypedActorMessageSender
      → TypeId
      → M
      → W
      → W × Result ActorWeakTellError (Unit {0})
  tell_strong id (ok sender) t msg w = weak_told id (tell sender t msg w)
  tell_strong id (err x) t msg w = (
    w,
    err (
        weak_unknown_device
          (unknown_device_id id (codes "Device existed but is no longer available"))),
  )

  unfoldable pub weak_tell :
      WeakUntypedActorMessageSender
      → TypeId
      → M
      → ActorSystemState
      → W
      → W × Result ActorWeakTellError (Unit {0})
  weak_tell weak t msg s w = tell_strong weak.device_id (build_strong weak s) t msg w

  abbrev pub ask_strong :
      Result ActorErrorUnknownDevice UntypedActorMessageSender
      → TypeId
      → M
      → W
      → W × Result (ActorError C) A
  ask_strong (ok sender) t msg w = ask sender t msg w
  ask_strong (err x) t msg w = (w, err (unknown_device x))

  unfoldable pub weak_ask :
      WeakUntypedActorMessageSender
      → TypeId
      → M
      → ActorSystemState
      → W
      → W × Result (ActorError C) A
  weak_ask weak t msg s w = ask_strong (build_strong weak s) t msg w

  -- `ActorSystem::ask`, with a device or with none.
  unfoldable pub ask_system :
      DynamicIdentifier → TypeId → M → ActorSystemState → W → W × Result (ActorError C) A
  ask_system id t msg s w = ask_strong (get_typed_sender t id s) t msg w
