-- ===== src/Image/Broadcast.antt =====
-- pilatus-engineering/src/image/broadcaster.rs: a device that broadcasts images sends itself one message
-- for each image. What `tell` answers, whether an image is produced and somebody receives it is up to
-- the outside. `tell` sends on a fresh clone of a sender, which has a place of its own in the queue, and
-- fails only if the sender of the device is gone.
use pilatus.Base.{ℕ, ◌+◌, ◌≡◌, refl, Bool, true, false, Option, none, some, arith}
use pilatus.Base.Result.{Result, ok, err}
use pilatus.HashMap.{is_some}
use pilatus.Actor.{ActorWeakTellError}

-- `queued` counts the broadcast messages in the queue of the device; `stopped` counts the calls of
-- `stop_broadcast_callback`. A number stands for the sender of the broadcast channel.
pub record BroadcastState : Type 0 where
  pub transmitter : Option ℕ
  pub queued : ℕ
  pub stopped : ℕ

-- What `tell` of the event publisher answers.
abbrev pub Told : Type 0
Told = Result ActorWeakTellError (Unit {0})

abbrev pub new_broadcast : BroadcastState
new_broadcast = record { transmitter = none; queued = 0; stopped = 0 }

-- A message that `tell` has sent stands in the queue.
abbrev pub publish : Told → BroadcastState → BroadcastState × Told
publish (ok u) s = (record s { queued = s.queued + 1 }, ok u)
publish (err x) s = (s, err x)

abbrev pub subscribe_with : Option ℕ → ℕ → Told → BroadcastState → BroadcastState × Told
subscribe_with (some x) channel told s = (s, ok tt)
subscribe_with none channel told s = publish told (record s { transmitter = some channel })

-- `channel` is the sender of a new channel.
unfoldable pub subscribe : ℕ → Told → BroadcastState → BroadcastState × Told
subscribe channel told s = subscribe_with s.transmitter channel told s

abbrev pub broadcast_with : Option ℕ → Bool → Bool → Told → BroadcastState → BroadcastState × Told
broadcast_with none produced received told s = (s, ok tt)
broadcast_with (some x) true true told s = publish told s
broadcast_with (some x) true false told s =
    (record s { transmitter = none; stopped = s.stopped + 1 }, ok tt)
broadcast_with (some x) false received told s =
    (record s { transmitter = none; stopped = s.stopped + 1 }, ok tt)

-- The handler of a broadcast message, which has left the queue.
unfoldable pub broadcast_image : Bool → Bool → Told → BroadcastState → BroadcastState × Told
broadcast_image produced received told s = broadcast_with s.transmitter produced received told s

abbrev pub in_queue : Bool → ℕ
in_queue true = 1
in_queue false = 0

-- What happens to a device whose sender is there: subscriptions, and the handling of a queued message.
-- Flags say whether an image is produced and received.
pub data Events : BroadcastState → BroadcastState → Type 0 where
  start : {s : BroadcastState} → Events s s
  subscribed_after :
      {s t : BroadcastState} (channel : ℕ) → Events s t → Events s (subscribe channel (ok tt) t).0
  handled_after :
      {s t : BroadcastState} (n : ℕ) (produced received : Bool)
      → Events s t
      → t.queued ≡ n + 1
      → Events s (broadcast_image produced received (ok tt) (record t { queued = n })).0

-- As long as the sender of the device is there, exactly one message for an image is in its queue
-- while the device broadcasts, and none while it does not, whatever is subscribed, produced and
-- received.
pub one_message :
    (s : BroadcastState) → Events new_broadcast s → s.queued ≡ in_queue (is_some s.transmitter)
unfolding subscribe broadcast_image
one_message s start = refl
one_message s (subscribed_after {t = t} channel events) = go t.transmitter (one_message t events)
  where
    go :
        (o : Option ℕ)
        → t.queued ≡ in_queue (is_some o)
        → let u = (subscribe_with o channel (ok tt) (record t { transmitter = o })).0 in
          u.queued ≡ in_queue (is_some u.transmitter)
    go none h = omega (arith, h)
    go (some x) h = h
one_message s (handled_after {t = t} n produced received events e) =
    go t.transmitter produced received (one_message t events)
  where
    go :
        (o : Option ℕ) (p r : Bool)
        → t.queued ≡ in_queue (is_some o)
        → let u = (broadcast_with o p r (ok tt) (record t { queued = n; transmitter = o })).0 in
          u.queued ≡ in_queue (is_some u.transmitter)
    go none p r h = absurd (omega (arith, e, h))
    go (some x) true true h = omega (arith, e, h)
    go (some x) true false h = omega (arith, e, h)
    go (some x) false r h = omega (arith, e, h)
