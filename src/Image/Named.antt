-- ===== src/Image/Named.antt =====
-- Runs on hashes, named images and broadcasts, and the theorems at them.
use pilatus.Base.{true, false, ℕ, ◌≡◌, refl, arith, length, some, none, nat_eq, list_eq, option_eq}
use pilatus.Base.Text.{codes}
use pilatus.Base.Result.{ok, err}
use pilatus.HashMap
use pilatus.Image.Hash.{
  format_hex, deserialize_hash, deserialize_hash-format_hex, zero_hash, get_change_state,
  get_warning,
}
use pilatus.HashMap.{is_some}
use pilatus.Image.Broadcast.{
  in_queue, BroadcastState, new_broadcast, subscribe, broadcast_image, Events, one_message, start,
  subscribed_after, handled_after,
}
use pilatus.Image.Keys.{with_hash, by_name, insert, ImageWithMeta, ImageKey}

run : Unit {0}
unfolding format_hex deserialize_hash with_hash by_name insert HashMap.get HashMap.insert
    get_change_state get_warning subscribe broadcast_image
run = tt

zero_refused : deserialize_hash (codes "000") ≡ err zero_hash
unfolding run
zero_refused = refl

deserialize_hash-format_hex_example :
    (length (format_hex 4660) ≡ 16) × (deserialize_hash (format_hex 4660) ≡ ok 4660)
deserialize_hash-format_hex_example = deserialize_hash-format_hex 4660 (omega arith) (omega arith)

abbrev bar : ImageKey
bar = some (codes "bar")

abbrev one_image : ImageWithMeta ℕ
one_image = with_hash 2 none

-- The example of the documentation.
replaced : (insert (insert one_image bar 4).0 none 6).1 ≡ some 2
unfolding run
replaced = refl

abbrev streaming : BroadcastState
streaming = record { transmitter = some 7; queued = 1; stopped = 0 }

abbrev ended : BroadcastState
ended = record { transmitter = none; queued = 0; stopped = 1 }

-- A subscription, an image, and then no receiver.
ended-Events : Events new_broadcast ended
unfolding run
ended-Events =
    let first : Events new_broadcast streaming = subscribed_after 7 start in
    let second : Events new_broadcast streaming = handled_after 0 true true first refl in
    handled_after 0 true false second refl

one_message_example : ended.queued ≡ in_queue (is_some ended.transmitter)
one_message_example = one_message ended ended-Events
