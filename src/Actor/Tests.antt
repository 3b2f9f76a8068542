-- ===== src/Actor/Tests.antt =====
-- Two devices: one handles the messages of type 5, the other those of types 5 and 6.
use mathlib.Core.List.{Perm}
use pilatus.Base.{
  ℕ, ◌≡◌, refl, ◌↔◌, ◌==◌, nat_eq, false, none, some, [], ◌∷◌, ◌+◌, if◌then◌else◌, all, List,
}
use pilatus.Base.Result.{ok}
use pilatus.HashMap
use pilatus.HashMap.{HashMap, contains_key}
use pilatus.Recipe.{DeviceId}
use pilatus.Actor.Defs.{
  TypeId, ActorSystemState, ActorDevice, list_devices_for_message_types, register, add_handler,
  drop_device, publish_message, revoke_message_responsibility, drop_releaser,
  list_devices_for_message_type, new_state,
}
use pilatus.Actor.Senders.{
  get_sender_or_single_handler, get_typed_sender, sender_of_device, get_senders,
}
use pilatus.Actor.Steps.{
  System, new_system, with_device, device_of, has_handler, Reach, here, next, registered, handled,
}
use pilatus.Actor.Listed.{listed_iff, reachable-drop_device, get_sender_or_single_handler_iff}
use pilatus.Actor.Twice.{registered_twice, register_twice}
use pilatus.Actor.Execute.{
  HandlerResult, done, step2, Response, sent, canceled, BoxMessage, Execution, start, IsFinished,
  receive, Step, received, ended, Run,
}
use pilatus.Actor.Execute
use pilatus.Actor.Answers.{sequential, execute_lem}

run : Unit {0}
unfolding HashMap.get HashMap.insert HashMap.remove HashMap.modify list_devices_for_message_types
    register add_handler drop_device publish_message revoke_message_responsibility drop_releaser
    list_devices_for_message_type get_sender_or_single_handler get_typed_sender sender_of_device
    get_senders receive
run = tt

abbrev two : System ℕ
two = record {
  state = record {
    devices = (1, 10) ∷ (2, 20) ∷ [];
    messages = (5, (1, tt) ∷ (2, tt) ∷ []) ∷ (6, (2, tt) ∷ []) ∷ [];
  };
  live = (1, (5, 100) ∷ []) ∷ (2, (5, 200) ∷ (6, 201) ∷ []) ∷ [];
}

two-Reach : Reach new_system two
unfolding run
two-Reach =
    let a = with_device (register {H = ℕ} 1 10 new_state) new_system in
    let b = with_device (add_handler 5 100 (device_of 1 []) a.state) a in
    let c = with_device (register 2 20 b.state) b in
    let d = with_device (add_handler 5 200 (device_of 2 []) c.state) c in
    next
      (next
        (next (next (next here (registered new_system 1 10 refl)) (handled a 1 [] 5 100 refl))
          (registered b 2 20 refl))
        (handled c 2 [] 5 200 refl))
      (handled d 2 ((5, 200) ∷ []) 6 201 refl)

listed_iff_example :
    contains_key 2 (list_devices_for_message_types two.state (5 ∷ 6 ∷ []))
    ≡ all (λ u. has_handler u (HashMap.get 2 two.live)) (5 ∷ 6 ∷ [])
listed_iff_example = listed_iff two 5 (6 ∷ []) 2 two-Reach

listed_both : list_devices_for_message_types two.state (5 ∷ 6 ∷ []) ≡ (2, tt) ∷ []
unfolding run
listed_both = refl

alive : HashMap.get 2 two.live ≡ some ((5, 200) ∷ (6, 201) ∷ [])
unfolding run
alive = refl

reachable-drop_device_example :
    (s' : ActorSystemState) × (drop_device {H = ℕ}
        (device_of 2 ((5, 200) ∷ (6, 201) ∷ []))
        two.state
      ≡ some s')
    × (contains_key 2 s'.devices ≡ false)
    × ((t : TypeId) → contains_key 2 (list_devices_for_message_type s' t) ≡ false)
    × ((t : TypeId) (j : DeviceId)
        → (2 == j) ≡ false
        → contains_key j (list_devices_for_message_type s' t)
          ≡ contains_key j (list_devices_for_message_type two.state t))
reachable-drop_device_example =
    reachable-drop_device two 2 ((5, 200) ∷ (6, 201) ∷ []) two-Reach alive

get_sender_or_single_handler_iff_example :
    (get_sender_or_single_handler 6 none two.state
      ≡ ok (record { device_id = 2; mpsc_sender = 20 }))
    ↔ (((j : DeviceId) → has_handler 6 (HashMap.get j two.live) ≡ (2 == j))
        × (HashMap.get 2 two.state.devices ≡ some 20))
get_sender_or_single_handler_iff_example =
    get_sender_or_single_handler_iff two 6 (record { device_id = 2; mpsc_sender = 20 }) two-Reach

register_twice_example :
    (s' : ActorSystemState) × (drop_device {H = ℕ}
        (registered_twice {H = ℕ} new_state 1 10 20 5 100 200).1
        (registered_twice {H = ℕ} new_state 1 10 20 5 100 200).0
      ≡ some s')
    × (contains_key 1 s'.devices ≡ false)
    × (drop_device {H = ℕ} (registered_twice {H = ℕ} new_state 1 10 20 5 100 200).2 s' ≡ none)
register_twice_example = register_twice new_state 1 10 20 5 100 200

-- A device that adds up its messages: type 5 answers at once, type 6 by a task.
abbrev adding : ℕ → ℕ → ℕ → ℕ × HandlerResult ℕ
adding h s m = (s + m, if h == 5 then done (s + m) else step2 (s + m))

abbrev adder : ActorDevice ℕ
adder = record { id = 1; handlers = (5, 5) ∷ (6, 6) ∷ [] }

abbrev message : TypeId → ℕ → ℕ → BoxMessage ℕ
message t m channel = record { type_id = t; msg = m; response_channel = channel }

abbrev messages : List (BoxMessage ℕ)
messages = message 6 3 0 ∷ message 7 9 1 ∷ message 5 4 2 ∷ []

abbrev last : Execution ℕ ℕ ℕ
last = record {
  receiver = [];
  state = 7;
  pending_tasks = [];
  responses = (0, sent 3) ∷ (2, sent 7) ∷ (1, canceled) ∷ [];
}

messages-Run : Run adding adder 4 (start messages 0) last
unfolding run
messages-Run = Execute.next (received (message 6 3 0) _ refl) (
    Execute.next (received (message 7 9 1) _ refl) (
      Execute.next (received (message 5 4 2) _ refl)
        (Execute.next (ended [] (0, 3) [] refl) Execute.here)))

execute_lem_example :
    (last.state ≡ (sequential adding adder messages 0).0)
    × Perm last.responses (sequential adding adder messages 0).1
execute_lem_example = execute_lem adding adder messages 0 messages-Run (refl, refl)
