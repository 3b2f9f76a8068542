-- ===== src/Actor/Listed.antt =====
-- Which devices the queries of the actor system find.
use pilatus.Base.{
  ◌≡◌, refl, ◌↔◌, false, ◌&&◌, ◌||◌, Option, none, some, List, [], ◌∷◌, arith, ◌==◌, nat_eq, inl,
  inr, Option-cases, eq_refl, sym, ◌∙◌, ap, all, map, subst,
}
use pilatus.Base.Result.{Result, ok}
use pilatus.HashMap
use pilatus.HashMap.{HashMap, contains_key, NodupKeys}
use pilatus.Recipe.{DeviceId}
use pilatus.Actor.Defs.{
  TypeId, Sender, HashSet, ActorSystemState, or_empty, list_devices_for_message_type,
  list_devices_for_message_types, retain_in, retain_all, drop_device,
}
use pilatus.Actor.Senders.{
  ActorErrorUnknownDevice, UntypedActorMessageSender, single_handler, sender_of_device,
  get_typed_sender, get_sender_or_single_handler, get_senders, senders_of, with_sender,
}
use pilatus.Actor.Live.{handles, NodupSets}
use pilatus.Actor.Steps.{
  System, new_system, has_handler, device_of, Reach, IsCurrent, Reach-IsCurrent, drop_lem,
}

contains-retain_in :
    (next init : HashSet DeviceId) (j : DeviceId)
    → contains_key j (retain_in next init) ≡ (contains_key j next && contains_key j init)
unfolding HashMap.get
contains-retain_in next [] j = ground arith
contains-retain_in next ((i, u) ∷ init) j =
    let ih = contains-retain_in next init j in ground (arith, nat_eq.eq_iff i j)

contains-retain_all :
    (sets : List (HashSet DeviceId)) (init : HashSet DeviceId) (j : DeviceId)
    → contains_key j (retain_all sets init)
      ≡ (contains_key j init && all (λ ids. contains_key j ids) sets)
contains-retain_all [] init j = ground arith
contains-retain_all (next ∷ sets) init j =
    ground (arith, contains-retain_all sets (retain_in next init) j, contains-retain_in next init j)

all-sets :
    (s : ActorSystemState) (j : DeviceId) (types : List TypeId)
    → all (λ ids. contains_key j ids) (map (λ t. or_empty (HashMap.get t s.messages)) types)
      ≡ all (λ t. handles s t j) types
all-sets s j [] = refl
all-sets s j (t ∷ types) = ap (λ b. handles s t j && b) (all-sets s j types)

all-current :
    {H : Type 0} (sys : System H) (j : DeviceId) (types : List TypeId)
    → IsCurrent sys
    → all (λ t. handles sys.state t j) types
      ≡ all (λ t. has_handler t (HashMap.get j sys.live)) types
all-current sys j [] c = refl
all-current sys j (t ∷ types) c = ground (arith, c.0 t j, all-current sys j types c)

-- In whatever order devices register under ids that no living device has, add handlers and are
-- dropped, and the senders are forgotten: `list_devices_for_message_types` of one type or more
-- lists exactly the living devices that have a handler for each of the types.
pub listed_iff :
    {H : Type 0} (sys : System H) (t : TypeId) (types : List TypeId) (j : DeviceId)
    → Reach new_system sys
    → contains_key j (list_devices_for_message_types sys.state (t ∷ types))
      ≡ all (λ u. has_handler u (HashMap.get j sys.live)) (t ∷ types)
unfolding list_devices_for_message_types
listed_iff sys t types j r =
    let c = Reach-IsCurrent r in
    let sets = map (λ u. or_empty (HashMap.get u sys.state.messages)) types in
    contains-retain_all sets (or_empty (HashMap.get t sys.state.messages)) j
    ∙ ap (λ b. handles sys.state t j && b) (all-sets sys.state j types)
    ∙ all-current sys j (t ∷ types) c

-- A living device of a system that arose from registrations (of ids that no living device has),
-- handlers, drops and forgotten senders can be dropped without a panic. Afterwards it has no sender
-- and stands for no message type, and the other devices stand for the types they stood for.
pub reachable-drop_device :
    {H : Type 0} (sys : System H) (id : DeviceId) (hs : HashMap TypeId H)
    → Reach new_system sys
    → HashMap.get id sys.live ≡ some hs
    → (s' : ActorSystemState) × (drop_device (device_of id hs) sys.state ≡ some s')
      × (contains_key id s'.devices ≡ false)
      × ((t : TypeId) → contains_key id (list_devices_for_message_type s' t) ≡ false)
      × ((t : TypeId) (j : DeviceId)
          → (id == j) ≡ false
          → contains_key j (list_devices_for_message_type s' t)
            ≡ contains_key j (list_devices_for_message_type sys.state t))
unfolding list_devices_for_message_type
reachable-drop_device sys id hs r alive =
    let c = Reach-IsCurrent r in
    let (s', e, devices, sets, spec) = drop_lem sys id hs c alive in
    (
      s',
      e,
      ap (contains_key id) devices ∙ ground (arith, HashMap.get-remove_self id sys.state.devices),
      λ t. ground (arith, spec t id, c.0 t id, ap (has_handler t) alive, eq_refl id),
      λ t j other. ground (arith, spec t j),
    )

-- A set that holds one element.
abbrev only : DeviceId → HashSet DeviceId
only id = (id, tt) ∷ []

singleton :
    (ids : HashSet DeviceId) (id : DeviceId)
    → NodupKeys ids
    → ((j : DeviceId) → contains_key j ids ≡ (id == j))
    → ids ≡ only id
unfolding HashMap.get
singleton [] id n h = absurd (ground (arith, h id, eq_refl id))
singleton ((a, u) ∷ []) id n h =
    let same : a ≡ id = ground (arith, h a, eq_refl a, nat_eq.eq_iff id a) in ap only same
singleton ((a, u) ∷ (b, v) ∷ ids) id (n, k) h = absurd (
    ground (
      arith,
      n,
      h a,
      h b,
      eq_refl a,
      eq_refl b,
      nat_eq.eq_iff id a,
      nat_eq.eq_iff id b,
      nat_eq.eq_iff b a,
    ))

sender_found :
    (id : DeviceId) (s : ActorSystemState) (sender : Sender)
    → HashMap.get id s.devices ≡ some sender
    → sender_of_device id s ≡ ok (record { device_id = id; mpsc_sender = sender })
unfolding sender_of_device
sender_found id s sender h = rw h refl

get_sender_or_single_handler-only :
    (s : ActorSystemState) (t : TypeId) (id : DeviceId)
    → NodupSets s
    → ((j : DeviceId) → handles s t j ≡ (id == j))
    → get_sender_or_single_handler t none s ≡ sender_of_device id s
unfolding get_sender_or_single_handler get_typed_sender list_devices_for_message_type
get_sender_or_single_handler-only s t id n h =
    ap (λ ids. single_handler t ids s) (singleton (or_empty (HashMap.get t s.messages)) id (n t) h)

contains-only : (id j : DeviceId) → contains_key j (only id) ≡ (id == j)
unfolding HashMap.get
contains-only id j = ground arith

single_handler-ok :
    (t : TypeId) (ids : HashSet DeviceId) (s : ActorSystemState) (x : UntypedActorMessageSender)
    → single_handler t ids s ≡ ok x
    → (ids ≡ only x.device_id) × (HashMap.get x.device_id s.devices ≡ some x.mpsc_sender)
unfolding sender_of_device
single_handler-ok t [] s x h = absurd (cc h)
single_handler-ok t ((id, u) ∷ other ∷ ids) s x h = absurd (cc h)
single_handler-ok t ((id, u) ∷ []) s x h = elim (Option-cases (HashMap.get id s.devices)) [
  | inl missing ↦ absurd (cc (rw (missing, sender_of_device) at h))
  | inr (sender, found) ↦
      let sent : UntypedActorMessageSender = record { device_id = id; mpsc_sender = sender } in
      let e : ◌≡◌ {A = Result ActorErrorUnknownDevice UntypedActorMessageSender} (ok sent) (ok x) =
        rw (found, sender_of_device) at h in
      let same : sent ≡ x = cc e in
      (
        ap (λ y. only y.device_id) same,
        subst (λ y. HashMap.get y.device_id s.devices ≡ some y.mpsc_sender) same found,
      )
]

-- Without an id, `get_sender_or_single_handler` finds a sender exactly if a single living device
-- handles the type and its sender is not forgotten, and it is that device's sender. The system
-- arose from registrations (of ids that no living device has), handlers, drops and forgotten
-- senders.
pub get_sender_or_single_handler_iff :
    {H : Type 0} (sys : System H) (t : TypeId) (x : UntypedActorMessageSender)
    → Reach new_system sys
    → (get_sender_or_single_handler t none sys.state ≡ ok x) ↔ (
        ((j : DeviceId) → has_handler t (HashMap.get j sys.live) ≡ (x.device_id == j))
        × (HashMap.get x.device_id sys.state.devices ≡ some x.mpsc_sender))
unfolding get_sender_or_single_handler get_typed_sender
get_sender_or_single_handler_iff sys t x r =
    let c = Reach-IsCurrent r in
    let ids = or_empty (HashMap.get t sys.state.messages) in
    (
      λ h.
          let (e, sender) = single_handler-ok t ids sys.state x h in
          (λ j. sym (c.0 t j) ∙ ap (contains_key j) e ∙ contains-only x.device_id j, sender),
      λ h.
          get_sender_or_single_handler-only sys.state t x.device_id c.2 (λ j. c.0 t j ∙ h.0 j)
          ∙ sender_found x.device_id sys.state x.mpsc_sender h.1,
    )

contains-with_sender :
    (s : ActorSystemState) (id j : DeviceId) (rest : List (DeviceId × UntypedActorMessageSender))
    → contains_key j (with_sender id (sender_of_device id s) rest)
      ≡ ((id == j && contains_key j s.devices) || contains_key j rest)
unfolding sender_of_device HashMap.get
contains-with_sender s id j rest = go (HashMap.get id s.devices) refl
  where
    go :
        (o : Option Sender)
        → HashMap.get id s.devices ≡ o
        → contains_key j (with_sender id (sender_of_device id s) rest)
          ≡ ((id == j && contains_key j s.devices) || contains_key j rest)
    go none e = rw (e, sender_of_device) (ground (arith, nat_eq.eq_iff id j))
    go (some x) e = rw (e, sender_of_device) (ground (arith, nat_eq.eq_iff id j))

contains-senders_of :
    (s : ActorSystemState) (ids : HashSet DeviceId) (j : DeviceId)
    → contains_key j (senders_of s ids) ≡ (contains_key j ids && contains_key j s.devices)
unfolding HashMap.get
contains-senders_of s [] j = ground arith
contains-senders_of s ((id, u) ∷ ids) j =
    let ih = contains-senders_of s ids j in
    let e = contains-with_sender s id j (senders_of s ids) in e ∙ ground (arith, nat_eq.eq_iff id j)

-- `get_senders` finds exactly the living devices that handle the type and whose sender is not
-- forgotten. The system arose from registrations (of ids that no living device has), handlers,
-- drops and forgotten senders.
pub get_senders_iff :
    {H : Type 0} (sys : System H) (t : TypeId) (j : DeviceId)
    → Reach new_system sys
    → contains_key j (get_senders t sys.state)
      ≡ (has_handler t (HashMap.get j sys.live) && contains_key j sys.state.devices)
unfolding get_senders list_devices_for_message_type
get_senders_iff sys t j r =
    let c = Reach-IsCurrent r in
    contains-senders_of sys.state (or_empty (HashMap.get t sys.state.messages)) j
    ∙ ap (λ b. b && contains_key j sys.state.devices) (c.0 t j)
