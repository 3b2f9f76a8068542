-- ===== src/Actor/Steps.antt =====
-- Any order in which devices register, add handlers and are dropped.
use pilatus.Base.{
  ◌≡◌, refl, Bool, true, false, not, ◌&&◌, Option, none, some, [], arith, ◌==◌, nat_eq, inl, inr,
  Bool-cases, ◌∙◌, ap, subst,
}
use pilatus.HashMap
use pilatus.HashMap.{
  HashMap, contains_key, NodupKeys, get-insert, get-insert_self, get-remove, insert-NodupKeys,
}
use pilatus.Recipe.{DeviceId}
use pilatus.Actor.Defs.{
  TypeId, Sender, ActorSystemState, ActorDevice, new_state, forget_senders, publish_message,
  register, add_handler, released, drop_device, drop_releaser, list_devices_for_message_type,
}
use pilatus.Actor.Live.{
  handles, handles-publish_message, NodupSets, sets-publish_message, revoke_lem, contains-insert,
  contains-remove,
}

-- The tables, and the handlers of each device that is alive.
pub record System (H : Type 0) : Type 0 where
  pub state : ActorSystemState
  pub live : HashMap DeviceId (HashMap TypeId H)

module _ {H : Type 0} where
  abbrev pub new_system : System H
  new_system = record { state = new_state; live = [] }

  abbrev pub has_handler : TypeId → Option (HashMap TypeId H) → Bool
  has_handler t none = false
  has_handler t (some hs) = contains_key t hs

  abbrev pub with_device : ActorSystemState × ActorDevice H → System H → System H
  with_device (s, d) sys = record { state = s; live = HashMap.insert d.id d.handlers sys.live }

  abbrev pub device_of : DeviceId → HashMap TypeId H → ActorDevice H
  device_of id hs = record { id = id; handlers = hs }

  -- A device registers under an id that no living device has; handlers are added to, and a drop
  -- ends, a device that lives.
  pub data Step : System H → System H → Type 0 where
    registered :
        (sys : System H) (id : DeviceId) (sender : Sender)
        → HashMap.get id sys.live ≡ none
        → Step sys (with_device (register id sender sys.state) sys)
    handled :
        (sys : System H) (id : DeviceId) (hs : HashMap TypeId H) (t : TypeId) (h : H)
        → HashMap.get id sys.live ≡ some hs
        → Step sys (with_device (add_handler t h (device_of id hs) sys.state) sys)
    dropped :
        (sys : System H) (id : DeviceId) (hs : HashMap TypeId H) (s' : ActorSystemState)
        → HashMap.get id sys.live ≡ some hs
        → drop_device (device_of id hs) sys.state ≡ some s'
        → Step sys (record { state = s'; live = HashMap.remove id sys.live })
    forgotten : (sys : System H) → Step sys (record sys { state = forget_senders sys.state })

  pub data Reach (sys : System H) : System H → Type 0 where
    here : Reach sys sys
    next : {s t : System H} → Reach sys s → Step s t → Reach sys t

  -- The table of messages names the living devices for the types they handle, each once, and only
  -- living devices have a sender.
  abbrev pub IsCurrent : System H → Type 0
  IsCurrent sys =
      ((t : TypeId) (id : DeviceId)
        → handles sys.state t id ≡ has_handler t (HashMap.get id sys.live))
      × ((id : DeviceId)
          → contains_key id sys.state.devices ≡ true
          → contains_key id sys.live ≡ true)
      × NodupSets sys.state
      × ((id : DeviceId) (hs : HashMap TypeId H) → HashMap.get id sys.live ≡ some hs → NodupKeys hs)

  pub drop_lem :
      (sys : System H) (id : DeviceId) (hs : HashMap TypeId H)
      → IsCurrent sys
      → HashMap.get id sys.live ≡ some hs
      → (s' : ActorSystemState) × (drop_device (device_of id hs) sys.state ≡ some s')
        × (s'.devices ≡ HashMap.remove id sys.state.devices)
        × NodupSets s'
        × ((t : TypeId) (j : DeviceId)
            → handles s' t j ≡ (not (contains_key t hs && id == j) && handles sys.state t j))
  unfolding drop_device drop_releaser list_devices_for_message_type
  drop_lem sys id hs (current, senders, sets, nodup) alive =
      let known : (t : TypeId) → contains_key t hs ≡ true → handles sys.state t id ≡ true =
        λ t k. current t id ∙ ap (has_handler t) alive ∙ k in
      let (s, e, devices, sets', spec) =
        revoke_lem id hs sys.state (nodup id hs alive) sets known in
      (drop_releaser id s, ap (released id) e, ap (HashMap.remove id) devices, sets', spec)

  registered-IsCurrent :
      (sys : System H) (id : DeviceId) (sender : Sender)
      → HashMap.get id sys.live ≡ none
      → IsCurrent sys
      → IsCurrent (with_device (register id sender sys.state) sys)
  unfolding register list_devices_for_message_type HashMap.get
  registered-IsCurrent sys id sender fresh (current, senders, sets, nodup) = (
    λ t j. ground (arith, current t j, get-insert id j [] sys.live, nat_eq.eq_iff id j),
    λ j k. ground (
      arith,
      senders j,
      contains-insert id j sender sys.state.devices,
      contains-insert id j [] sys.live,
    ),
    sets,
    λ j hs k. elim (Bool-cases (id == j)) [
      | inl same ↦
          let e : [] ≡ hs = ground (arith, get-insert id j [] sys.live) in subst NodupKeys e tt
      | inr other ↦ nodup j hs (ground (arith, get-insert id j [] sys.live))
    ],
  )

  handled-IsCurrent :
      (sys : System H) (id : DeviceId) (hs : HashMap TypeId H) (t : TypeId) (h : H)
      → HashMap.get id sys.live ≡ some hs
      → IsCurrent sys
      → IsCurrent (with_device (add_handler t h (device_of id hs) sys.state) sys)
  unfolding add_handler publish_message list_devices_for_message_type
  handled-IsCurrent sys id hs t h alive (current, senders, sets, nodup) =
      let now = HashMap.insert t h hs in
      (
        λ u j. ground (
          arith,
          current u j,
          handles-publish_message id j t u sys.state,
          get-insert id j now sys.live,
          contains-insert t u h hs,
          nat_eq.eq_iff id j,
        ),
        λ j k. ground (arith, senders j, contains-insert id j now sys.live),
        sets-publish_message id t sys.state sets,
        λ j ks k. elim (Bool-cases (id == j)) [
          | inl same ↦
              let e : now ≡ ks = ground (arith, get-insert id j now sys.live) in
              subst NodupKeys e (insert-NodupKeys t h hs (nodup id hs alive))
          | inr other ↦ nodup j ks (ground (arith, get-insert id j now sys.live))
        ],
      )

  dropped-IsCurrent :
      (sys : System H) (id : DeviceId) (hs : HashMap TypeId H) (s' : ActorSystemState)
      → HashMap.get id sys.live ≡ some hs
      → drop_device (device_of id hs) sys.state ≡ some s'
      → IsCurrent sys
      → IsCurrent (record { state = s'; live = HashMap.remove id sys.live })
  dropped-IsCurrent sys id hs s' alive e (current, senders, sets, nodup) =
      let (s, e', devices, sets', spec) =
        drop_lem sys id hs (current, senders, sets, nodup) alive in
      let same : s ≡ s' = ground arith in
      subst (λ x. IsCurrent (record { state = x; live = HashMap.remove id sys.live })) same
        (
          λ t j.
              ground (arith, current t j, spec t j, get-remove id j sys.live, nat_eq.eq_iff id j),
          λ j k. ground (
            arith,
            senders j,
            ap (contains_key j) devices,
            contains-remove id j sys.state.devices,
            contains-remove id j sys.live,
          ),
          sets',
          λ j ks k. nodup j ks (ground (arith, get-remove id j sys.live)),
        )

  Step-IsCurrent : {s t : System H} → Step s t → IsCurrent s → IsCurrent t
  unfolding forget_senders list_devices_for_message_type HashMap.get
  Step-IsCurrent (registered sys id sender fresh) c = registered-IsCurrent sys id sender fresh c
  Step-IsCurrent (handled sys id hs t h alive) c = handled-IsCurrent sys id hs t h alive c
  Step-IsCurrent (dropped sys id hs s' alive e) c = dropped-IsCurrent sys id hs s' alive e c
  Step-IsCurrent (forgotten sys) (current, senders, sets, nodup) =
      (current, λ id k. absurd (cc k), sets, nodup)

  pub Reach-IsCurrent : {sys : System H} → Reach new_system sys → IsCurrent sys
  unfolding HashMap.get list_devices_for_message_type
  Reach-IsCurrent here = (λ t id. refl, λ id k. absurd (cc k), λ t. tt, λ id hs k. absurd (cc k))
  Reach-IsCurrent (next r step) = Step-IsCurrent step (Reach-IsCurrent r)
