-- ===== src/Actor/Live.antt =====
-- The actor system with the devices that are alive: which of them the tables name.
use pilatus.Base.{
  ◌≡◌, refl, Bool, true, false, not, ◌&&◌, ◌||◌, Option, none, some, [], ◌∷◌, arith, ◌==◌, nat_eq,
  if◌then◌else◌, inl, inr, Bool-cases, Option-cases, PartialEq, eq_refl, ◌∙◌, ap,
}
use pilatus.HashMap
use pilatus.HashMap.{
  HashMap, contains_key, NodupKeys, get-insert, get-remove, get-modify, insert-NodupKeys,
  remove-NodupKeys,
}
use pilatus.Recipe.{DeviceId}
use pilatus.Actor.Defs.{
  TypeId, HashSet, ActorSystemState, or_empty, list_devices_for_message_type, publish_message,
  revoke_message_responsibility,
}

module _ {ℓ κ} {K : Type ℓ} {V : Type κ} ⦃e : PartialEq K⦄ where
  pub contains-insert :
      (k j : K) (v : V) (m : HashMap K V)
      → contains_key j (HashMap.insert k v m) ≡ (k == j || contains_key j m)
  contains-insert k j v m = ground (arith, get-insert k j v m)

  pub contains-remove :
      (k j : K) (m : HashMap K V)
      → contains_key j (HashMap.remove k m) ≡ (not (k == j) && contains_key j m)
  contains-remove k j m = ground (arith, get-remove k j m)

-- Whether the table names the device for the message type.
abbrev pub handles : ActorSystemState → TypeId → DeviceId → Bool
handles s t id = contains_key id (or_empty (HashMap.get t s.messages))

pub handles-publish_message :
    (id j : DeviceId) (t u : TypeId) (s : ActorSystemState)
    → handles (publish_message id t s) u j ≡ (handles s u j || (t == u && id == j))
unfolding publish_message
handles-publish_message id j t u s = ground (
  arith,
  get-insert t u (HashMap.insert id tt (or_empty (HashMap.get t s.messages))) s.messages,
  get-insert id j tt (or_empty (HashMap.get t s.messages)),
  nat_eq.eq_iff t u,
)

-- One step of `revoke_message_responsibility`.
abbrev pub revoked : DeviceId → TypeId → ActorSystemState → ActorSystemState
revoked id t s = record s { messages = HashMap.modify t (HashMap.remove id) s.messages }

pub handles-revoked :
    (id j : DeviceId) (t u : TypeId) (s : ActorSystemState)
    → handles (revoked id t s) u j ≡ (not (t == u && id == j) && handles s u j)
unfolding HashMap.get
handles-revoked id j t u s =
    ap (λ o. contains_key j (or_empty o)) (get-modify t u (HashMap.remove id) s.messages)
    ∙ go (t == u) (HashMap.get u s.messages)
  where
    go :
        (b : Bool) (o : Option (HashSet DeviceId))
        → contains_key j (or_empty (if b then HashMap.map_option (HashMap.remove id) o else o))
          ≡ (not (b && id == j) && contains_key j (or_empty o))
    go false o = refl
    go true none = ground arith
    go true (some ids) = contains-remove id j ids

-- The sets of the table hold each device once.
abbrev pub NodupSets : ActorSystemState → Type 0
NodupSets s = (t : TypeId) → NodupKeys (list_devices_for_message_type s t)

pub sets-publish_message :
    (id : DeviceId) (t : TypeId) (s : ActorSystemState)
    → NodupSets s
    → NodupSets (publish_message id t s)
unfolding publish_message list_devices_for_message_type
sets-publish_message id t s h u =
    let ids = or_empty (HashMap.get t s.messages) in
    let now = insert-NodupKeys id tt ids (h t) in
    let e = get-insert t u (HashMap.insert id tt ids) s.messages in
    elim (Bool-cases (t == u)) [ inl same ↦ rw (e, same) now | inr other ↦ rw (e, other) (h u) ]

sets-revoked :
    (id : DeviceId) (t : TypeId) (s : ActorSystemState) → NodupSets s → NodupSets (revoked id t s)
unfolding list_devices_for_message_type
sets-revoked id t s h u =
    let e = get-modify t u (HashMap.remove id) s.messages in
    elim (Bool-cases (t == u)) [
      | inl same ↦ rw (e, same) (go (HashMap.get u s.messages) (h u))
      | inr other ↦ rw (e, other) (h u)
    ]
  where
    go :
        (o : Option (HashSet DeviceId))
        → NodupKeys (or_empty o)
        → NodupKeys (or_empty (HashMap.map_option (HashMap.remove id) o))
    go none k = k
    go (some ids) k = remove-NodupKeys id ids k

module _ {H : Type 0} where
  -- A device that the table names for all its handlers revokes them without a panic, and only them.
  pub revoke_lem :
      (id : DeviceId) (hs : HashMap TypeId H) (s : ActorSystemState)
      → NodupKeys hs
      → NodupSets s
      → ((t : TypeId) → contains_key t hs ≡ true → handles s t id ≡ true)
      → (s' : ActorSystemState) × (revoke_message_responsibility id (HashMap.keys hs) s ≡ some s')
        × (s'.devices ≡ s.devices)
        × NodupSets s'
        × ((t : TypeId) (j : DeviceId)
            → handles s' t j ≡ (not (contains_key t hs && id == j) && handles s t j))
  unfolding revoke_message_responsibility HashMap.get
  revoke_lem id [] s n sets h = (s, refl, refl, sets, λ t j. refl)
  revoke_lem id ((t, handler) ∷ hs) s (a, n) sets h =
      let known : handles s t id ≡ true = h t (ground (arith, eq_refl t)) in
      let (s', e, devices, sets', spec) =
        revoke_lem id hs (revoked id t s) n (sets-revoked id t s sets)
          (λ u k. ground (arith, handles-revoked id id t u s, h u, nat_eq.eq_iff t u)) in
      elim (Option-cases (HashMap.get t s.messages)) [
        | inl missing ↦ absurd (ground arith)
        | inr (ids, found) ↦
            let has : contains_key id ids ≡ true = ground arith in
            (
              s',
              rw (found, revoke_message_responsibility, has) e,
              devices,
              sets',
              λ u j. ground (arith, spec u j, handles-revoked id j t u s),
            )
      ]
