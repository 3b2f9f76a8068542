-- ===== src/Actor/Twice.antt =====
-- Two living devices with one id.
use pilatus.Base.{
  ◌≡◌, refl, true, false, none, some, [], ◌∷◌, arith, nat_eq, inl, inr, Option-cases, eq_refl, ap,
}
use pilatus.HashMap
use pilatus.HashMap.{contains_key, get-insert_self}
use pilatus.Recipe.{DeviceId}
use pilatus.Actor.Defs.{
  TypeId, Sender, ActorSystemState, ActorDevice, publish_message, revoke_message_responsibility,
  register, add_handler, released, drop_device, drop_releaser,
}
use pilatus.Actor.Live.{handles, handles-publish_message, handles-revoked, revoked}

module _ {H : Type 0} where
  -- Both devices register, and each adds a handler for the type.
  abbrev pub registered_twice :
      ActorSystemState
      → DeviceId
      → Sender
      → Sender
      → TypeId
      → H
      → H
      → ActorSystemState × ActorDevice H × ActorDevice H
  registered_twice s id a b t h k =
      let (s1, d1) = register id a s in
      let (s2, d2) = register id b s1 in
      let (s3, first) = add_handler t h d1 s2 in
      let (s4, second) = add_handler t k d2 s3 in (s4, first, second)

revoke_known :
    (id : DeviceId) (t : TypeId) (s : ActorSystemState)
    → handles s t id ≡ true
    → revoke_message_responsibility id (t ∷ []) s ≡ some (revoked id t s)
unfolding revoke_message_responsibility HashMap.get
revoke_known id t s h = elim (Option-cases (HashMap.get t s.messages)) [
  | inl missing ↦ absurd (ground arith)
  | inr (ids, found) ↦
      let has : contains_key id ids ≡ true = ground arith in
      rw (found, revoke_message_responsibility, has) refl
]

revoke_unknown :
    (id : DeviceId) (t : TypeId) (s : ActorSystemState)
    → handles s t id ≡ false
    → revoke_message_responsibility id (t ∷ []) s ≡ none
unfolding revoke_message_responsibility HashMap.get
revoke_unknown id t s h = elim (Option-cases (HashMap.get t s.messages)) [
  | inl missing ↦ rw (missing, revoke_message_responsibility) refl
  | inr (ids, found) ↦
      let has : contains_key id ids ≡ false = ground arith in
      rw (found, revoke_message_responsibility, has) refl
]

-- If two living devices have registered with one id and each has a handler for one type, then
-- dropping the first leaves the second without a sender, and dropping the second then panics.
pub register_twice :
    {H : Type 0} (s : ActorSystemState) (id : DeviceId) (a b : Sender) (t : TypeId) (h k : H)
    → (s' : ActorSystemState) × (drop_device
          (registered_twice s id a b t h k).1
          (registered_twice s id a b t h k).0
        ≡ some s')
      × (contains_key id s'.devices ≡ false)
      × (drop_device (registered_twice s id a b t h k).2 s' ≡ none)
unfolding register add_handler drop_device drop_releaser HashMap.insert
register_twice s id a b t h k =
    let now = (registered_twice s id a b t h k).0 in
    let gone = revoked id t now in
    let base : ActorSystemState = record s {
      devices = HashMap.insert id b (HashMap.insert id a s.devices);
    } in
    let there : handles now t id ≡ true = ground (
      arith,
      handles-publish_message id id t t (publish_message id t base),
      eq_refl t,
      eq_refl id,
    ) in
    let missing : handles gone t id ≡ false =
      ground (arith, handles-revoked id id t t now, eq_refl t, eq_refl id) in
    (
      drop_releaser id gone,
      ap (released id) (revoke_known id t now there),
      ground (arith, HashMap.get-remove_self id now.devices),
      ap (released id) (revoke_unknown id t (drop_releaser id gone) missing),
    )
