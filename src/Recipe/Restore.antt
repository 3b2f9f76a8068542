-- ===== src/Recipe/Restore.antt =====
-- Uncommitted parameters and their restoration; devices that are added; repeated tags.
use pilatus.Base.{
  ◌≡◌, refl, sym, ap, ◌∙◌, ◌≢◌, ◌⊎◌, inl, inr, Bool, true, false, none, some, List, [], ◌∷◌, arith,
  if◌then◌else◌, ◌==◌, nat_eq, list_eq, Option-cases,
}
use pilatus.Base.Result.{Result, ok, err}
use pilatus.Json.{Json}
use pilatus.HashMap.{map_option}
use pilatus.OrdHashMap
use pilatus.OrdHashMap.Lookup.{get-insert, get-insert_self, insert_old, get-get_mut}
use pilatus.Recipe.Config.{
  DeviceId, DeviceConfig, no_committed_configuration_found, update_params_committed,
  update_params_uncommitted, restore_committed,
}
use pilatus.Recipe.Defs.{
  Recipe, unknown_device, device_exists, DeviceWithSameIdExists, add_device_with_id,
  update_device_params,
}

module _ {N : Type 0} where
  -- A run of uncommitted updates.
  unfoldable pub updates : List (Json N) → DeviceConfig N → DeviceConfig N
  updates [] c = c
  updates (p ∷ ps) c = updates ps (update_params_uncommitted c p)

  updates_keep :
      (ps : List (Json N)) (c : DeviceConfig N) (p : Json N)
      → c.committed_params ≡ some p
      → restore_committed (updates ps c) ≡ (record c { params = p; committed_params = none }, ok p)
  unfolding updates update_params_uncommitted restore_committed
  updates_keep [] c p h = rw h
  updates_keep (q ∷ ps) c p h = updates_keep ps (update_params_uncommitted c q) p (rw h)

  -- On a device without uncommitted parameters, `restore_committed` after one or more uncommitted
  -- updates brings back the device as it was.
  pub restore_committed-updates :
      (p : Json N) (ps : List (Json N)) (c : DeviceConfig N)
      → c.committed_params ≡ none
      → restore_committed (updates (p ∷ ps) c) ≡ (c, ok c.params)
  unfolding updates update_params_uncommitted
  restore_committed-updates p ps c h =
      updates_keep ps (update_params_uncommitted c p) c.params (rw h)
      ∙ ap (λ o. (record c { committed_params = o }, ok c.params)) (sym h)

  -- After a committed update, or a restoration, there is nothing to restore.
  pub restore_committed-update_params_committed :
      (c : DeviceConfig N) (p : Json N)
      → restore_committed (update_params_committed c p)
        ≡ (update_params_committed c p, err no_committed_configuration_found)
  unfolding restore_committed update_params_committed
  restore_committed-update_params_committed c p = refl

  -- `add_device_with_id` never panics. Under a new id it adds the device and changes no other
  -- lookup; under a taken id it fails, and every lookup stays as it was.
  pub add_device_with_id_lem :
      (r : Recipe N) (id : DeviceId) (device : DeviceConfig N)
      → (r' : Recipe N) × (res : Result DeviceWithSameIdExists (Unit {0})) × (add_device_with_id r
            id device
          ≡ some (r', res))
        × ((OrdHashMap.get id r.devices ≡ none)
              × (res ≡ ok tt)
              × ((j : DeviceId)
                  → OrdHashMap.get j r'.devices
                    ≡ (if id == j then some device else OrdHashMap.get j r.devices))
            ⊎ (OrdHashMap.get id r.devices ≢ none)
              × (res ≡ err (device_exists id))
              × ((j : DeviceId) → OrdHashMap.get j r'.devices ≡ OrdHashMap.get j r.devices))
  unfolding add_device_with_id
  add_device_with_id_lem r id device = elim (Option-cases (OrdHashMap.get id r.devices)) [
    | inl absent ↦ (
      record r { devices = (OrdHashMap.insert id device r.devices).0 },
      ok tt,
      ground (arith, insert_old id device r.devices, absent),
      inl (absent, refl, λ j. get-insert id j device r.devices),
    )
    | inr (x, present) ↦
        let first = (OrdHashMap.insert id device r.devices).0 in
        let back : (OrdHashMap.insert id x first).1 ≡ some device =
          insert_old id x first ∙ get-insert_self id device r.devices in
        (
          record r { devices = (OrdHashMap.insert id x first).0 },
          err (device_exists id),
          ground (arith, insert_old id device r.devices, present, back),
          inr (
            cc,
            refl,
            λ j. ground (arith, get-insert id j x first, get-insert id j device r.devices, present),
          ),
        )
  ]

  abbrev pub written : Bool → Json N → DeviceConfig N → DeviceConfig N
  written committed p d =
      if committed then update_params_committed d p else update_params_uncommitted d p

  -- `TransactionOptions::update_device_params` fails on an unknown device; else it writes the
  -- parameters of the named device, committed or not as the option says, and changes no other
  -- device and no tag.
  pub update_device_params_lem :
      (committed : Bool) (r : Recipe N) (id : DeviceId) (p : Json N)
      → ((OrdHashMap.get id r.devices ≡ none)
          × (update_device_params committed r id p ≡ err (unknown_device id)))
        ⊎ ((r' : Recipe N) × (update_device_params committed r id p ≡ ok r')
            × ((j : DeviceId)
                → OrdHashMap.get j r'.devices ≡ (
                    if id == j
                    then map_option (written committed p) (OrdHashMap.get j r.devices)
                    else OrdHashMap.get j r.devices))
            × (r'.tags ≡ r.tags))
  unfolding update_device_params
  update_device_params_lem true r id p = elim (Option-cases (OrdHashMap.get id r.devices)) [
    | inl absent ↦ inl (absent, ground (arith, absent))
    | inr (d, present) ↦ inr (
      record r { devices = OrdHashMap.get_mut id (λ d. update_params_committed d p) r.devices },
      ground (arith, present),
      λ j. get-get_mut id j _ r.devices,
      refl,
    )
  ]
  update_device_params_lem false r id p = elim (Option-cases (OrdHashMap.get id r.devices)) [
    | inl absent ↦ inl (absent, ground (arith, absent))
    | inr (d, present) ↦ inr (
      record r { devices = OrdHashMap.get_mut id (λ d. update_params_uncommitted d p) r.devices },
      ground (arith, present),
      λ j. get-get_mut id j _ r.devices,
      refl,
    )
  ]
