-- ===== src/Recipe/Defs.antt =====
-- recipe.rs: `Recipe`, `RecipeMetadataRaw::check`, and the options of service.rs by which a
-- transaction writes parameters. A `none` is a panic of an `expect`.
use pilatus.Base.{
  ℕ, Bool, Option, none, some, List, [], ◌∷◌, if◌then◌else◌, ◌==◌, nat_eq, list_eq, any,
}
use pilatus.Base.Result.{Result, ok, err}
use pilatus.Name.{Name}
use pilatus.Json.{Json}
use pilatus.OrdHashMap
use pilatus.OrdHashMap.{OrdHashMap}
use pilatus.Recipe.Config.{
  DeviceId, DeviceConfig, update_params_committed, update_params_uncommitted,
}

pub record Recipe (N : Type 0) : Type 0 where
  pub created : ℕ
  pub tags : List Name
  pub devices : OrdHashMap DeviceId (DeviceConfig N)

pub data UnknownDeviceError : Type 0 where
  unknown_device : DeviceId → UnknownDeviceError

pub data DeviceWithSameIdExists : Type 0 where
  device_exists : DeviceId → DeviceWithSameIdExists

-- `RecipeMetadataRaw::check`: the tags that stand a second time, in order.
unfoldable pub repeated_tags : List Name → List Name → List Name
repeated_tags seen [] = []
repeated_tags seen (tag ∷ tags) =
    let fresh = repeated_tags (tag ∷ seen) tags in
    let again = tag ∷ repeated_tags seen tags in if any (λ t. t == tag) seen then again else fresh

unfoldable pub check_metadata : List Name → List Name
unfolding repeated_tags
check_metadata tags = repeated_tags [] tags

module _ {N : Type 0} where
  -- `Recipe::default`, at the time `now`.
  unfoldable pub default_recipe : ℕ → Recipe N
  default_recipe now = record { created = now; tags = []; devices = [] }

  unfoldable pub has_device : Recipe N → DeviceId → Bool
  has_device r id = OrdHashMap.contains_key id r.devices

  unfoldable pub device_by_id : Recipe N → DeviceId → Result UnknownDeviceError (DeviceConfig N)
  device_by_id r id = elim (OrdHashMap.get id r.devices) [
    | some d ↦ ok d
    | none ↦ err (unknown_device id)
  ]

  -- A write through `device_by_id_mut`.
  unfoldable pub device_by_id_mut :
      Recipe N → DeviceId → (DeviceConfig N → DeviceConfig N) → Result UnknownDeviceError (Recipe N)
  device_by_id_mut r id f = elim (OrdHashMap.get id r.devices) [
    | some d ↦ ok (record r { devices = OrdHashMap.get_mut id f r.devices })
    | none ↦ err (unknown_device id)
  ]

  unfoldable pub count_devices : Recipe N → ℕ
  count_devices r = OrdHashMap.len r.devices

  -- `add_device`, with the id that `new_v4` draws.
  unfoldable pub add_device : Recipe N → DeviceId → DeviceConfig N → Recipe N
  add_device r id device = record r { devices = (OrdHashMap.insert id device r.devices).0 }

  -- The old device is put back by a second insertion.
  unfoldable pub add_device_with_id :
      Recipe N
      → DeviceId
      → DeviceConfig N
      → Option (Recipe N × Result DeviceWithSameIdExists (Unit {0}))
  add_device_with_id r id device =
      let (devices, previous) = OrdHashMap.insert id device r.devices in
      elim previous [
        | some x ↦
            let (devices', added) = OrdHashMap.insert id x devices in
            elim added [
              | some d ↦ some (record r { devices = devices' }, err (device_exists id))
              | none ↦ none
            ]
        | none ↦ some (record r { devices = devices }, ok tt)
      ]

  unfoldable pub update_device_params_committed :
      Recipe N → DeviceId → Json N → Result UnknownDeviceError (Recipe N)
  unfolding device_by_id_mut update_params_committed
  update_device_params_committed r id params =
      device_by_id_mut r id (λ d. update_params_committed d params)

  unfoldable pub update_device_params_uncommitted :
      Recipe N → DeviceId → Json N → Result UnknownDeviceError (Recipe N)
  unfolding device_by_id_mut update_params_uncommitted
  update_device_params_uncommitted r id params =
      device_by_id_mut r id (λ d. update_params_uncommitted d params)

  -- `TransactionOptions::update_device_params`, by the option `committed`.
  unfoldable pub update_device_params :
      Bool → Recipe N → DeviceId → Json N → Result UnknownDeviceError (Recipe N)
  unfolding update_device_params_committed update_device_params_uncommitted
  update_device_params committed r id params =
      if committed
      then update_device_params_committed r id params
      else update_device_params_uncommitted r id params
