-- ===== src/Handler/Agree.antt =====
-- Which handler a type gets, and that spawning and validating a device agree.
use pilatus.Base.{
  ◌≡◌, ◌↔◌, refl, sym, ◌∙◌, ◌==◌, if◌then◌else◌, subst, Bool, true, false, Option, none, some, List,
  [], ◌∷◌, nat_eq, list_eq,
}
use pilatus.Base.Text.{Text}
use pilatus.Base.Result.{Result, ok, err}
use pilatus.Json.{Json}
use pilatus.HashMap
use pilatus.Service.{DeviceContext}
use pilatus.Handler.Defs.{
  UpdateParamsMessageError, WithInfallibleParamUpdate, DepDeviceHandler, DeviceHandler, map_err,
  start_device_error, transaction_error, spawned_with, validated_with, as_device_handler,
  DeviceSpawnerService, collect, new_service, get_spawner, spawn_by, validate_by, spawn, validate,
}

abbrev pub later_or : {A : Type 0} → Option A → Bool → A → Option A
later_or (some later) b h = some later
later_or none true h = some h
later_or none false h = none

later_or-or_else :
    {A : Type 0} (o : Option A) (b : Bool) (h : A) (x : Option A)
    → HashMap.or_else o (if b then some h else x) ≡ HashMap.or_else (later_or o b h) x
later_or-or_else none true h x = refl
later_or-or_else none false h x = refl
later_or-or_else (some later) b h x = refl

some_eq : {A : Type 0} {x y : A} → some x ≡ some y → x ≡ y
some_eq h = cc h

or_else-none : {A : Type 0} (o : Option A) → HashMap.or_else o none ≡ o
or_else-none none = refl
or_else-none (some a) = refl

module _ {N W : Type 0} where
  -- The handler of a type that was registered last.
  abbrev pub last_of : Text → List (DeviceHandler N W) → Option (DeviceHandler N W)
  last_of device_type [] = none
  last_of device_type (h ∷ devices) =
      later_or (last_of device_type devices) (h.get_device_type == device_type) h

  -- The registered handlers come from devices.
  pub data Registered : List (DeviceHandler N W) → Type 1 where
    nothing : Registered []
    registered :
        {P : Type 0} (h : DepDeviceHandler P N W) {devices : List (DeviceHandler N W)}
        → Registered devices
        → Registered (as_device_handler h ∷ devices)

  data Boxed : DeviceHandler N W → Type 1 where
    boxed : {P : Type 0} (h : DepDeviceHandler P N W) → Boxed (as_device_handler h)

  collected_lem :
      (device_type : Text) (map : DeviceSpawnerService N W) (devices : List (DeviceHandler N W))
      → HashMap.get device_type (collect map devices)
        ≡ HashMap.or_else (last_of device_type devices) (HashMap.get device_type map)
  collected_lem device_type map [] = refl
  collected_lem device_type map (h ∷ devices) =
      collected_lem device_type (HashMap.insert h.get_device_type h map) devices
      ∙ rw (HashMap.get-insert h.get_device_type device_type h map) (
          later_or-or_else (last_of device_type devices) (h.get_device_type == device_type) h
            (HashMap.get device_type map))

  -- claim
  pub get_spawner-new_service :
      (device_type : Text) (devices : List (DeviceHandler N W))
      → get_spawner device_type (new_service devices) ≡ last_of device_type devices
  unfolding get_spawner new_service HashMap.get
  get_spawner-new_service device_type devices =
      collected_lem device_type [] devices ∙ or_else-none (last_of device_type devices)

  Boxed-later_or :
      (o : Option (DeviceHandler N W)) (b : Bool) (d : DeviceHandler N W)
      → ((x : DeviceHandler N W) → o ≡ some x → Boxed x)
      → Boxed d
      → (h : DeviceHandler N W) → later_or o b d ≡ some h
      → Boxed h
  Boxed-later_or (some later) b d hyp box h q = hyp h q
  Boxed-later_or none true d hyp box h q = subst Boxed (some_eq q) box
  Boxed-later_or none false d hyp box h q = absurd (cc q)

  Boxed-last_of :
      (device_type : Text) (devices : List (DeviceHandler N W))
      → Registered devices
      → (h : DeviceHandler N W) → last_of device_type devices ≡ some h
      → Boxed h
  Boxed-last_of device_type _ nothing h q = absurd (cc q)
  Boxed-last_of device_type _ (registered d {devices} r) h q =
      Boxed-later_or (last_of device_type devices)
        ((as_device_handler d).get_device_type == device_type) (as_device_handler d)
        (Boxed-last_of device_type devices r) (boxed d) h q

  results_iff :
      {P : Type 0} (h : DepDeviceHandler P N W) (ctx : DeviceContext N) (u : Option (Json N))
      (r : W × Result UpdateParamsMessageError (WithInfallibleParamUpdate P N))
      → ((map_err start_device_error (spawned_with h ctx r)).1 ≡ ok u)
        ↔ ((map_err transaction_error (validated_with h ctx r)).1 ≡ ok u)
  results_iff h ctx u (w, ok v) = (λ q. cc q, λ q. cc q)
  results_iff h ctx u (w, err x) = (λ q. absurd (cc q), λ q. absurd (cc q))

  handler_iff :
      (h : DeviceHandler N W) (ctx : DeviceContext N) (u : Option (Json N)) (w : W)
      → Boxed h
      → ((spawn_by (some h) ctx w).1 ≡ ok u) ↔ ((validate_by (some h) ctx w).1 ≡ ok u)
  unfolding as_device_handler
  handler_iff h ctx u w (boxed d) = results_iff d ctx u (d.validator true ctx w)

  found_iff :
      (o : Option (DeviceHandler N W)) (ctx : DeviceContext N) (u : Option (Json N)) (w : W)
      → ((h : DeviceHandler N W) → o ≡ some h → Boxed h)
      → ((spawn_by o ctx w).1 ≡ ok u) ↔ ((validate_by o ctx w).1 ≡ ok u)
  found_iff none ctx u w box = (λ q. absurd (cc q), λ q. absurd (cc q))
  found_iff (some h) ctx u w box = handler_iff h ctx u w (box h refl)

  -- If the registered handlers are those of devices, spawning a device succeeds exactly if
  -- validating its parameters does, with the same migration of the parameters, for every type of
  -- device, unknown ones included.
  pub spawn-validate_iff :
      (devices : List (DeviceHandler N W)) (device_type : Text) (ctx : DeviceContext N)
      (u : Option (Json N)) (w : W)
      → Registered devices
      → ((spawn (new_service devices) device_type ctx w).1 ≡ ok u)
        ↔ ((validate (new_service devices) device_type ctx w).1 ≡ ok u)
  unfolding spawn validate
  spawn-validate_iff devices device_type ctx u w r =
      found_iff (get_spawner device_type (new_service devices)) ctx u w (λ h q.
        Boxed-last_of device_type devices r h
          (sym (get_spawner-new_service device_type devices) ∙ q))
