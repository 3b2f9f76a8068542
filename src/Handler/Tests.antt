-- ===== src/Handler/Tests.antt =====
-- Two devices of one type: the later one stands for it. It takes any parameters.
use pilatus.Base.{ℕ, ◌≡◌, ◌↔◌, List, [], ◌∷◌, none, nat_eq, list_eq}
use pilatus.Base.Text.{codes}
use pilatus.Base.Result.{ok, err}
use pilatus.Json.{number}
use pilatus.Service.{DeviceContext}
use pilatus.Handler.Defs.{
  DepDeviceHandler, DeviceHandler, invalid_format, as_device_handler, new_service, spawn, validate,
}
use pilatus.Handler.Agree.{nothing, registered, spawn-validate_iff}

abbrev strict : DepDeviceHandler ℕ ℕ (Unit {0})
strict = record {
  device_type = codes "camera";
  validator = λ repair ctx w. (w, err invalid_format);
  handler = λ ctx p w. w;
  ask = λ id p w. (w, ok tt);
}

abbrev lenient : DepDeviceHandler ℕ ℕ (Unit {0})
lenient = record strict {
  validator = λ repair ctx w. (w, ok (record { data_of = 1; update = none }));
}

abbrev cameras : List (DeviceHandler ℕ (Unit {0}))
cameras = as_device_handler strict ∷ as_device_handler lenient ∷ []

abbrev context : DeviceContext ℕ
context = record { id = 3; variables = []; params_with_vars = number 8 }

spawn-validate_iff_example :
    ((spawn (new_service cameras) (codes "camera") context tt).1 ≡ ok none)
    ↔ ((validate (new_service cameras) (codes "camera") context tt).1 ≡ ok none)
spawn-validate_iff_example =
    spawn-validate_iff cameras (codes "camera") context none tt
      (registered strict (registered lenient nothing))
