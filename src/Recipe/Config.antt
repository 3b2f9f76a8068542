-- ===== src/Recipe/Config.antt =====
-- device_config.rs: `DeviceConfig`, whose parameters may be changed without a commit.
use mathlib.Core.Bool.{and-eq-true_iff}
use pilatus.Base.{
  ℕ, ◌≡◌, refl, subst, ◌↔◌, Bool, true, ◌&&◌, Option, none, some, PartialEq, ◌==◌, nat_eq, list_eq,
  list_beq_iff, option_eq, option_beq_iff,
}
use pilatus.Base.Text.{Text}
use pilatus.Base.Result.{Result, ok, err}
use pilatus.Name.{Name}
use pilatus.Json.{Json, json_eq, json_beq_iff}

-- A device's id is a UUID, a number below 2 ^ 128 of which the program only compares and prints.
abbrev pub DeviceId : Type 0
DeviceId = ℕ

pub record DeviceConfig (N : Type 0) : Type 0 where
  pub device_type : Text
  pub device_name : Name
  pub params : Json N
  pub committed_params : Option (Json N)

pub data NoCommitted : Type 0 where
  no_committed_configuration_found : NoCommitted

module _ {N : Type 0} where
  -- `DeviceConfig::new`, given the serialized parameters.
  unfoldable pub new_config : Text → Name → Json N → DeviceConfig N
  new_config device_type device_name params = record {
    device_type = device_type;
    device_name = device_name;
    params = params;
    committed_params = none;
  }

  unfoldable pub with_name : DeviceConfig N → Name → DeviceConfig N
  with_name c name = record c { device_name = name }

  unfoldable pub update_params_committed : DeviceConfig N → Json N → DeviceConfig N
  update_params_committed c params = record c { params = params; committed_params = none }

  abbrev keep_first : Option (Json N) → Json N → Option (Json N)
  keep_first none params = some params
  keep_first (some p) params = some p

  unfoldable pub update_params_uncommitted : DeviceConfig N → Json N → DeviceConfig N
  update_params_uncommitted c params = record c {
    params = params;
    committed_params = keep_first c.committed_params c.params;
  }

  unfoldable pub restore_committed : DeviceConfig N → DeviceConfig N × Result NoCommitted (Json N)
  restore_committed c = elim c.committed_params [
    | some x ↦ (record c { params = x; committed_params = none }, ok x)
    | none ↦ (c, err no_committed_configuration_found)
  ]

module _ {N : Type 0} ⦃e : PartialEq N⦄ where
  abbrev pub config_beq : DeviceConfig N → DeviceConfig N → Bool
  config_beq a b =
      (a.device_type == b.device_type)
      && ((a.device_name == b.device_name)
          && ((a.params == b.params) && (a.committed_params == b.committed_params)))

  config_beq_sound : (a b : DeviceConfig N) → config_beq a b ≡ true → a ≡ b
  config_beq_sound a b h =
      let (p, h') = (and-eq-true_iff _ _).0 h in
      let (q, h'') = (and-eq-true_iff _ _).0 h' in
      let (r, s) = (and-eq-true_iff _ _).0 h'' in
      let p' = (list_beq_iff _ _).0 p in
      let q' = (list_beq_iff _ _).0 q in
      let r' = (json_beq_iff _ _).0 r in
      let s' = (option_beq_iff _ _).0 s in
      λ i. record { device_type = p' i; device_name = q' i; params = r' i; committed_params = s' i }

  config_beq_refl : (a : DeviceConfig N) → config_beq a a ≡ true
  config_beq_refl a =
      rw
        (
          (list_beq_iff a.device_type a.device_type).1 refl,
          (list_beq_iff a.device_name a.device_name).1 refl,
          (json_beq_iff a.params a.params).1 refl,
        )
        ((option_beq_iff a.committed_params a.committed_params).1 refl)

  pub config_beq_iff : (a b : DeviceConfig N) → (config_beq a b ≡ true) ↔ (a ≡ b)
  config_beq_iff a b =
      (config_beq_sound a b, λ p. subst (λ x. config_beq a x ≡ true) p (config_beq_refl a))

  instance abbrev pub config_eq : PartialEq (DeviceConfig N)
  config_eq = record { eq = config_beq; eq_iff = config_beq_iff }
