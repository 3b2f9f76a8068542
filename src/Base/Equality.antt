-- ===== src/Base/Equality.antt =====
-- `PartialEq` as an interface: a Boolean test that decides equality.
use Prim.Native.Nat.{ℕ}
use mathlib.Core.Path.{◌≡◌, refl}
use mathlib.Core.Logic.{◌≢◌, ◌↔◌, ◌⊎◌, inl, inr}
use mathlib.Core.Bool.{Bool, true, false, ◌&&◌}
use mathlib.Core.Option.{Option, none, some}
use mathlib.Core.List.{List, [], ◌∷◌}
use native.Mathlib.Omega.{arith}
use pilatus.Base.Tests.{nat_beq, nat_beq_iff, Bool-cases}

pub record PartialEq {ℓ} (T : Type ℓ) : Type ℓ where
  pub eq : T → T → Bool
  pub eq_iff : (x y : T) → (eq x y ≡ true) ↔ (x ≡ y)

-- `x == y`, by the instance in scope.
infix 50 ◌==◌
abbrev pub ◌==◌ {ℓ} : {T : Type ℓ} ⦃inst : PartialEq T⦄ → (x y : T) → Bool
◌==◌ ⦃inst⦄ x y = inst.eq x y

module _ {ℓ} {A : Type ℓ} ⦃e : PartialEq A⦄ where
  pub eq_refl : (a : A) → (a == a) ≡ true
  eq_refl a = (e.eq_iff a a).1 refl

  pub eq_of_test : (a b : A) → (a == b) ≡ true → a ≡ b
  eq_of_test a b = (e.eq_iff a b).0

  pub ne_of_test : (a b : A) → (a == b) ≡ false → a ≢ b
  ne_of_test a b h p = cc (h, (e.eq_iff a b).1 p)

  pub test_of_ne : (a b : A) → a ≢ b → (a == b) ≡ false
  test_of_ne a b h = elim (Bool-cases (a == b)) [
    | inl t ↦ absurd (h (eq_of_test a b t))
    | inr f ↦ f
  ]

  pub eq-cases : (a b : A) → (a ≡ b) ⊎ (a ≢ b)
  eq-cases a b = elim (Bool-cases (a == b)) [
    | inl t ↦ inl (eq_of_test a b t)
    | inr f ↦ inr (ne_of_test a b f)
  ]

-- Lists, element by element.
module _ {ℓ} {A : Type ℓ} ⦃e : PartialEq A⦄ where
  abbrev pub list_beq : List A → List A → Bool
  list_beq [] [] = true
  list_beq [] (b ∷ bs) = false
  list_beq (a ∷ as') [] = false
  list_beq (a ∷ as') (b ∷ bs) = e.eq a b && list_beq as' bs

  pub list_beq_iff : (xs ys : List A) → (list_beq xs ys ≡ true) ↔ (xs ≡ ys)
  list_beq_iff [] [] = ground arith
  list_beq_iff [] (b ∷ bs) = ground arith
  list_beq_iff (a ∷ xs) [] = ground arith
  list_beq_iff (a ∷ xs) (b ∷ ys) = ground (arith, e.eq_iff a b, list_beq_iff xs ys)

  instance abbrev pub list_eq : PartialEq (List A)
  list_eq = record { eq = list_beq; eq_iff = list_beq_iff }

  abbrev pub option_beq : Option A → Option A → Bool
  option_beq none none = true
  option_beq none (some b) = false
  option_beq (some a) none = false
  option_beq (some a) (some b) = e.eq a b

  pub option_beq_iff : (x y : Option A) → (option_beq x y ≡ true) ↔ (x ≡ y)
  option_beq_iff none none = ground arith
  option_beq_iff none (some b) = ground arith
  option_beq_iff (some a) none = ground arith
  option_beq_iff (some a) (some b) = ground (arith, e.eq_iff a b)

  instance abbrev pub option_eq : PartialEq (Option A)
  option_eq = record { eq = option_beq; eq_iff = option_beq_iff }

module _ {ℓ κ} {A : Type ℓ} {B : Type κ} ⦃e : PartialEq A⦄ ⦃f : PartialEq B⦄ where
  abbrev pub pair_beq : A × B → A × B → Bool
  pair_beq (a, b) (c, d) = e.eq a c && f.eq b d

  pub pair_beq_iff : (x y : A × B) → (pair_beq x y ≡ true) ↔ (x ≡ y)
  pair_beq_iff (a, b) (c, d) = ground (arith, e.eq_iff a c, f.eq_iff b d)

  instance abbrev pub pair_eq : PartialEq (A × B)
  pair_eq = record { eq = pair_beq; eq_iff = pair_beq_iff }

instance abbrev pub nat_eq : PartialEq ℕ
nat_eq = record { eq = nat_beq; eq_iff = nat_beq_iff }
