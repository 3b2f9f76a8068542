-- ===== src/Base/Result.antt =====
-- Rust's `Result`, with `?` as `>>=`.
use pilatus.Base.{◌≡◌, refl, ◌↔◌, ◌⊎◌, inl, inr}

pub data Result {ℓ κ} (E : Type ℓ) (A : Type κ) : Type (ℓ ⊔ κ) where
  ok : A → Result E A
  err : E → Result E A

infixl 5 ◌>>=◌
abbrev pub ◌>>=◌ {ℓ κ μ} :
    {E : Type ℓ} {A : Type κ} {B : Type μ} → Result E A → (A → Result E B) → Result E B
ok a >>= f = f a
err e >>= f = err e

-- `Result::map`
abbrev pub map_ok {ℓ κ μ} :
    {E : Type ℓ} {A : Type κ} {B : Type μ} → (A → B) → Result E A → Result E B
map_ok f (ok a) = ok (f a)
map_ok f (err e) = err e

pub Result-cases {ℓ κ} :
    {E : Type ℓ} {A : Type κ} (r : Result E A) → ((a : A) × (r ≡ ok a)) ⊎ ((e : E) × (r ≡ err e))
Result-cases (ok a) = inl (a, refl)
Result-cases (err e) = inr (e, refl)

abbrev pub IsOk {ℓ κ} : {E : Type ℓ} {A : Type κ} → Result E A → Type 0
IsOk (ok a) = Unit
IsOk (err e) = ⊥

module _ {ℓ κ} {E : Type ℓ} {A : Type κ} where
  pub IsOk-iff : (r : Result E A) → IsOk r ↔ ((a : A) × (r ≡ ok a))
  IsOk-iff (ok a) = (λ h. (a, refl), λ h. tt)
  IsOk-iff (err e) = (λ h. absurd h, λ h. absurd (cc h.1))

  pub IsOk-map_ok {μ} : {B : Type μ} (f : A → B) (r : Result E A) → IsOk (map_ok f r) ↔ IsOk r
  IsOk-map_ok f (ok a) = (λ h. h, λ h. h)
  IsOk-map_ok f (err e) = (λ h. h, λ h. h)

  -- A bind whose continuation fails only where `s` does.
  pub IsOk->>= {μ ν} :
      {B : Type μ} {C : Type ν} (r : Result E A) (s : Result E B) (f : A → B → C)
      → IsOk (r >>= λ a. map_ok (f a) s) ↔ (IsOk r × IsOk s)
  IsOk->>= (ok a) (ok b) f = (λ h. (tt, tt), λ h. tt)
  IsOk->>= (ok a) (err e) f = (λ h. absurd h, λ h. h.1)
  IsOk->>= (err e) s f = (λ h. absurd h, λ h. h.0)
