-- ===== src/Base/Lists.antt =====
-- Lists with native lengths, and predicates on all elements.
use Prim.Native.Nat.{ℕ, zero, suc, ◌+◌, ◌≤◌}
use mathlib.Core.Path.{◌≡◌, refl, ap, ◌∙◌, sym}
use mathlib.Core.Bool.{Bool, true, false, ◌&&◌, ◌||◌}
use mathlib.Core.Option.{Option, none, some}
use mathlib.Core.List.{List, [], ◌∷◌, ◌++◌}
use native.Mathlib.Omega.{arith}
use pilatus.Base.Tests.{if◌then◌else◌}

module _ {ℓ} {A : Type ℓ} where
  abbrev pub length : List A → ℕ
  length [] = 0
  length (x ∷ xs) = suc (length xs)

  abbrev pub filter : (A → Bool) → List A → List A
  filter p [] = []
  filter p (x ∷ xs) = if p x then x ∷ filter p xs else filter p xs

  abbrev pub any : (A → Bool) → List A → Bool
  any p [] = false
  any p (x ∷ xs) = p x || any p xs

  abbrev pub all : (A → Bool) → List A → Bool
  all p [] = true
  all p (x ∷ xs) = p x && all p xs

  pub length-append : (xs ys : List A) → length (xs ++ ys) ≡ length xs + length ys
  length-append [] ys = omega arith
  length-append (x ∷ xs) ys = omega (arith, length-append xs ys)

module _ {ℓ} {A : Type ℓ} where
  abbrev pub get_elem? : List A → ℕ → Option A
  get_elem? [] k = none
  get_elem? (x ∷ xs) zero = some x
  get_elem? (x ∷ xs) (suc k) = get_elem? xs k

  pub get_elem?-append :
      (xs ys : List A) (k : ℕ) (c : A) → get_elem? xs k ≡ some c → get_elem? (xs ++ ys) k ≡ some c
  get_elem?-append [] ys k c h = absurd (cc h)
  get_elem?-append (d ∷ xs) ys zero c h = h
  get_elem?-append (d ∷ xs) ys (suc k) c h = get_elem?-append xs ys k c h

  pub get_elem?-behind :
      (xs ys : List A) (k : ℕ) → get_elem? (xs ++ ys) (length xs + k) ≡ get_elem? ys k
  get_elem?-behind [] ys k = let e : 0 + k ≡ k = omega arith in ap (get_elem? ys) e
  get_elem?-behind (d ∷ xs) ys k =
      let e : length (d ∷ xs) + k ≡ suc (length xs + k) = omega arith in
      ap (get_elem? (d ∷ (xs ++ ys))) e ∙ get_elem?-behind xs ys k

module _ {ℓ} {A : Type ℓ} where
  abbrev pub take : ℕ → List A → List A
  take zero xs = []
  take (suc n) [] = []
  take (suc n) (x ∷ xs) = x ∷ take n xs

  abbrev pub drop : ℕ → List A → List A
  drop zero xs = xs
  drop (suc n) [] = []
  drop (suc n) (x ∷ xs) = drop n xs

  pub take_all : (xs : List A) → take (length xs) xs ≡ xs
  take_all [] = refl
  take_all (x ∷ xs) = ap (λ ys. x ∷ ys) (take_all xs)

  pub drop_all : (xs : List A) → drop (length xs) xs ≡ []
  drop_all [] = refl
  drop_all (x ∷ xs) = drop_all xs

  pub take-append-drop : (n : ℕ) (xs : List A) → take n xs ++ drop n xs ≡ xs
  take-append-drop zero xs = refl
  take-append-drop (suc n) [] = refl
  take-append-drop (suc n) (x ∷ xs) = ap (λ ys. x ∷ ys) (take-append-drop n xs)

  pub length-take : (n : ℕ) (xs : List A) → n ≤ length xs → length (take n xs) ≡ n
  length-take zero xs h = refl
  length-take (suc n) [] h = absurd (omega (arith, h))
  length-take (suc n) (x ∷ xs) h = ap suc (length-take n xs (omega (arith, h)))

  pub length-drop : (n : ℕ) (xs : List A) → n ≤ length xs → n + length (drop n xs) ≡ length xs
  length-drop zero xs h = omega arith
  length-drop (suc n) [] h = absurd (omega (arith, h))
  length-drop (suc n) (x ∷ xs) h = omega (arith, length-drop n xs (omega (arith, h)))

  pub drop-add : (m n : ℕ) (xs : List A) → drop (m + n) xs ≡ drop n (drop m xs)
  drop-add zero n xs = let e : 0 + n ≡ n = omega arith in ap (λ k. drop k xs) e
  drop-add (suc m) n [] =
      let e : suc m + n ≡ suc (m + n) = omega arith in ap (λ k. drop k []) e ∙ sym (drop_empty n)
    where
      drop_empty : (k : ℕ) → drop k [] ≡ []
      drop_empty zero = refl
      drop_empty (suc k) = refl
  drop-add (suc m) n (x ∷ xs) =
      let e : suc m + n ≡ suc (m + n) = omega arith in ap (λ k. drop k (x ∷ xs)) e ∙ drop-add m n xs

module _ {ℓ κ} {A : Type ℓ} (P : A → Type κ) where
  abbrev pub All : List A → Type κ
  All [] = Unit
  All (x ∷ xs) = P x × All xs

  pub All-append : (xs ys : List A) → All xs → All ys → All (xs ++ ys)
  All-append [] ys h k = k
  All-append (x ∷ xs) ys (p, h) k = (p, All-append xs ys h k)

  pub All-filter : (q : A → Bool) (xs : List A) → All xs → All (filter q xs)
  All-filter q [] h = tt
  All-filter q (x ∷ xs) (p, h) = go (q x) (All-filter q xs h)
    where
      go : (b : Bool) → All (filter q xs) → All (if b then x ∷ filter q xs else filter q xs)
      go true k = (p, k)
      go false k = k

pub All-map {ℓ κ} :
    {A : Type ℓ} {P Q : A → Type κ} → ((x : A) → P x → Q x) → (xs : List A) → All P xs → All Q xs
All-map f [] h = tt
All-map f (x ∷ xs) (p, h) = (f x p, All-map f xs h)
