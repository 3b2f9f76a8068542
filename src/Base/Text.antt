-- ===== src/Base/Text.antt =====
-- Text as the list of its code points, and decimal numerals as Rust prints and parses them.
use Prim.Native.Char.{code}
use Prim.Native.String.{String}
use pilatus.Base.{
  ℕ, zero, suc, ◌+◌, ◌-◌, ◌*◌, ◌/◌, ◌%◌, ◌<◌, ◌≡◌, refl, ◌∙◌, Bool, true, ◌&&◌, Option, none, some,
  List, [], ◌∷◌, ◌++◌, arith, leb, ltb, if◌then◌else◌, All, All-append, inl, inr, Bool-cases,
}

abbrev pub Text : Type 0
Text = List ℕ

abbrev pub codes : String → Text
codes String.[] = []
codes (String.◌∷◌ first rest) = code first ∷ codes rest

abbrev pub is_digit : ℕ → Bool
is_digit c = leb b'0' c && leb c b'9'

-- The digits of a number, on fuel.
unfoldable pub print_from : ℕ → ℕ → Text
print_from zero n = []
print_from (suc f) n =
    let more = print_from f (n / 10) ++ (b'0' + n % 10) ∷ [] in
    if ltb n 10 then (b'0' + n) ∷ [] else more

-- A number is more than enough fuel for its own digits.
unfoldable pub print_ℕ : ℕ → Text
unfolding print_from
print_ℕ n = print_from (suc n) n

unfoldable pub parse_from : ℕ → Text → Option ℕ
parse_from acc [] = some acc
parse_from acc (c ∷ s) = if is_digit c then parse_from (acc * 10 + (c - b'0')) s else none

-- One more digit on a number that is parsed.
abbrev push_digit : Option ℕ → ℕ → Option ℕ
push_digit none c = none
push_digit (some n) c = if is_digit c then some (n * 10 + (c - b'0')) else none

parse_from-append :
    (acc : ℕ) (s : Text) (c : ℕ) → parse_from acc (s ++ c ∷ []) ≡ push_digit (parse_from acc s) c
unfolding parse_from
parse_from-append acc [] c = refl
parse_from-append acc (d ∷ s) c = ground (arith, parse_from-append (acc * 10 + (d - b'0')) s c)

parse_from-print_from : (f n : ℕ) → n < f → parse_from 0 (print_from f n) ≡ some n
unfolding print_from
parse_from-print_from zero n h = elim h [ ]
parse_from-print_from (suc f) n h = elim (Bool-cases (ltb n 10)) [
  | inl t ↦ rw t (unfold parse_from in ground arith)
  | inr t ↦ rw t (
      parse_from-append 0 (print_from f (n / 10)) (b'0' + n % 10)
      ∙ ground (arith, parse_from-print_from f (n / 10)))
]

-- Parsing the digits of a number gives the number.
pub parse_from-print_ℕ : (n : ℕ) → parse_from 0 (print_ℕ n) ≡ some n
unfolding print_ℕ
parse_from-print_ℕ n = parse_from-print_from (suc n) n (omega arith)

print_from-All_digits : (f n : ℕ) → All (λ c. is_digit c ≡ true) (print_from f n)
unfolding print_from
print_from-All_digits zero n = tt
print_from-All_digits (suc f) n = elim (Bool-cases (ltb n 10)) [
  | inl t ↦ rw t (ground arith, tt)
  | inr t ↦
      rw t (
        All-append _ (print_from f (n / 10)) _ (print_from-All_digits f (n / 10))
          (ground arith, tt))
]

pub print_ℕ-All_digits : (n : ℕ) → All (λ c. is_digit c ≡ true) (print_ℕ n)
unfolding print_ℕ
print_ℕ-All_digits n = print_from-All_digits (suc n) n

print_from_cons : (f n : ℕ) → (c : ℕ) × (s : Text) × (print_from (suc f) n ≡ c ∷ s)
unfolding print_from
print_from_cons f n = elim (Bool-cases (ltb n 10)) [
  | inl t ↦ (b'0' + n, [], rw t)
  | inr t ↦ rw t (go (print_from f (n / 10)))
]
  where
    go : (p : Text) → (c : ℕ) × (s : Text) × (p ++ (b'0' + n % 10) ∷ [] ≡ c ∷ s)
    go [] = (b'0' + n % 10, [], refl)
    go (d ∷ p) = (d, p ++ (b'0' + n % 10) ∷ [], refl)

-- A numeral has at least one digit.
pub print_ℕ_cons : (n : ℕ) → (c : ℕ) × (s : Text) × (print_ℕ n ≡ c ∷ s)
unfolding print_ℕ
print_ℕ_cons n = print_from_cons n n
