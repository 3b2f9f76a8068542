-- ===== src/Base/Int.antt =====
-- Signed integers over the native numbers, with the library's names, and `i32`.
use pilatus.Base.{
  ℕ, zero, suc, ◌+◌, ◌-◌, ◌≡◌, refl, ap, ◌≢◌, ◌≤◌, Bool, true, false, Option, none, some, [], ◌∷◌,
  arith, leb, ltb, nat_beq, if◌then◌else◌, All,
}
use pilatus.Base.Text.{
  Text, print_ℕ, parse_from, parse_from-print_ℕ, print_ℕ-All_digits, print_ℕ_cons, is_digit,
}

-- `negsuc n` is -(n + 1).
pub data ℤ : Type 0 where
  pos : ℕ → ℤ
  negsuc : ℕ → ℤ

abbrev pub add_ℕ : ℤ → ℕ → ℤ
add_ℕ (pos n) k = pos (n + k)
add_ℕ (negsuc n) k = if leb k n then negsuc (n - k) else pos (k - n - 1)

abbrev pub i32_max : ℕ
i32_max = 2147483647

-- The values below `i32::MAX`.
abbrev pub below_max : ℤ → Bool
below_max (pos n) = ltb n i32_max
below_max (negsuc n) = true

-- `Display` of an integer.
unfoldable pub print_ℤ : ℤ → Text
print_ℤ (pos n) = print_ℕ n
print_ℤ (negsuc n) = b'-' ∷ print_ℕ (suc n)

abbrev digits : Text → Option ℕ
digits [] = none
digits (c ∷ s) = parse_from 0 (c ∷ s)

abbrev to_positive : Option ℕ → Option ℤ
to_positive none = none
to_positive (some n) = if leb n i32_max then some (pos n) else none

abbrev negate : ℕ → ℤ
negate zero = pos 0
negate (suc n) = negsuc n

abbrev to_negative : Option ℕ → Option ℤ
to_negative none = none
to_negative (some n) = if leb n (i32_max + 1) then some (negate n) else none

-- `str::parse::<i32>`
unfoldable pub parse_i32 : Text → Option ℤ
parse_i32 [] = none
parse_i32 (c ∷ s) =
    if nat_beq c b'+'
    then to_positive (digits s)
    else if nat_beq c b'-'
    then to_negative (digits s)
    else to_positive (parse_from 0 (c ∷ s))

abbrev pub InI32 : ℤ → Type 0
InI32 (pos n) = n ≤ i32_max
InI32 (negsuc n) = n ≤ i32_max

digits-print_ℕ : (n : ℕ) → digits (print_ℕ n) ≡ some n
digits-print_ℕ n = let (c, s, e) = print_ℕ_cons n in rw (e, digits) (rw e at (parse_from-print_ℕ n))

-- Every `i32` is parsed back from its numeral.
pub parse_i32-print_ℤ : (z : ℤ) → InI32 z → parse_i32 (print_ℤ z) ≡ some z
unfolding parse_i32 print_ℤ
parse_i32-print_ℤ (pos n) h =
    let (c, s, e) = print_ℕ_cons n in
    let digit = rw e at (print_ℕ-All_digits n) in
    let value = rw e at (parse_from-print_ℕ n) in rw e (ground (arith, digit.0))
parse_i32-print_ℤ (negsuc n) h = ground (arith, digits-print_ℕ (suc n))

-- Different integers have different numerals.
pub print_ℤ-injective : (a b : ℤ) → print_ℤ a ≡ print_ℤ b → a ≡ b
unfolding print_ℤ
print_ℤ-injective (pos n) (pos m) h =
    ground (arith, parse_from-print_ℕ n, parse_from-print_ℕ m, ap (parse_from 0) h)
print_ℤ-injective (pos n) (negsuc m) h =
    let (c, s, e) = print_ℕ_cons n in
    let digit = rw e at (print_ℕ-All_digits n) in
    let head : c ≡ b'-' = ground (arith, h, e) in absurd (ground (arith, digit.0))
print_ℤ-injective (negsuc n) (pos m) h =
    let (c, s, e) = print_ℕ_cons m in
    let digit = rw e at (print_ℕ-All_digits m) in
    let head : c ≡ b'-' = ground (arith, h, e) in absurd (ground (arith, digit.0))
print_ℤ-injective (negsuc n) (negsuc m) h =
    let tails : print_ℕ (suc n) ≡ print_ℕ (suc m) = cc in
    ground (arith, parse_from-print_ℕ (suc n), parse_from-print_ℕ (suc m), ap (parse_from 0) tails)

-- Distinct offsets give distinct integers.
pub add_ℕ-injective : (z : ℤ) (j k : ℕ) → add_ℕ z j ≡ add_ℕ z k → j ≡ k
add_ℕ-injective (pos n) j k h = ground arith
add_ℕ-injective (negsuc n) j k h = ground arith

All-ne_of_digits :
    (c : ℕ) (s : Text) → is_digit c ≡ false → All (λ d. is_digit d ≡ true) s → All (λ d. d ≢ c) s
All-ne_of_digits c [] n h = tt
All-ne_of_digits c (d ∷ s) n (p, h) = ((λ e. cc (n, p, ap is_digit e)), All-ne_of_digits c s n h)

-- A numeral holds no underscore.
pub print_ℤ-All_ne : (z : ℤ) → All (λ d. d ≢ b'_') (print_ℤ z)
unfolding print_ℤ
print_ℤ-All_ne (pos n) = All-ne_of_digits b'_' (print_ℕ n) refl (print_ℕ-All_digits n)
print_ℤ-All_ne (negsuc n) =
    (omega arith, All-ne_of_digits b'_' (print_ℕ (suc n)) refl (print_ℕ-All_digits (suc n)))
