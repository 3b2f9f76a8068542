-- ===== src/Image/Hash.antt =====
-- pilatus-engineering/src/image/stable_hash.rs: hashes, written as 16 hexadecimal digits.
use pilatus.Base.{
  ℕ, zero, suc, ◌+◌, ◌-◌, ◌*◌, ◌/◌, ◌%◌, ◌^◌, ◌≡◌, ◌≤◌, ◌<◌, refl, ap, ◌∙◌, true, false, ◌&&◌,
  Option, none, some, List, [], ◌∷◌, ◌++◌, if◌then◌else◌, ◌==◌, nat_eq, length, ltb, leb, arith,
}
use pilatus.Base.Text.{Text}
use pilatus.Base.Result.{Result, ok, err, ◌>>=◌}

abbrev pub StableHash : Type 0
StableHash = ℕ

pub data StableHashChangeState : Type 0 where
  never_had_hash new_hash_changed_to_none same_hash : StableHashChangeState
  new_hash_doesnt_match : StableHash → StableHashChangeState

unfoldable pub get_change_state : Option StableHash → Option StableHash → StableHashChangeState
get_change_state none other = never_had_hash
get_change_state (some x) none = new_hash_changed_to_none
get_change_state (some x) (some y) = if x == y then same_hash else new_hash_doesnt_match y

unfoldable pub get_warning : StableHashChangeState → Option StableHashChangeState
get_warning never_had_hash = none
get_warning new_hash_changed_to_none = some new_hash_changed_to_none
get_warning (new_hash_doesnt_match y) = some (new_hash_doesnt_match y)
get_warning same_hash = none

-- `to_le_bytes`, of `n` bytes.
abbrev pub to_le_bytes : ℕ → ℕ → List ℕ
to_le_bytes zero x = []
to_le_bytes (suc n) x = x % 256 ∷ to_le_bytes n (x / 256)

abbrev pub reversed : List ℕ → List ℕ
reversed [] = []
reversed (b ∷ bytes) = reversed bytes ++ b ∷ []

-- `char::from_digit` of a digit below 16.
abbrev pub from_digit : ℕ → ℕ
from_digit d = if ltb d 10 then 48 + d else 87 + d

-- The two digits of each byte: `byte >> 4` and `(byte << 4) >> 4`.
abbrev pub write_bytes : List ℕ → Text
write_bytes [] = []
write_bytes (byte ∷ bytes) =
    from_digit (byte / 16) ∷ from_digit (byte * 16 % 256 / 16) ∷ write_bytes bytes

unfoldable pub format_hex : StableHash → Text
format_hex hash = write_bytes (reversed (to_le_bytes 8 hash))

-- `char::to_digit` with radix 16.
abbrev pub to_digit : ℕ → Option ℕ
to_digit c =
    if leb 48 c && leb c 57
    then some (c - 48)
    else (if leb 97 c && leb c 102
        then some (c - 87)
        else (if leb 65 c && leb c 70 then some (c - 55) else none))

pub data HashError : Type 0 where
  empty_number invalid_digit too_large zero_hash : HashError

abbrev pub digit_read : ℕ → Option ℕ → Result HashError ℕ
digit_read acc none = err invalid_digit
digit_read acc (some d) = if ltb (acc * 16 + d) (2 ^ 64) then ok (acc * 16 + d) else err too_large

abbrev pub read_digits : ℕ → Text → Result HashError ℕ
read_digits acc [] = ok acc
read_digits acc (c ∷ text) = digit_read acc (to_digit c) >>= λ a. read_digits a text

-- `u64::from_str_radix` with radix 16, which skips a plus sign before a digit.
abbrev pub from_str_radix : Text → Result HashError ℕ
from_str_radix [] = err empty_number
from_str_radix (c ∷ []) = read_digits 0 (c ∷ [])
from_str_radix (c ∷ d ∷ text) =
    if c == 43 then read_digits 0 (d ∷ text) else read_digits 0 (c ∷ d ∷ text)

abbrev pub non_zero : ℕ → Result HashError StableHash
non_zero num = if num == 0 then err zero_hash else ok num

unfoldable pub deserialize_hash : Text → Result HashError StableHash
deserialize_hash text = from_str_radix text >>= non_zero

to_digit-from_digit : (d : ℕ) → d < 16 → to_digit (from_digit d) ≡ some d
to_digit-from_digit d h = ground arith

read_digits-append :
    (acc : ℕ) (xs ys : Text)
    → read_digits acc (xs ++ ys) ≡ (read_digits acc xs >>= λ a. read_digits a ys)
read_digits-append acc [] ys = refl
read_digits-append acc (c ∷ xs) ys =
    go (digit_read acc (to_digit c)) (λ a. read_digits-append a xs ys)
  where
    go :
        (r : Result HashError ℕ)
        → ((a : ℕ) → read_digits a (xs ++ ys) ≡ (read_digits a xs >>= λ b. read_digits b ys))
        → (r >>= λ a. read_digits a (xs ++ ys))
          ≡ (r >>= (λ a. read_digits a xs) >>= λ a. read_digits a ys)
    go (ok a) h = h a
    go (err e) h = refl

write_bytes-snoc :
    (bytes : List ℕ) (b : ℕ)
    → write_bytes (bytes ++ b ∷ []) ≡ write_bytes bytes ++ write_bytes (b ∷ [])
write_bytes-snoc [] b = refl
write_bytes-snoc (c ∷ bytes) b =
    ap (λ t. from_digit (c / 16) ∷ from_digit (c * 16 % 256 / 16) ∷ t) (write_bytes-snoc bytes b)

digit_read-ok :
    (acc d : ℕ)
    → d < 16
    → acc * 16 + d < 2 ^ 64
    → digit_read acc (to_digit (from_digit d)) ≡ ok (acc * 16 + d)
digit_read-ok acc d small bound =
    let fits : ltb (acc * 16 + d) (2 ^ 64) ≡ true = ground (arith, bound) in
    ap (digit_read acc) (to_digit-from_digit d small)
    ∙ ap (λ b. if b then ok (acc * 16 + d) else err too_large) fits

read_digits-write_bytes :
    (acc b : ℕ)
    → b < 256
    → acc * 256 + b < 2 ^ 64
    → read_digits acc (write_bytes (b ∷ [])) ≡ ok (acc * 256 + b)
read_digits-write_bytes acc b small bound =
    let hi = b / 16 in
    let lo = b * 16 % 256 / 16 in
    let e : (acc * 16 + hi) * 16 + lo ≡ acc * 256 + b = omega (arith, small) in
    ap (λ r. r >>= λ a. digit_read a (to_digit (from_digit lo)) >>= λ a'. read_digits a' [])
      (digit_read-ok acc hi (omega (arith, small)) (omega (arith, small, bound)))
    ∙ ap (λ r. r >>= λ a'. read_digits a' [])
        (digit_read-ok (acc * 16 + hi) lo (omega (arith, small)) (omega (arith, e, bound)))
    ∙ ap ok e

-- `256 ^ n`
abbrev limit : ℕ → ℕ
limit zero = 1
limit (suc n) = limit n * 256

read_bytes :
    (n x : ℕ)
    → x < limit n
    → x < 2 ^ 64
    → read_digits 0 (write_bytes (reversed (to_le_bytes n x))) ≡ ok x
read_bytes zero x h bound = ap ok (omega (arith, h))
read_bytes (suc n) x h bound =
    let high = x / 256 in
    let bytes : List ℕ = reversed (to_le_bytes n high) in
    let low = x % 256 in
    let whole : high * 256 + low ≡ x = omega arith in
    ap (read_digits 0) (write_bytes-snoc bytes low)
    ∙ read_digits-append 0 (write_bytes bytes) (write_bytes (low ∷ []))
    ∙ ap (λ r. r >>= λ a. read_digits a (write_bytes (low ∷ [])))
        (read_bytes n high (omega (arith, h)) (omega (arith, bound)))
    ∙ read_digits-write_bytes high low (omega arith) (omega (arith, whole, bound))
    ∙ ap ok whole

no_sign : (d : ℕ) → (from_digit d == 43) ≡ false
no_sign d = ground arith

unsigned :
    (bytes : List ℕ)
    → 1 ≤ length bytes
    → from_str_radix (write_bytes bytes) ≡ read_digits 0 (write_bytes bytes)
unsigned [] h = absurd (omega (arith, h))
unsigned (b ∷ bytes) h = rw (no_sign (b / 16)) refl

-- A hash, which is a number below 2 ^ 64 and not 0, is written as 16 digits, and these are read
-- back as the hash.
pub deserialize_hash-format_hex :
    (hash : StableHash)
    → 1 ≤ hash
    → hash < 2 ^ 64
    → (length (format_hex hash) ≡ 16) × (deserialize_hash (format_hex hash) ≡ ok hash)
unfolding format_hex deserialize_hash
deserialize_hash-format_hex hash some_bit bound =
    let not_zero : (hash == 0) ≡ false = ground (arith, some_bit) in
    (
      refl,
      ap (λ r. r >>= non_zero) (unsigned (reversed (to_le_bytes 8 hash)) (omega arith))
          ∙ ap (λ r. r >>= non_zero) (read_bytes 8 hash bound bound)
          ∙ ap (λ b. if b then err zero_hash else ok hash) not_zero,
    )
