-- ===== src/Name/Defs.antt =====
-- `NameRaw::check`, `Name::new` and `Name::suggest_unique`. A name is the list of its code points;
-- `RecipeId` of name_wrapper.rs is a name behind an `Arc`.
use pilatus.Base.{
  ℕ, ◌+◌, Bool, false, ◌&&◌, ◌||◌, Option, none, some, List, [], ◌∷◌, ◌++◌, leb, ltb, nat_beq,
  if◌then◌else◌,
}
use pilatus.Base.Text.{Text, codes}
use pilatus.Base.Int.{ℤ, pos, add_ℕ, below_max, print_ℤ, parse_i32}

abbrev pub Name : Type 0
Name = Text

abbrev pub RecipeId : Type 0
RecipeId = Name

-- `RecipeId::default()`
abbrev pub default_id : RecipeId
default_id = codes "default"

-- The validation errors, in place of their messages.
pub data NameError : Type 0 where
  empty_name : NameError
  too_long : (len : ℕ) → NameError
  space_prefix space_suffix : NameError
  invalid_character : (c : ℕ) → NameError

-- The bytes of a code point in UTF-8.
abbrev pub utf8_len : ℕ → ℕ
utf8_len c = if ltb c 0x80 then 1 else if ltb c 0x800 then 2 else if ltb c 0x10000 then 3 else 4

-- `str::len`
abbrev pub byte_len : Text → ℕ
byte_len [] = 0
byte_len (c ∷ s) = utf8_len c + byte_len s

abbrev pub is_alphanumeric : ℕ → Bool
is_alphanumeric c =
    (leb b'a' c && leb c b'z') || (leb b'A' c && leb c b'Z') || (leb b'0' c && leb c b'9')

abbrev pub is_allowed : ℕ → Bool
is_allowed c =
    is_alphanumeric c || nat_beq c b'-' || nat_beq c b'_' || nat_beq c b' ' || nat_beq c b'.'

abbrev pub starts_with : ℕ → Text → Bool
starts_with c [] = false
starts_with c (d ∷ s) = nat_beq d c

abbrev pub ends_with : ℕ → Text → Bool
ends_with c [] = false
ends_with c (d ∷ []) = nat_beq d c
ends_with c (d ∷ d' ∷ s) = ends_with c (d' ∷ s)

abbrev pub length_errors : ℕ → List NameError
length_errors n = if nat_beq n 0 then empty_name ∷ [] else if leb n 30 then [] else too_long n ∷ []

abbrev pub character_errors : Text → List NameError
character_errors [] = []
character_errors (c ∷ s) =
    if is_allowed c then character_errors s else invalid_character c ∷ character_errors s

-- `NameRaw::check`: all errors, in the order in which they are appended; none is `Ok(())`.
unfoldable pub check : Text → List NameError
check name =
    length_errors (byte_len name)
    ++ ((if starts_with b' ' name then space_prefix ∷ [] else [])
        ++ ((if ends_with b' ' name then space_suffix ∷ [] else []) ++ character_errors name))

pub data NameResult : Type 0 where
  ok : Name → NameResult
  err : List NameError → NameResult

abbrev pub sealed : Text → List NameError → NameResult
sealed value [] = ok value
sealed value (e ∷ es) = err (e ∷ es)

-- `Name::new`, which seals a raw name.
unfoldable pub new : Text → NameResult
unfolding check
new value = sealed value (check value)

-- `str::rsplit_once`: the parts before and behind the last separator.
unfoldable pub rsplit_once : ℕ → Text → Option (Text × Text)
rsplit_once c [] = none
rsplit_once c (d ∷ s) = elim (rsplit_once c s) [
  | some (before, behind) ↦ some (d ∷ before, behind)
  | none ↦ if nat_beq d c then some ([], s) else none
]

-- The block at the head of `suggest_unique`: the number to start with, and the base name.
unfoldable pub base : Name → ℤ × Text
unfolding rsplit_once parse_i32
base name = elim (rsplit_once b'_' name) [
  | none ↦ (pos 1, name)
  | some (before, maybe_no) ↦ elim (parse_i32 maybe_no) [
    | none ↦ (pos 1, name)
    | some i ↦ (i, before)
  ]
]

abbrev pub numbered : Text → ℤ → Name
numbered base_name n = base_name ++ b'_' ∷ print_ℤ n

-- The item number `k` of `suggest_unique`. The range's next value is computed with the item, so
-- there is none where that value is no `i32` (a panic where overflow is checked).
unfoldable pub suggest_unique : Name → ℕ → Option Name
unfolding base print_ℤ
suggest_unique name k =
    let (base_number, base_name) = base name in
    let n = add_ℕ base_number k in if below_max n then some (numbered base_name n) else none
