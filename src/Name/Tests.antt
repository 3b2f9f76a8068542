-- ===== src/Name/Tests.antt =====
-- The names of the source's own tests, and the theorems at concrete inputs.
use pilatus.Base.{◌≡◌, ◌↔◌, refl, some, none, [], ◌∷◌, arith, All, true}
use pilatus.Base.Text.{Text, codes, print_from, print_ℕ, parse_from}
use pilatus.Base.Int.{print_ℤ, parse_i32}
use pilatus.Name.Defs.{
  check, new, err, empty_name, space_suffix, invalid_character, rsplit_once, base, suggest_unique,
  is_allowed,
}
use pilatus.Name.Check.{IsName, check-eq-nil_iff}

run : Unit {0}
unfolding check new rsplit_once base suggest_unique print_ℤ print_ℕ print_from parse_i32 parse_from
run = tt

empty : new (codes "") ≡ err (empty_name ∷ [])
unfolding run
empty = refl

two_errors : new (codes "a/b ") ≡ err (space_suffix ∷ invalid_character b'/' ∷ [])
unfolding run
two_errors = refl

first_suggestion : suggest_unique (codes "default") 0 ≡ some (codes "default_1")
unfolding run
first_suggestion = refl

-- A numbered name is its own first suggestion.
numbered_suggestions :
    (suggest_unique (codes "default_1") 0 ≡ some (codes "default_1"))
    × (suggest_unique (codes "default_1") 1 ≡ some (codes "default_2"))
    × (suggest_unique (codes "default_test") 0 ≡ some (codes "default_test_1"))
    × (suggest_unique (codes "cam_-1") 2 ≡ some (codes "cam_1"))
unfolding run
numbered_suggestions = (refl, refl, refl, refl)

suggestions_end : suggest_unique (codes "a_2147483647") 0 ≡ none
unfolding run
suggestions_end = refl

check-eq-nil_iff_example : (check (codes "camera 1") ≡ []) ↔ IsName (codes "camera 1")
check-eq-nil_iff_example = check-eq-nil_iff (codes "camera 1")

-- A valid name of 29 characters has no valid suggestion.
abbrev long : Text
long = codes "abcdefghijklmnopqrstuvwxyzabc"

long-allowed : All (λ c. is_allowed c ≡ true) long
long-allowed = ground arith
