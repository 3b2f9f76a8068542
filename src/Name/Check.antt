-- ===== src/Name/Check.antt =====
-- What `NameRaw::check` accepts.
use pilatus.Base.{
  ℕ, suc, ◌+◌, ◌≡◌, refl, ◌∙◌, ◌≢◌, ◌↔◌, ◌≤◌, ◌<◌, Bool, true, false, List, [], ◌∷◌, ◌++◌, arith,
  inl, inr, if◌then◌else◌, Bool-cases, length, length-append, All, All-append,
}
use pilatus.Base.Text.{Text, print_ℕ, print_ℕ-All_digits, print_ℕ_cons, is_digit}
use pilatus.Base.Int.{ℤ, pos, negsuc, print_ℤ}
use pilatus.Name.Defs.{
  Name, NameError, ok, byte_len, is_allowed, starts_with, ends_with, length_errors,
  character_errors, check, sealed, new, numbered,
}

-- A name by its characters: 1 to 30 of them, all allowed, no space at either end.
pub record IsName (name : Text) : Type 0 where
  pub nonempty : name ≢ []
  pub short : length name ≤ 30
  pub allowed : All (λ c. is_allowed c ≡ true) name
  pub first : starts_with b' ' name ≡ false
  pub last : ends_with b' ' name ≡ false

byte_len_of_All : (s : Text) → All (λ c. is_allowed c ≡ true) s → byte_len s ≡ length s
byte_len_of_All [] h = refl
byte_len_of_All (c ∷ s) (p, h) = ground (arith, byte_len_of_All s h)

character_errors_iff : (s : Text) → (character_errors s ≡ []) ↔ All (λ c. is_allowed c ≡ true) s
character_errors_iff [] = (λ h. tt, λ h. refl)
character_errors_iff (c ∷ s) =
    let ih = character_errors_iff s in
    elim (Bool-cases (is_allowed c)) [
      | inl t ↦ rw t (λ h. (refl, ih.0 h), λ h. ih.1 h.1)
      | inr t ↦ rw t (λ h. absurd (cc), λ h. absurd (cc))
    ]

append-eq-nil :
    (a b c d : List NameError)
    → a ++ (b ++ (c ++ d)) ≡ []
    → (a ≡ []) × (b ≡ []) × (c ≡ []) × (d ≡ [])
append-eq-nil [] [] [] d h = (refl, refl, refl, h)
append-eq-nil [] [] (x ∷ c) d h = absurd (cc)
append-eq-nil [] (x ∷ b) c d h = absurd (cc)
append-eq-nil (x ∷ a) b c d h = absurd (cc)

length_errors-eq-nil : (n : ℕ) → length_errors n ≡ [] → (0 < n) × (n ≤ 30)
length_errors-eq-nil n h = ground arith

no_error : (b : Bool) (e : NameError) → (if b then e ∷ [] else []) ≡ [] → b ≡ false
no_error true e h = absurd (cc)
no_error false e h = refl

nonempty_of_pos : (name : Text) → 0 < byte_len name → name ≢ []
nonempty_of_pos [] h e = absurd (omega arith)
nonempty_of_pos (c ∷ s) h e = cc

check_sound : (name : Text) → check name ≡ [] → IsName name
unfolding check
check_sound name h =
    let (sized, first, last, clean) = append-eq-nil (length_errors (byte_len name)) _ _ _ h in
    let allowed = (character_errors_iff name).0 clean in
    let (some_bytes, short) = length_errors-eq-nil (byte_len name) sized in
    record {
      nonempty = nonempty_of_pos name some_bytes;
      short = omega (arith, byte_len_of_All name allowed);
      allowed = allowed;
      first = no_error _ _ first;
      last = no_error _ _ last;
    }

length_pos : (name : Text) → name ≢ [] → 0 < length name
length_pos [] h = absurd (h refl)
length_pos (c ∷ s) h = omega arith

check_complete : (name : Text) → IsName name → check name ≡ []
unfolding check
check_complete name h = ground (
  arith,
  h.first,
  h.last,
  (character_errors_iff name).1 h.allowed,
  byte_len_of_All name h.allowed,
  length_pos name h.nonempty,
)

-- `check` reports no error exactly on the names of 1 to 30 allowed characters with no space at
-- either end.
pub check-eq-nil_iff : (name : Text) → (check name ≡ []) ↔ IsName name
check-eq-nil_iff name = (check_sound name, check_complete name)

sealed_iff :
    (value : Text) (es : List NameError) (n : Name)
    → (sealed value es ≡ ok n) ↔ ((es ≡ []) × (n ≡ value))
sealed_iff value [] n = (λ h. (refl, cc), λ h. cc h.1)
sealed_iff value (e ∷ es) n = (λ h. absurd (cc), λ h. absurd (cc h.0))

-- `Name::new` succeeds exactly on those names, and returns its argument.
pub new-eq-ok_iff : (value : Text) (n : Name) → (new value ≡ ok n) ↔ (IsName value × (n ≡ value))
unfolding new
new-eq-ok_iff value n =
    let (to, from) = sealed_iff value (check value) n in
    (
      λ h. let (none, same) = to h in (check_sound value none, same),
      λ h. from (check_complete value h.0, h.1),
    )

digits-allowed : (s : Text) → All (λ c. is_digit c ≡ true) s → All (λ c. is_allowed c ≡ true) s
digits-allowed [] h = tt
digits-allowed (c ∷ s) (p, h) = (ground arith, digits-allowed s h)

print_ℤ-allowed : (z : ℤ) → All (λ c. is_allowed c ≡ true) (print_ℤ z)
unfolding print_ℤ
print_ℤ-allowed (pos n) = digits-allowed (print_ℕ n) (print_ℕ-All_digits n)
print_ℤ-allowed (negsuc n) = (refl, digits-allowed (print_ℕ (suc n)) (print_ℕ-All_digits (suc n)))

ends_with-append : (c d : ℕ) (b s : Text) → ends_with c (b ++ d ∷ s) ≡ ends_with c (d ∷ s)
ends_with-append c d [] s = refl
ends_with-append c d (x ∷ []) s = refl
ends_with-append c d (x ∷ y ∷ b) s = ends_with-append c d (y ∷ b) s

digits-last :
    (c : ℕ) (s : Text)
    → is_digit c ≡ true
    → All (λ d. is_digit d ≡ true) s
    → ends_with b' ' (c ∷ s) ≡ false
digits-last c [] p h = ground arith
digits-last c (d ∷ s) p (q, h) = digits-last d s q h

numeral-last : (d n : ℕ) → ends_with b' ' (d ∷ print_ℕ n) ≡ false
numeral-last d n =
    let (c, s, e) = print_ℕ_cons n in
    let digits = rw e at (print_ℕ-All_digits n) in rw e (digits-last c s digits.0 digits.1)

print_ℤ-last : (d : ℕ) (z : ℤ) → ends_with b' ' (d ∷ print_ℤ z) ≡ false
unfolding print_ℤ
print_ℤ-last d (pos n) = numeral-last d n
print_ℤ-last d (negsuc n) = numeral-last b'-' (suc n)

append-ne-nil : (b : Text) (c : ℕ) (s : Text) → b ++ c ∷ s ≢ []
append-ne-nil [] c s h = cc
append-ne-nil (x ∷ b) c s h = cc

first-append : (b s : Text) → starts_with b' ' b ≡ false → starts_with b' ' (b ++ b'_' ∷ s) ≡ false
first-append [] s h = refl
first-append (x ∷ b) s h = h

-- A numbered name built on allowed characters that do not begin with a space is a valid name
-- exactly if its parts have at most 29 characters together.
pub numbered-IsName_iff :
    (b : Text) (z : ℤ)
    → All (λ c. is_allowed c ≡ true) b
    → starts_with b' ' b ≡ false
    → IsName (numbered b z) ↔ (length b + length (print_ℤ z) ≤ 29)
numbered-IsName_iff b z allowed first =
    let size = length-append b (b'_' ∷ print_ℤ z) in
    (
      λ h. omega (arith, h.short),
      λ h. record {
        nonempty = append-ne-nil b b'_' (print_ℤ z);
        short = omega arith;
        allowed = All-append _ b _ allowed (refl, print_ℤ-allowed z);
        first = first-append b (print_ℤ z) first;
        last = ends_with-append b' ' b'_' b (print_ℤ z) ∙ print_ℤ-last b'_' z;
      },
    )
