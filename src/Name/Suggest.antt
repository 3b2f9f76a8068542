-- ===== src/Name/Suggest.antt =====
-- `suggest_unique`: the parts of a name, and suggestions that never repeat.
use pilatus.Base.{
  ℕ, ◌≡◌, refl, sym, ap, ◌∙◌, ◌≢◌, none, some, [], ◌∷◌, ◌++◌, arith, inl, inr, Option-cases, All,
}
use pilatus.Base.Text.{Text}
use pilatus.Base.Int.{
  ℤ, add_ℕ, print_ℤ, parse_i32-print_ℤ, InI32, print_ℤ-injective, add_ℕ-injective, print_ℤ-All_ne,
}
use pilatus.Name.Defs.{Name, rsplit_once, base, numbered, suggest_unique}

rsplit_once-none : (c : ℕ) (s : Text) → All (λ d. d ≢ c) s → rsplit_once c s ≡ none
unfolding rsplit_once
rsplit_once-none c [] h = refl
rsplit_once-none c (d ∷ s) (n, h) = rw (rsplit_once-none c s h, rsplit_once) (ground arith)

-- A separator that the rest does not hold is the last one.
pub rsplit_once-append :
    (c : ℕ) (before behind : Text)
    → All (λ d. d ≢ c) behind
    → rsplit_once c (before ++ c ∷ behind) ≡ some (before, behind)
unfolding rsplit_once
rsplit_once-append c [] behind h = rw (rsplit_once-none c behind h, rsplit_once) (ground arith)
rsplit_once-append c (x ∷ before) behind h = rw (rsplit_once-append c before behind h, rsplit_once)

-- What is split is put together by the separator.
pub rsplit_once_sound :
    (c : ℕ) (s before behind : Text)
    → rsplit_once c s ≡ some (before, behind)
    → s ≡ before ++ c ∷ behind
unfolding rsplit_once
rsplit_once_sound c [] before behind h = absurd (cc)
rsplit_once_sound c (d ∷ s) before behind h = elim (Option-cases (rsplit_once c s)) [
  | inl missed ↦ ground (arith, missed)
  | inr ((b, r), found) ↦ let ih = rsplit_once_sound c s b r found in ground (arith, found)
]

append-injective : (b s t : Text) → b ++ s ≡ b ++ t → s ≡ t
append-injective [] s t h = h
append-injective (x ∷ b) s t h = append-injective b s t (cc)

-- Numbered names with different numbers are different.
pub numbered-ne :
    (b : Text) (z : ℤ) (j k : ℕ) → j ≢ k → numbered b (add_ℕ z j) ≢ numbered b (add_ℕ z k)
numbered-ne b z j k d e =
    let tails = append-injective b _ _ e in
    let numerals : print_ℤ (add_ℕ z j) ≡ print_ℤ (add_ℕ z k) = cc in
    d (add_ℕ-injective z j k (print_ℤ-injective _ _ numerals))

suggest_unique-injective :
    (name : Name) (j k : ℕ) {n : Name}
    → suggest_unique name j ≡ some n
    → suggest_unique name k ≡ some n
    → j ≡ k
unfolding suggest_unique
suggest_unique-injective name j k {n} p q =
    let b = base name in
    let first : numbered b.1 (add_ℕ b.0 j) ≡ n = ground arith in
    let second : numbered b.1 (add_ℕ b.0 k) ≡ n = ground arith in
    let tails = append-injective b.1 _ _ (first ∙ sym second) in
    let numerals : print_ℤ (add_ℕ b.0 j) ≡ print_ℤ (add_ℕ b.0 k) = cc in
    add_ℕ-injective b.0 j k (print_ℤ-injective _ _ numerals)

-- Two suggestions of `suggest_unique` for one name at different places are different names.
pub suggest_unique-ne :
    (name : Name) (j k : ℕ) {n m : Name}
    → suggest_unique name j ≡ some n
    → suggest_unique name k ≡ some m
    → j ≢ k
    → n ≢ m
suggest_unique-ne name j k p q d e = d (suggest_unique-injective name j k p (q ∙ ap some (sym e)))

-- For a number in the range of `i32`, the suggestions for a numbered name start with its own number
-- and base name.
pub base-numbered : (b : Text) (z : ℤ) → InI32 z → base (numbered b z) ≡ (z, b)
unfolding base
base-numbered b z h =
    let split = rsplit_once-append b'_' b (print_ℤ z) (print_ℤ-All_ne z) in
    ground (arith, split, parse_i32-print_ℤ z h)
