-- ===== src/RelativePath/Position.antt =====
-- Where the validation says that an illegal character stands.
use pilatus.Base.{
  ℕ, suc, ◌+◌, ◌≡◌, refl, ap, ◌∙◌, inl, inr, Option, some, List, [], ◌∷◌, arith, length, Bool-cases,
  Option-cases, get_elem?, get_elem?-append, get_elem?-behind,
}
use pilatus.Base.Text.{Text}
use pilatus.Base.Result.{Result, ok, err}
use pilatus.Name.{byte_len}
use pilatus.RelativePath.Defs.{
  Component, normal, special, PathError, invalid_character, is_word, scan_folder, validate_parts,
  accepted, validate_dir, format_with_forward_slash, format_rest,
}
use pilatus.RelativePath.Valid.{IsWord, scan_folder_iff}

byte_len-IsWord : (x : Text) → IsWord x → byte_len x ≡ length x
byte_len-IsWord [] h = refl
byte_len-IsWord (c ∷ x) (w, h) = let ih = byte_len-IsWord x h in ground arith

scan_folder_found :
    (i c j : ℕ) (x : Text)
    → scan_folder i x ≡ some (c, j)
    → (k : ℕ) × (j ≡ i + k) × (get_elem? x k ≡ some c)
unfolding scan_folder
scan_folder_found i c j [] h = absurd (cc h)
scan_folder_found i c j (d ∷ x) h = elim (Bool-cases (is_word d)) [
  | inl t ↦
      let (k, at, e) = scan_folder_found (i + 1) c j x (rw (t, scan_folder) at h) in
      (suc k, omega arith, e)
  | inr t ↦
      let p : ◌≡◌ {A = Option (ℕ × ℕ)} (some (d, i)) (some (c, j)) = rw (t, scan_folder) at h in
      (0, ground arith, ground arith)
]

format_rest_found :
    (rest : List Component) (k c : ℕ)
    → get_elem? (format_with_forward_slash rest) k ≡ some c
    → get_elem? (format_rest rest) (suc k) ≡ some c
unfolding format_with_forward_slash
format_rest_found [] k c h = h
format_rest_found (special ∷ rest) k c h = h
format_rest_found (normal y ∷ rest) k c h = h

position :
    (path : List Component) (offset c i : ℕ)
    → validate_parts (scan_folder 0) offset path ≡ err (invalid_character c i)
    → (k : ℕ) × (i ≡ offset + k) × (get_elem? (format_with_forward_slash path) k ≡ some c)
unfolding validate_parts format_with_forward_slash
position [] offset c i h = absurd (cc h)
position (special ∷ path) offset c i h = absurd (cc h)
position (normal x ∷ rest) offset c i h = elim (Option-cases (scan_folder 0 x)) [
  | inl legal ↦
      let (k, at, e) =
        position rest (offset + (byte_len x + 1)) c i (rw (legal, validate_parts) at h) in
      let size = byte_len-IsWord x ((scan_folder_iff 0 x).0 legal) in
      (
        length x + suc k,
        omega arith,
        get_elem?-behind x (format_rest rest) (suc k) ∙ format_rest_found rest k c e,
      )
  | inr ((d, j), bad) ↦
      let p : ◌≡◌ {A = Result PathError ℕ} (err (invalid_character d (j + offset)))
          (err (invalid_character c i)) =
        rw (bad, validate_parts) at h in
      let (k, at, e) = scan_folder_found 0 d j x bad in
      let same : d ≡ c = cc p in
      let place : j + offset ≡ i = cc p in
      (k, omega arith, get_elem?-append x (format_rest rest) k c (e ∙ ap some same))
]

-- If `validate` of a directory path reports an illegal character at a position, that character
-- stands at that position of the path as `format_with_forward_slash` prints it.
pub validate_dir_position :
    (path : List Component) (c i : ℕ)
    → validate_dir path ≡ err (invalid_character c i)
    → get_elem? (format_with_forward_slash path) i ≡ some c
unfolding validate_dir
validate_dir_position path c i h = go (validate_parts (scan_folder 0) 0 path) refl h
  where
    go :
        (r : Result PathError ℕ)
        → validate_parts (scan_folder 0) 0 path ≡ r
        → accepted r ≡ err (invalid_character c i)
        → get_elem? (format_with_forward_slash path) i ≡ some c
    go (ok n) e h = absurd (cc h)
    go (err x) e h =
        let same : x ≡ invalid_character c i = cc h in
        let (k, at, found) = position path 0 c i (e ∙ ap err same) in
        let place : i ≡ k = omega arith in
        ap (get_elem? (format_with_forward_slash path)) place ∙ found
