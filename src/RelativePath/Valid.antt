-- ===== src/RelativePath/Valid.antt =====
-- What the validation accepts.
use pilatus.Base.{
  ℕ, ◌+◌, ◌≡◌, refl, ◌↔◌, inl, inr, true, none, List, [], ◌∷◌, Bool-cases, Option-cases, All,
}
use pilatus.Base.Text.{Text}
use pilatus.Base.Result.{ok}
use pilatus.Name.{byte_len}
use pilatus.RelativePath.Defs.{
  Component, normal, special, is_word, scan_folder, validate_parts, accepted, validate_dir,
}

abbrev pub IsWord : Text → Type 0
IsWord x = All (λ c. is_word c ≡ true) x

-- A folder: a name of letters, digits, `-` and `_`.
abbrev pub IsFolder : Component → Type 0
IsFolder (normal x) = IsWord x
IsFolder special = ⊥

pub scan_folder_iff : (i : ℕ) (x : Text) → (scan_folder i x ≡ none) ↔ IsWord x
unfolding scan_folder
scan_folder_iff i [] = (λ h. tt, λ h. refl)
scan_folder_iff i (c ∷ x) =
    let (to, from) = scan_folder_iff (i + 1) x in
    elim (Bool-cases (is_word c)) [
      | inl t ↦ rw (t, scan_folder) (λ h. (refl, to h), λ h. from h.1)
      | inr t ↦ rw (t, scan_folder) (λ h. absurd (cc h), λ h. absurd (cc h.0))
    ]

pub folders_iff :
    (offset : ℕ) (path : List Component)
    → (accepted (validate_parts (scan_folder 0) offset path) ≡ ok tt) ↔ All IsFolder path
unfolding validate_parts
folders_iff offset [] = (λ h. tt, λ h. refl)
folders_iff offset (special ∷ path) = (λ h. absurd (cc h), λ h. absurd h.0)
folders_iff offset (normal x ∷ path) =
    let (to, from) = folders_iff (offset + (byte_len x + 1)) path in
    let word = scan_folder_iff 0 x in
    elim (Option-cases (scan_folder 0 x)) [
      | inl legal ↦ rw (legal, validate_parts) (λ h. (word.0 legal, to h), λ h. from h.1)
      | inr (ci, bad) ↦
          rw (bad, validate_parts)
            (λ h. absurd (cc h), λ h. absurd (let same = word.1 h.0 in cc (same, bad)))
    ]

-- A path is accepted as a directory path exactly if all its components are names of letters,
-- digits, `-` and `_`.
pub validate_dir_iff : (path : List Component) → (validate_dir path ≡ ok tt) ↔ All IsFolder path
unfolding validate_dir
validate_dir_iff path = folders_iff 0 path
