-- ===== src/RelativePath/File.antt =====
-- What the validation of file paths accepts.
use pilatus.Base.{
  ℕ, ◌+◌, ◌≡◌, refl, sym, ap, ◌∙◌, ◌≢◌, ◌↔◌, inl, inr, true, false, none, some, List, [], ◌∷◌, ◌++◌,
  nat_beq, if◌then◌else◌, Bool-cases, Option-cases, All, All-map,
}
use pilatus.Base.Text.{Text}
use pilatus.Base.Result.{Result, ok, err}
use pilatus.Name.{rsplit_once}
use pilatus.Name.Suggest.{rsplit_once-append, rsplit_once_sound}
use pilatus.RelativePath.Defs.{
  Component, normal, special, PathError, is_word, scan_folder, scan_file, validate_parts, accepted,
  is_extended, has_extension, split_last, folders_first, validate_file, file_extension_missing,
}
use pilatus.RelativePath.Valid.{IsWord, IsFolder, folders_iff}

-- A file name: a base name and an extension of letters, digits, `-` and `_`, with a point between.
pub record IsNamed (x : Text) : Type 0 where
  pub base : Text
  pub extension : Text
  pub parts : x ≡ base ++ b'.' ∷ extension
  pub nonempty : base ≢ []
  pub base_word : IsWord base
  pub extension_word : IsWord extension

abbrev pub IsFileName : Component → Type 0
IsFileName (normal x) = IsNamed x
IsFileName special = ⊥

scan_pointed_iff : (i : ℕ) (x : Text) → (scan_file true i x ≡ none) ↔ IsWord x
unfolding scan_file
scan_pointed_iff i [] = (λ h. tt, λ h. refl)
scan_pointed_iff i (c ∷ x) =
    let (to, from) = scan_pointed_iff (i + 1) x in
    elim (Bool-cases (is_word c)) [
      | inl t ↦ rw (t, scan_file) (λ h. (refl, to h), λ h. from h.1)
      | inr t ↦ elim (Bool-cases (nat_beq c b'.')) [
        | inl u ↦ rw (t, u, scan_file) (λ h. absurd (cc h), λ h. absurd (cc h.0))
        | inr u ↦ rw (t, u, scan_file) (λ h. absurd (cc h), λ h. absurd (cc h.0))
      ]
    ]

no_point : (b s : Text) → IsWord (b ++ b'.' ∷ s) → ⊥
no_point [] s h = cc h.0
no_point (c ∷ b) s h = no_point b s h.1

scan_file_iff :
    (i : ℕ) (b s : Text) → (scan_file false i (b ++ b'.' ∷ s) ≡ none) ↔ (IsWord b × IsWord s)
unfolding scan_file
scan_file_iff i [] s =
    let (to, from) = scan_pointed_iff (i + 1) s in (λ h. (tt, to h), λ h. from h.1)
scan_file_iff i (c ∷ b) s =
    let (to, from) = scan_file_iff (i + 1) b s in
    elim (Bool-cases (is_word c)) [
      | inl t ↦ rw (t, scan_file) (λ h. let k = to h in ((refl, k.0), k.1), λ h. from (h.0.1, h.1))
      | inr t ↦ elim (Bool-cases (nat_beq c b'.')) [
        | inl u ↦
            rw (t, u, scan_file)
              (
                λ h. absurd (no_point b s ((scan_pointed_iff (i + 1) (b ++ b'.' ∷ s)).0 h)),
                λ h. absurd (cc h.0.0),
              )
        | inr u ↦ rw (t, u, scan_file) (λ h. absurd (cc h), λ h. absurd (cc h.0.0))
      ]
    ]

word_apart : (c : ℕ) → is_word c ≡ true → c ≢ b'.'
word_apart c h e = let same : is_word b'.' ≡ true = ap is_word (sym e) ∙ h in cc same

IsNamed-iff :
    (x : Text) → (has_extension (normal x) ≡ true) × (scan_file false 0 x ≡ none) ↔ IsNamed x
IsNamed-iff x = (to, from)
  where
    split :
        (before behind : Text)
        → rsplit_once b'.' x ≡ some (before, behind)
        → is_extended (some (before, behind)) ≡ true
        → scan_file false 0 x ≡ none
        → IsNamed x
    split [] behind found h k = absurd (cc h)
    split (c ∷ before) behind found h k =
        let same = rsplit_once_sound b'.' x (c ∷ before) behind found in
        let words = (scan_file_iff 0 (c ∷ before) behind).0 (rw same at k) in
        record {
          base = c ∷ before;
          extension = behind;
          parts = same;
          nonempty = λ e. absurd (cc e);
          base_word = words.0;
          extension_word = words.1;
        }

    to : (has_extension (normal x) ≡ true) × (scan_file false 0 x ≡ none) → IsNamed x
    to (h, k) = elim (Option-cases (rsplit_once b'.' x)) [
      | inl missing ↦ absurd (cc (rw missing at h))
      | inr ((before, behind), found) ↦ split before behind found (rw found at h) k
    ]

    from : IsNamed x → (has_extension (normal x) ≡ true) × (scan_file false 0 x ≡ none)
    from h =
        let found =
          rsplit_once-append b'.' h.base h.extension
            (All-map word_apart h.extension h.extension_word) in
        let legal = (scan_file_iff 0 h.base h.extension).1 (h.base_word, h.extension_word) in
        rw h.parts (rw found (extended h.base h.extension h.nonempty), legal)
      where
        extended : (b s : Text) → b ≢ [] → is_extended (some (b, s)) ≡ true
        extended [] s n = absurd (n refl)
        extended (c ∷ b) s n = refl

split_last-append :
    (d l : Component) (ds : List Component) → split_last d (ds ++ l ∷ []) ≡ (d ∷ ds, l)
split_last-append d l [] = refl
split_last-append d l (e ∷ ds) = rw (split_last-append e l ds) refl

folders_first_iff :
    (folders name : Result PathError ℕ)
    → (folders_first folders name ≡ ok tt) ↔ ((accepted folders ≡ ok tt) × (accepted name ≡ ok tt))
folders_first_iff (ok n) (ok m) = (λ h. (refl, refl), λ h. refl)
folders_first_iff (ok n) (err e) = (λ h. absurd (cc h), λ h. absurd (cc h.1))
folders_first_iff (err e) name = (λ h. absurd (cc h), λ h. absurd (cc h.0))

name_iff :
    (x : Text)
    → (accepted (validate_parts (scan_file false 0) 0 (normal x ∷ [])) ≡ ok tt)
      ↔ (scan_file false 0 x ≡ none)
unfolding validate_parts
name_iff x = elim (Option-cases (scan_file false 0 x)) [
  | inl legal ↦ rw (legal, validate_parts) (λ h. refl, λ h. refl)
  | inr (ci, bad) ↦ rw (bad, validate_parts) (λ h. absurd (cc h), λ h. absurd (cc h))
]

validate_file-append :
    (dirs : List Component) (l : Component)
    → validate_file (dirs ++ l ∷ []) ≡ (
        if has_extension l
        then folders_first
            (validate_parts (scan_folder 0) 0 dirs)
            (validate_parts (scan_file false 0) 0 (l ∷ []))
        else err file_extension_missing)
unfolding validate_file
validate_file-append [] l = refl
validate_file-append (d ∷ ds) l = rw (split_last-append d l ds) refl

-- A path that ends in the component `l` is accepted as a file path exactly if all components before
-- it are folder names of letters, digits, `-` and `_`, and `l` is a name of a nonempty base and an
-- extension of such characters with one point between.
pub validate_file_iff :
    (dirs : List Component) (l : Component)
    → (validate_file (dirs ++ l ∷ []) ≡ ok tt) ↔ (All IsFolder dirs × IsFileName l)
validate_file_iff dirs special =
    rw (validate_file-append dirs special) (λ h. absurd (cc h), λ h. absurd h.1)
validate_file_iff dirs (normal x) = elim (Bool-cases (has_extension (normal x))) [
  | inl t ↦
      let (both, first) =
        folders_first_iff (validate_parts (scan_folder 0) 0 dirs)
          (validate_parts (scan_file false 0) 0 (normal x ∷ [])) in
      rw (validate_file-append dirs (normal x), t)
        (
          λ h.
              let k = both h in
              ((folders_iff 0 dirs).0 k.0, (IsNamed-iff x).0 (t, (name_iff x).0 k.1)),
          λ h. first ((folders_iff 0 dirs).1 h.0, (name_iff x).1 ((IsNamed-iff x).1 h.1).1),
        )
  | inr t ↦
      rw (validate_file-append dirs (normal x), t)
        (λ h. absurd (cc h), λ h. absurd (let k = (IsNamed-iff x).1 h.1 in cc (k.0, t)))
]
