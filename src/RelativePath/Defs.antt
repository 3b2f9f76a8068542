-- ===== src/RelativePath/Defs.antt =====
-- Validation and printing. A path is the list of its components, which is all that the source reads
-- of it; names are UTF-8. The messages' copy of the path is left out.
use pilatus.Base.{
  ℕ, ◌+◌, Bool, true, false, not, ◌&&◌, ◌||◌, Option, none, some, List, [], ◌∷◌, ◌++◌, nat_beq,
  if◌then◌else◌,
}
use pilatus.Base.Text.{Text}
use pilatus.Base.Result.{Result, ok, err}
use pilatus.Name.{byte_len, is_alphanumeric, rsplit_once}

-- `std::path::Component`; the others are the root, a prefix, `.` and `..`.
pub data Component : Type 0 where
  normal : Text → Component
  special : Component

-- `RelativeDirPathError` and `RelativeFilePathError`.
pub data PathError : Type 0 where
  invalid_relative_path file_extension_missing : PathError
  invalid_character : (c idx : ℕ) → PathError

abbrev pub is_word : ℕ → Bool
is_word c = is_alphanumeric c || nat_beq c b'-' || nat_beq c b'_'

-- The first illegal character of a folder's name, and its index.
unfoldable pub scan_folder : ℕ → Text → Option (ℕ × ℕ)
scan_folder i [] = none
scan_folder i (c ∷ s) =
    let later = scan_folder (i + 1) s in if is_word c then later else some (c, i)

-- The same for a file's name, where the first point is legal.
unfoldable pub scan_file : Bool → ℕ → Text → Option (ℕ × ℕ)
scan_file point i [] = none
scan_file point i (c ∷ s) =
    let later = scan_file point (i + 1) s in
    let pointed = scan_file true (i + 1) s in
    if is_word c then later else if nat_beq c b'.' && not point then pointed else some (c, i)

unfoldable pub validate_parts : (Text → Option (ℕ × ℕ)) → ℕ → List Component → Result PathError ℕ
validate_parts inner offset [] = ok offset
validate_parts inner offset (special ∷ rest) = err invalid_relative_path
validate_parts inner offset (normal x ∷ rest) =
    let later = validate_parts inner (offset + (byte_len x + 1)) rest in
    elim (inner x) [ none ↦ later | some ci ↦ err (invalid_character ci.0 (ci.1 + offset)) ]

abbrev pub accepted : Result PathError ℕ → Result PathError (Unit {0})
accepted (ok n) = ok tt
accepted (err e) = err e

-- `validate` of relative_dir_path.rs
unfoldable pub validate_dir : List Component → Result PathError (Unit {0})
unfolding validate_parts scan_folder
validate_dir path = accepted (validate_parts (scan_folder 0) 0 path)

-- `Path::extension` of a file name: there is a point, and it is not at the start.
abbrev pub is_extended : Option (Text × Text) → Bool
is_extended none = false
is_extended (some ([], behind)) = false
is_extended (some (c ∷ before, behind)) = true

abbrev pub has_extension : Component → Bool
has_extension special = false
has_extension (normal x) = is_extended (rsplit_once b'.' x)

-- The components before the last one, and the last one.
abbrev pub split_last : Component → List Component → List Component × Component
split_last x [] = ([], x)
split_last x (y ∷ rest) = let later = split_last y rest in (x ∷ later.0, later.1)

abbrev pub adapt_position : ℕ → PathError → PathError
adapt_position offset (invalid_character c idx) = invalid_character c (idx + offset)
adapt_position offset invalid_relative_path = invalid_relative_path
adapt_position offset file_extension_missing = file_extension_missing

abbrev pub name_at : ℕ → Result PathError ℕ → Result PathError (Unit {0})
name_at offset (ok n) = ok tt
name_at offset (err e) = err (adapt_position offset e)

abbrev pub folders_first : Result PathError ℕ → Result PathError ℕ → Result PathError (Unit {0})
folders_first (err e) file_name = err e
folders_first (ok offset) file_name = name_at offset file_name

-- `validate` of relative_file_path.rs
unfoldable pub validate_file : List Component → Result PathError (Unit {0})
unfolding validate_parts scan_folder scan_file rsplit_once
validate_file [] = err file_extension_missing
validate_file (x ∷ path) =
    let parts = split_last x path in
    if has_extension parts.1
    then folders_first (validate_parts (scan_folder 0) 0 parts.0)
        (validate_parts (scan_file false 0) 0 (parts.1 ∷ []))
    else err file_extension_missing

-- `format_with_forward_slash`: it stops at the first component that is no name.
unfoldable pub format_rest : List Component → Text
format_rest (normal x ∷ rest) = b'/' ∷ (x ++ format_rest rest)
format_rest [] = []
format_rest (special ∷ rest) = []

unfoldable pub format_with_forward_slash : List Component → Text
unfolding format_rest
format_with_forward_slash (normal x ∷ rest) = x ++ format_rest rest
format_with_forward_slash [] = []
format_with_forward_slash (special ∷ rest) = []
