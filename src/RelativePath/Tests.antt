-- ===== src/RelativePath/Tests.antt =====
-- Paths of the source's own tests, and the theorems at them.
use pilatus.Base.{◌≡◌, refl, ◌↔◌, [], ◌∷◌, ◌++◌, All}
use pilatus.Base.Text.{codes}
use pilatus.Base.Result.{ok, err}
use pilatus.Name.{rsplit_once}
use pilatus.RelativePath.Defs.{
  Component, normal, special, invalid_relative_path, file_extension_missing, invalid_character,
  validate_dir, validate_file, format_with_forward_slash,
}
use pilatus.RelativePath.Valid.{IsFolder}
use pilatus.RelativePath.File.{IsFileName, validate_file_iff}

run : Unit {0}
unfolding validate_dir validate_file format_with_forward_slash rsplit_once
run = tt

abbrev folder : Component
folder = normal (codes "folder")

two_points :
    validate_file (folder ∷ normal (codes "twopoints.jpg.png") ∷ [])
    ≡ err (invalid_character b'.' 20)
unfolding run
two_points = refl

no_extension : validate_file (folder ∷ normal (codes "img") ∷ []) ≡ err file_extension_missing
unfolding run
no_extension = refl

leaves : validate_dir (special ∷ folder ∷ []) ≡ err invalid_relative_path
unfolding run
leaves = refl

validate_file_iff_example :
    (validate_file ((folder ∷ []) ++ normal (codes "img.jpg") ∷ []) ≡ ok tt)
    ↔ (All IsFolder (folder ∷ []) × IsFileName (normal (codes "img.jpg")))
validate_file_iff_example = validate_file_iff (folder ∷ []) (normal (codes "img.jpg"))

at_sign : validate_dir (folder ∷ normal (codes "img@jpg") ∷ []) ≡ err (invalid_character b'@' 10)
unfolding run
at_sign = refl
