-- ===== src/Variables/Tests.antt =====
-- Runs on a document with variables, and the theorems at it.
use pilatus.Base.{ℕ, ◌≡◌, refl, ◌↔◌, true, some, [], ◌∷◌, All, nat_eq, list_eq}
use pilatus.Base.Text.{codes}
use pilatus.Base.Result.{ok}
use pilatus.HashMap
use pilatus.HashMap.{NodupKeys, or_else}
use pilatus.Json.{Json, number, string, array, object, nil, cons, end, field, json_beq}
use pilatus.Variables.Defs.{
  Variables, check_recursive, variables_names, resolve_key, resolve, resolve_var, resolve_value,
  patch, add, remove_resolved, add_variable_names, try_from,
}
use pilatus.Variables.Resolve.{resolve_iff}
use pilatus.Variables.RoundTrip.{IsVariable, remove_resolved-resolve_var}

run : Unit {0}
unfolding check_recursive variables_names add_variable_names resolve_key resolve resolve_var
    resolve_value patch add remove_resolved HashMap.get HashMap.insert HashMap.extend json_beq
    try_from
run = tt

abbrev vars : Variables ℕ
vars = (codes "x", number 1) ∷ (codes "y", string (codes "s")) ∷ []

abbrev changes : Variables ℕ
changes = (codes "y", number 2) ∷ (codes "z", number 3) ∷ []

abbrev use_x : Json ℕ
use_x = object (field (codes "__var") (string (codes "x")) end)

abbrev document : Json ℕ
document = array (cons use_x (cons (number 7) nil))

document_checked : check_recursive document ≡ ok tt
unfolding run
document_checked = refl

document_resolved : resolve vars document ≡ ok (array (cons (number 1) (cons (number 7) nil)))
unfolding run
document_resolved = refl

changes_conflict : (resolve_key (add vars changes).0 (codes "y")) ≡ some (string (codes "s"))
unfolding run
changes_conflict = refl

vars-NodupKeys : NodupKeys vars
unfolding run
vars-NodupKeys = (refl, (refl, tt))

changes-NodupKeys : NodupKeys changes
unfolding run
changes-NodupKeys = (refl, (refl, tt))

resolve_iff_example :
    All (λ x. HashMap.contains_key x vars ≡ true) (variables_names document)
    ↔ ((r : Json ℕ) × (resolve vars document ≡ ok r))
resolve_iff_example = resolve_iff vars document document_checked

abbrev shown : Json ℕ
shown = array (
    cons
      (object
        (field (codes "__var") (string (codes "x")) (field (codes "resolved") (number 1) end)))
      (cons (number 7) nil))

document-shown : resolve_var vars document ≡ ok shown
unfolding run
document-shown = refl

vars-IsVariable : All (λ x. IsVariable x.1) vars
unfolding run
vars-IsVariable = (refl, (refl, tt))

remove_resolved-resolve_var_example : remove_resolved vars shown [] ≡ ok (document, [])
remove_resolved-resolve_var_example =
    remove_resolved-resolve_var vars document shown [] vars-IsVariable document_checked
      document-shown
