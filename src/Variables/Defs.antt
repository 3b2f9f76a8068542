-- ===== src/Variables/Defs.antt =====
-- `Variables`, `UntypedDeviceParamsWithVariables` and the functions on them.
use pilatus.Base.{
  Bool, true, false, not, ◌||◌, Option, none, some, List, [], ◌∷◌, ◌++◌, if◌then◌else◌, PartialEq,
  ◌==◌, nat_eq, list_eq, option_eq,
}
use pilatus.Base.Text.{Text, codes}
use pilatus.Base.Result.{Result, ok, err, ◌>>=◌, map_ok}
use pilatus.HashMap
use pilatus.HashMap.{HashMap}
use pilatus.Json.{
  Json, null, bool, number, string, array, object, Items, nil, cons, Fields, end, field, get_field,
  remove_field, has_more, json_eq,
}

-- `JSON_VAR_KEYWORD`, and the key of the value in a resolved document.
abbrev pub var_key : Text
var_key = codes "__var"

abbrev pub resolved_key : Text
resolved_key = codes "resolved"

-- A `Variable` is a JSON value that `try_from` has let pass; `VariablesPatch` is a map of them.
abbrev pub Variables : Type 0 → Type 0
Variables N = HashMap Text (Json N)

pub data ResolveError : Type 0 where
  -- `InvalidFormat`: another key beside `__var`
  other_key : Text → ResolveError
  -- `VariableError`
  unknown_variable : Text → ResolveError
  var_is_no_string : ResolveError

pub data UnresolveError : Type 0 where
  resolved_missing unsupported_value : UnresolveError
  conflicting_variables : Text → UnresolveError

pub record VariableConflict (N : Type 0) : Type 0 where
  pub name : Text
  pub existing : Json N
  pub imported : Json N

module _ {N : Type 0} where
  abbrev pub is_string : Json N → Bool
  is_string (string s) = true
  is_string null = false
  is_string (bool b) = false
  is_string (number n) = false
  is_string (array xs) = false
  is_string (object fs) = false

  -- `Variable::try_from`
  unfoldable pub try_from : Json N → Result UnresolveError (Json N)
  try_from (number n) = ok (number n)
  try_from (string s) = ok (string s)
  try_from _ = err unsupported_value

  -- `check_recursive`: the error is the first value that breaks the rule.
  unfoldable mutual
    pub check_recursive : Json N → Result (Json N) (Unit {0})
    check_recursive (array xs) = check_items xs
    check_recursive (object fs) = elim (get_field var_key fs) [
      | some var_name ↦ if has_more fs || not (is_string var_name) then err (object fs) else ok tt
      | none ↦ check_fields fs
    ]
    check_recursive _ = ok tt

    pub check_items : Items N → Result (Json N) (Unit {0})
    check_items nil = ok tt
    check_items (cons x xs) = elim (check_recursive x) [ ok u ↦ check_items xs | err v ↦ err v ]

    pub check_fields : Fields N → Result (Json N) (Unit {0})
    check_fields end = ok tt
    check_fields (field k x fs) = elim (check_recursive x) [
      | ok u ↦ check_fields fs
      | err v ↦ err v
    ]

  -- `add_variable_names`, with the names found so far.
  unfoldable mutual
    pub add_variable_names : Json N → List Text → List Text
    add_variable_names (array xs) found = add_names_items xs found
    add_variable_names (object fs) found = elim (get_field var_key fs) [
      | some var_name ↦ elim var_name [ string x ↦ found ++ x ∷ [] | _ ↦ add_names_fields fs found ]
      | none ↦ add_names_fields fs found
    ]
    add_variable_names _ found = found

    pub add_names_items : Items N → List Text → List Text
    add_names_items nil found = found
    add_names_items (cons x xs) found = add_names_items xs (add_variable_names x found)

    pub add_names_fields : Fields N → List Text → List Text
    add_names_fields end found = found
    add_names_fields (field k x fs) found = add_names_fields fs (add_variable_names x found)

  unfoldable pub variables_names : Json N → List Text
  unfolding add_variable_names
  variables_names params = add_variable_names params []

  -- `resolve_value`; its object case reads the first key only.
  module _ (vars : Variables N) (generator : Text → Json N → Json N) where
    abbrev pub substitute : Json N → Result ResolveError (Json N)
    substitute (string map_key) = elim (HashMap.get map_key vars) [
      | some new_value ↦ ok (generator map_key new_value)
      | none ↦ err (unknown_variable map_key)
    ]
    substitute _ = err var_is_no_string

    abbrev pub lone_var : Json N → Fields N → Result ResolveError (Json N)
    lone_var v end = substitute v
    lone_var v (field k_other w fs) = err (other_key k_other)

    unfoldable mutual
      pub resolve_value : Json N → Result ResolveError (Json N)
      resolve_value (array xs) = map_ok array (resolve_items xs)
      resolve_value (object end) = ok (object end)
      resolve_value (object (field k v fs)) =
          let others = map_ok object (resolve_fields (field k v fs)) in
          if k == var_key then lone_var v fs else others
      resolve_value x = ok x

      pub resolve_items : Items N → Result ResolveError (Items N)
      resolve_items nil = ok nil
      resolve_items (cons x xs) =
          let rest = resolve_items xs in do x' ← resolve_value x; map_ok (cons x') rest

      pub resolve_fields : Fields N → Result ResolveError (Fields N)
      resolve_fields end = ok end
      resolve_fields (field k x fs) =
          let rest = resolve_fields fs in do x' ← resolve_value x; map_ok (field k x') rest

  -- `Variables::resolve`
  unfoldable pub resolve : Variables N → Json N → Result ResolveError (Json N)
  unfolding resolve_value
  resolve vars params = resolve_value vars (λ _ v. v) params

  -- The generator of `resolve_var`.
  abbrev pub with_name : Text → Json N → Json N
  with_name var_name value = object (field var_key (string var_name) (field resolved_key value end))

  -- `Variables::resolve_var`, up to the deserialization.
  unfoldable pub resolve_var : Variables N → Json N → Result ResolveError (Json N)
  unfolding resolve_value
  resolve_var vars params = resolve_value vars with_name params

  unfoldable pub resolve_key : Variables N → Text → Option (Json N)
  resolve_key vars k = HashMap.get k vars

  -- `Variables::patch`
  unfoldable pub patch : Variables N → Variables N → Variables N
  patch vars changes = HashMap.extend (vars ++ changes) []

module _ {N : Type 0} ⦃e : PartialEq N⦄ where
  -- `Variables::add`: the loop over the other map.
  unfoldable pub add : Variables N → Variables N → Variables N × List (VariableConflict N)
  add mappings [] = (mappings, [])
  add mappings ((k, other_value) ∷ rest) = elim (HashMap.get k mappings) [
    | some o ↦
        let (mappings', conflicts) = add mappings rest in
        (
          mappings',
          (if other_value == o
              then conflicts
              else record { name = k; existing = other_value; imported = o } ∷ conflicts),
        )
    | none ↦ add (HashMap.insert k other_value mappings) rest
  ]

  -- The entry of the patch that `remove_resolved` makes for a variable.
  unfoldable pub note_variable :
      Variables N → Text → Json N → Variables N → Result UnresolveError (Variables N)
  note_variable vars var_name variable changes =
      if HashMap.get var_name vars == some variable
      then ok changes
      else elim (HashMap.get var_name changes) [
        | some o ↦ if o == variable then ok changes else err (conflicting_variables var_name)
        | none ↦ ok (HashMap.insert var_name variable changes)
      ]

  -- The branch of `remove_resolved` for an object that names a variable.
  unfoldable pub remove_named :
      Variables N → Text → Fields N → Variables N → Result UnresolveError (Json N × Variables N)
  unfolding note_variable try_from
  remove_named vars var_name o changes = elim (get_field resolved_key o) [
    | none ↦ err resolved_missing
    | some x ↦ do
      variable ← try_from x
      changes' ← note_variable vars var_name variable changes
      ok (object (remove_field resolved_key o), changes')
  ]

  -- `remove_resolved`: the document, and the patch that is handed from value to value.
  module _ (vars : Variables N) where
    unfoldable mutual
      pub remove_resolved : Json N → Variables N → Result UnresolveError (Json N × Variables N)
      remove_resolved (array a) changes = map_ok (λ r. (array r.0, r.1)) (remove_items a changes)
      remove_resolved (object o) changes =
          let others = map_ok (λ r. (object r.0, r.1)) (remove_fields o changes) in
          elim (get_field var_key o) [
            | some var_name ↦ elim var_name [
              | string name ↦ remove_named vars name o changes
              | _ ↦ others
            ]
            | none ↦ others
          ]
      remove_resolved x changes = ok (x, changes)

      pub remove_items : Items N → Variables N → Result UnresolveError (Items N × Variables N)
      remove_items nil changes = ok (nil, changes)
      remove_items (cons x xs) changes = do
        (x', changes') ← remove_resolved x changes
        (xs', changes'') ← remove_items xs changes'
        ok (cons x' xs', changes'')

      pub remove_fields : Fields N → Variables N → Result UnresolveError (Fields N × Variables N)
      remove_fields end changes = ok (end, changes)
      remove_fields (field k x fs) changes = do
        (x', changes') ← remove_resolved x changes
        (fs', changes'') ← remove_fields fs changes'
        ok (field k x' fs', changes'')
