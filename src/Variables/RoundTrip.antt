-- ===== src/Variables/RoundTrip.antt =====
-- `resolve_var` and `remove_resolved` undo one another.
use pilatus.Base.{
  ◌≡◌, refl, subst, inl, inr, none, some, arith, PartialEq, nat_eq, list_eq, option_beq_iff, All,
  Option-cases,
}
use pilatus.Base.Text.{Text}
use pilatus.Base.Result.{Result, ok, err, ◌>>=◌, map_ok}
use pilatus.HashMap
use pilatus.HashMap.{HashMap, NodupKeys}
use pilatus.Json.{
  Json, null, bool, number, string, array, object, Items, nil, cons, Fields, end, field, get_field,
  json_eq,
}
use pilatus.Variables.Defs.{
  Variables, ResolveError, var_key, try_from, check_recursive, check_items, check_fields,
  resolve_value, resolve_items, resolve_fields, substitute, lone_var, with_name, resolve_var,
  note_variable, remove_named, remove_resolved, remove_items, remove_fields,
}
use pilatus.Variables.Resolve.{
  object-cases, check-array, check-cons, check-field, resolve_value-plain, resolve_value-var,
}

-- What `Variable::try_from` lets pass.
abbrev pub IsVariable : {N : Type 0} → Json N → Type 0
IsVariable v = try_from v ≡ ok v

module _ {N : Type 0} ⦃e : PartialEq N⦄ (vars : Variables N) where
  -- A resolved document is turned back into `d`, and no patch is made.
  abbrev Back : Result ResolveError (Json N) → Json N → Type 0
  Back (ok r) d = (c : Variables N) → remove_resolved vars r c ≡ ok (d, c)
  Back (err x) d = Unit

  abbrev BackItems : Result ResolveError (Items N) → Items N → Type 0
  BackItems (ok r) xs = (c : Variables N) → remove_items vars r c ≡ ok (xs, c)
  BackItems (err x) xs = Unit

  abbrev BackFields : Result ResolveError (Fields N) → Fields N → Type 0
  BackFields (ok r) fs = (c : Variables N) → remove_fields vars r c ≡ ok (fs, c)
  BackFields (err x) fs = Unit

  abbrev NoVar : Result ResolveError (Fields N) → Type 0
  NoVar (ok fs) = get_field var_key fs ≡ none
  NoVar (err x) = Unit

  NoVar-resolve_fields :
      (fs : Fields N) → get_field var_key fs ≡ none → NoVar (resolve_fields vars with_name fs)
  unfolding resolve_fields
  NoVar-resolve_fields end h = refl
  NoVar-resolve_fields (field k x fs) h =
      go (resolve_value vars with_name x) (resolve_fields vars with_name fs)
        (NoVar-resolve_fields fs (ground arith))
    where
      go :
          (r : Result ResolveError (Json N)) (s : Result ResolveError (Fields N))
          → NoVar s
          → NoVar (r >>= λ x'. map_ok (field k x') s)
      go (ok x') (ok fs') n = ground arith
      go (ok x') (err y) n = tt
      go (err y) s n = tt

  Back-array :
      (r : Result ResolveError (Items N)) (xs : Items N)
      → BackItems r xs
      → Back (map_ok array r) (array xs)
  unfolding remove_resolved
  Back-array (ok xs') xs h = λ c. rw (h c)
  Back-array (err x) xs h = tt

  Back-object :
      (r : Result ResolveError (Fields N)) (fs : Fields N)
      → NoVar r
      → BackFields r fs
      → Back (map_ok object r) (object fs)
  unfolding remove_resolved
  Back-object (ok fs') fs n h = λ c. rw (n, h c, remove_resolved)
  Back-object (err x) fs n h = tt

  Back-cons :
      (r : Result ResolveError (Json N)) (s : Result ResolveError (Items N)) (x : Json N)
      (xs : Items N)
      → Back r x
      → BackItems s xs
      → BackItems (r >>= λ x'. map_ok (cons x') s) (cons x xs)
  unfolding remove_items
  Back-cons (ok x') (ok xs') x xs h k = λ c. rw (h c, k c)
  Back-cons (ok x') (err y) x xs h k = tt
  Back-cons (err y) s x xs h k = tt

  Back-field :
      (j : Text) (r : Result ResolveError (Json N)) (s : Result ResolveError (Fields N))
      (x : Json N) (fs : Fields N)
      → Back r x
      → BackFields s fs
      → BackFields (r >>= λ x'. map_ok (field j x') s) (field j x fs)
  unfolding remove_fields
  Back-field j (ok x') (ok fs') x fs h k = λ c. rw (h c, k c)
  Back-field j (ok x') (err y) x fs h k = tt
  Back-field j (err y) s x fs h k = tt

  note_known :
      (s : Text) (v : Json N) (c : Variables N)
      → HashMap.get s vars ≡ some v
      → note_variable vars s v c ≡ ok c
  unfolding note_variable
  note_known s v c h = rw (h, (option_beq_iff (some v) (some v)).1 refl)

  remove_named-with_name :
      (s : Text) (v : Json N) (c : Variables N)
      → IsVariable v
      → HashMap.get s vars ≡ some v
      → remove_resolved vars (with_name s v) c ≡ ok (object (field var_key (string s) end), c)
  unfolding remove_resolved remove_named
  remove_named-with_name s v c h g = rw (h, note_known s v c g)

  Back-var :
      (s : Text)
      → All (λ x. IsVariable x.1) vars
      → Back (lone_var vars with_name (string s) end) (object (field var_key (string s) end))
  Back-var s h = elim (Option-cases (HashMap.get s vars)) [
    | inl missing ↦ rw (missing, substitute) tt
    | inr (v, found) ↦
        let valid = HashMap.get-All IsVariable s vars h found in
        rw (found, substitute) (λ c. remove_named-with_name s v c valid found)
  ]

  Back-plain :
      (fs : Fields N)
      → All (λ x. IsVariable x.1) vars
      → check_recursive (object fs) ≡ ok tt
      → (check_fields fs ≡ ok tt → BackFields (resolve_fields vars with_name fs) fs)
      → Back (resolve_value vars with_name (object fs)) (object fs)
  Back-plain fs valid h ih = elim (object-cases fs h) [
    | inl (s, e) ↦ rw (e, resolve_value-var) (Back-var s valid)
    | inr (missing, checked) ↦ rw (resolve_value-plain vars with_name fs missing) (
        Back-object (resolve_fields vars with_name fs) fs (NoVar-resolve_fields fs missing)
          (ih checked))
  ]

  module _ (valid : All (λ x. IsVariable x.1) vars) where
    mutual
      unfolding resolve_value resolve_items resolve_fields remove_resolved remove_items
          remove_fields

      resolve-Back :
          (d : Json N) → check_recursive d ≡ ok tt → Back (resolve_value vars with_name d) d
      resolve-Back null h = λ c. refl
      resolve-Back (bool b) h = λ c. refl
      resolve-Back (number n) h = λ c. refl
      resolve-Back (string s) h = λ c. refl
      resolve-Back (array xs) h =
          Back-array (resolve_items vars with_name xs) xs (resolve_items-Back xs (check-array xs h))
      resolve-Back (object fs) h = Back-plain fs valid h (resolve_fields-Back fs)

      resolve_items-Back :
          (xs : Items N) → check_items xs ≡ ok tt → BackItems (resolve_items vars with_name xs) xs
      resolve_items-Back nil h = λ c. refl
      resolve_items-Back (cons x xs) h =
          let (here, later) = check-cons x xs h in
          Back-cons (resolve_value vars with_name x) (resolve_items vars with_name xs) x xs
            (resolve-Back x here) (resolve_items-Back xs later)

      resolve_fields-Back :
          (fs : Fields N)
          → check_fields fs ≡ ok tt
          → BackFields (resolve_fields vars with_name fs) fs
      resolve_fields-Back end h = λ c. refl
      resolve_fields-Back (field k x fs) h =
          let (here, later) = check-field k x fs h in
          Back-field k (resolve_value vars with_name x) (resolve_fields vars with_name fs) x fs
            (resolve-Back x here) (resolve_fields-Back fs later)

  -- If the variables are numbers and strings, and `resolve_var` succeeds on a document that
  -- `check_recursive` accepts, then `remove_resolved` turns its result back into that document and
  -- leaves the patch unchanged.
  pub remove_resolved-resolve_var :
      (d r : Json N) (c : Variables N)
      → All (λ x. IsVariable x.1) vars
      → check_recursive d ≡ ok tt
      → resolve_var vars d ≡ ok r
      → remove_resolved vars r c ≡ ok (d, c)
  unfolding resolve_var
  remove_resolved-resolve_var d r c valid h p = subst (λ q. Back q d) p (resolve-Back valid d h) c
