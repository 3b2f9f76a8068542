-- ===== src/Variables/Resolve.antt =====
-- Which documents are resolved, and what is left in them.
use pilatus.Base.{
  ◌≡◌, refl, ap, ◌↔◌, ◌⊎◌, inl, inr, true, none, List, [], ◌∷◌, ◌++◌, arith, ◌==◌, nat_eq, list_eq,
  list_beq_iff, All, Option-cases, Bool-cases,
}
use pilatus.Base.Text.{Text}
use pilatus.Base.Result.{ok, map_ok, Result-cases, IsOk, IsOk-iff, IsOk-map_ok, IsOk->>=}
use pilatus.HashMap
use pilatus.HashMap.{HashMap, NodupKeys}
use pilatus.Json.{
  Json, null, bool, number, string, array, object, Items, nil, cons, Fields, end, field, get_field,
}
use pilatus.Variables.Defs.{
  Variables, var_key, check_recursive, check_items, check_fields, add_variable_names,
  add_names_items, add_names_fields, variables_names, substitute, lone_var, resolve_value,
  resolve_items, resolve_fields, resolve,
}

module _ {N : Type 0} where
  -- An object that passes `check_recursive` is a lone reference to a variable, or has no `__var`.
  pub object-cases :
      (fs : Fields N)
      → check_recursive (object fs) ≡ ok tt
      → ((s : Text) × (fs ≡ field var_key (string s) end))
        ⊎ ((get_field var_key fs ≡ none) × (check_fields fs ≡ ok tt))
  unfolding check_recursive check_fields
  object-cases end h = inr (refl, refl)
  object-cases (field k v end) h = elim (Bool-cases (k == var_key)) [
    | inl t ↦ lone k v t h
    | inr t ↦ inr (ground arith, ground arith)
  ]
    where
      lone :
          (k : Text) (v : Json N)
          → (k == var_key) ≡ true
          → check_recursive (object (field k v end)) ≡ ok tt
          → ((s : Text) × (field k v end ≡ field var_key (string s) end))
            ⊎ ((get_field var_key (field k v end) ≡ none) × (check_fields (field k v end) ≡ ok tt))
      lone k (string s) t h =
          inl (s, ap (λ j. field j (string s) end) ((list_beq_iff k var_key).0 t))
      lone k v t h = absurd (ground arith)
  object-cases (field k v (field j w fs)) h =
      elim (Option-cases (get_field var_key (field k v (field j w fs)))) [
        | inl missing ↦ inr (missing, ground (arith, missing))
        | inr (x, found) ↦ absurd (ground (arith, found))
      ]

  pub check-array : (xs : Items N) → check_recursive (array xs) ≡ ok tt → check_items xs ≡ ok tt
  unfolding check_recursive
  check-array xs h = h

  pub check-cons :
      (x : Json N) (xs : Items N)
      → check_items (cons x xs) ≡ ok tt
      → (check_recursive x ≡ ok tt) × (check_items xs ≡ ok tt)
  unfolding check_items
  check-cons x xs h = elim (Result-cases (check_recursive x)) [
    | inl (u, good) ↦ (good, ground (arith, good))
    | inr (v, bad) ↦ absurd (ground (arith, bad))
  ]

  pub check-field :
      (k : Text) (x : Json N) (fs : Fields N)
      → check_fields (field k x fs) ≡ ok tt
      → (check_recursive x ≡ ok tt) × (check_fields fs ≡ ok tt)
  unfolding check_fields
  check-field k x fs h = elim (Result-cases (check_recursive x)) [
    | inl (u, good) ↦ (good, ground (arith, good))
    | inr (v, bad) ↦ absurd (ground (arith, bad))
  ]

  add_names-plain :
      (fs : Fields N) (found : List Text)
      → get_field var_key fs ≡ none
      → add_variable_names (object fs) found ≡ add_names_fields fs found
  unfolding add_variable_names
  add_names-plain fs found h = rw (h, add_variable_names)

  module _ (vars : Variables N) (generator : Text → Json N → Json N) where
    pub resolve_value-plain :
        (fs : Fields N)
        → get_field var_key fs ≡ none
        → resolve_value vars generator (object fs)
          ≡ map_ok object (resolve_fields vars generator fs)
    unfolding resolve_value resolve_fields
    resolve_value-plain end h = refl
    resolve_value-plain (field k v fs) h = ground arith

    abbrev pub Known : Text → Type 0
    Known x = HashMap.contains_key x vars ≡ true

    IsOk-lone : (s : Text) → IsOk (lone_var vars generator (string s) end) ↔ Known s
    IsOk-lone s = elim (Option-cases (HashMap.get s vars)) [
      | inl missing ↦ rw (missing, substitute) (λ h. absurd h, λ h. absurd (cc))
      | inr (v, found) ↦ rw (found, substitute) (λ h. refl, λ h. tt)
    ]

    pub resolve_value-var :
        (s : Text)
        → resolve_value vars generator (object (field var_key (string s) end))
          ≡ lone_var vars generator (string s) end
    unfolding resolve_value
    resolve_value-var s = refl

    add_names-var :
        (s : Text) (found : List Text)
        → add_variable_names {N = N} (object (field var_key (string s) end)) found ≡ found ++ s ∷ []
    unfolding add_variable_names
    add_names-var s found = refl

    All-Known_append :
        (found : List Text) (s : Text) → All Known (found ++ s ∷ []) ↔ (All Known found × Known s)
    All-Known_append [] s = (λ h. (tt, h.0), λ h. (h.1, tt))
    All-Known_append (x ∷ found) s =
        let (to, from) = All-Known_append found s in
        (λ h. let (a, b) = to h.1 in ((h.0, a), b), λ h. (h.0.0, from (h.0.1, h.1)))

    named_iff :
        (s : Text) (found : List Text)
        → All Known (add_variable_names {N = N} (object (field var_key (string s) end)) found) ↔ (
            All Known found
            × IsOk (resolve_value vars generator (object (field var_key (string s) end))))
    named_iff s found =
        let (to, from) = All-Known_append found s in
        rw (add_names-var, resolve_value-var)
          (λ h. ((to h).0, (IsOk-lone s).1 (to h).1), λ h. from (h.0, (IsOk-lone s).0 h.1))

    object_iff :
        (fs : Fields N) (found : List Text)
        → check_recursive (object fs) ≡ ok tt
        → (check_fields fs ≡ ok tt
            → All Known (add_names_fields fs found)
              ↔ (All Known found × IsOk (resolve_fields vars generator fs)))
        → All Known (add_variable_names (object fs) found)
          ↔ (All Known found × IsOk (resolve_value vars generator (object fs)))
    object_iff fs found h ih = elim (object-cases fs h) [
      | inl (s, e) ↦ rw e (named_iff s found)
      | inr (missing, checked) ↦
          let (to, from) = ih checked in
          let (up, down) = IsOk-map_ok object (resolve_fields vars generator fs) in
          rw (add_names-plain fs found missing, resolve_value-plain fs missing)
            (λ p. ((to p).0, down (to p).1), λ p. from (p.0, up p.1))
    ]

    mutual
      unfolding add_variable_names add_names_items add_names_fields resolve_value resolve_items
          resolve_fields

      resolves_iff :
          (d : Json N) (found : List Text)
          → check_recursive d ≡ ok tt
          → All Known (add_variable_names d found)
            ↔ (All Known found × IsOk (resolve_value vars generator d))
      resolves_iff null found h = (λ p. (p, tt), λ p. p.0)
      resolves_iff (bool b) found h = (λ p. (p, tt), λ p. p.0)
      resolves_iff (number n) found h = (λ p. (p, tt), λ p. p.0)
      resolves_iff (string s) found h = (λ p. (p, tt), λ p. p.0)
      resolves_iff (array xs) found h =
          let (to, from) = resolves_items_iff xs found (check-array xs h) in
          let (up, down) = IsOk-map_ok array (resolve_items vars generator xs) in
          (λ p. ((to p).0, down (to p).1), λ p. from (p.0, up p.1))
      resolves_iff (object fs) found h = object_iff fs found h (resolves_fields_iff fs found)

      resolves_items_iff :
          (xs : Items N) (found : List Text)
          → check_items xs ≡ ok tt
          → All Known (add_names_items xs found)
            ↔ (All Known found × IsOk (resolve_items vars generator xs))
      resolves_items_iff nil found h = (λ p. (p, tt), λ p. p.0)
      resolves_items_iff (cons x xs) found h =
          let (here, later) = check-cons x xs h in
          let (to, from) = resolves_items_iff xs (add_variable_names x found) later in
          let (to', from') = resolves_iff x found here in
          let (up, down) =
            IsOk->>= (resolve_value vars generator x) (resolve_items vars generator xs) cons in
          (
            λ p. let q = to' (to p).0 in (q.0, down (q.1, (to p).1)),
            λ p. from (from' (p.0, (up p.1).0), (up p.1).1),
          )

      resolves_fields_iff :
          (fs : Fields N) (found : List Text)
          → check_fields fs ≡ ok tt
          → All Known (add_names_fields fs found)
            ↔ (All Known found × IsOk (resolve_fields vars generator fs))
      resolves_fields_iff end found h = (λ p. (p, tt), λ p. p.0)
      resolves_fields_iff (field k x fs) found h =
          let (here, later) = check-field k x fs h in
          let (to, from) = resolves_fields_iff fs (add_variable_names x found) later in
          let (to', from') = resolves_iff x found here in
          let (up, down) =
            IsOk->>= (resolve_value vars generator x) (resolve_fields vars generator fs)
              (field k) in
          (
            λ p. let q = to' (to p).0 in (q.0, down (q.1, (to p).1)),
            λ p. from (from' (p.0, (up p.1).0), (up p.1).1),
          )

-- A document that `check_recursive` accepts is resolved exactly if every variable that
-- `variables_names` lists for it is known.
pub resolve_iff :
    {N : Type 0} (vars : Variables N) (d : Json N)
    → check_recursive d ≡ ok tt
    → All (λ x. HashMap.contains_key x vars ≡ true) (variables_names d)
      ↔ ((r : Json N) × (resolve vars d ≡ ok r))
unfolding resolve variables_names
resolve_iff vars d h =
    let (to, from) = resolves_iff vars (λ _ v. v) d [] h in
    let (up, down) = IsOk-iff (resolve_value vars (λ _ v. v) d) in
    (λ p. up (to p).1, λ p. from (tt, down p))
