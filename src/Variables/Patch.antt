-- ===== src/Variables/Patch.antt =====
-- Maps of variables that are merged: `patch` and `add`.
use pilatus.Base.{
  ◌≡◌, refl, sym, ap, ◌∙◌, ◌≢◌, ◌↔◌, ◌⊎◌, inl, inr, false, none, some, [], ◌∷◌, ◌++◌, arith,
  PartialEq, nat_eq, list_eq, list_beq_iff, All, All-map, Option-cases, Bool-cases,
}
use pilatus.Base.Text.{Text}
use pilatus.HashMap
use pilatus.HashMap.{HashMap, NodupKeys, or_else}
use pilatus.Json.{Json, json_eq, json_beq, json_beq_iff}
use pilatus.Variables.Defs.{Variables, VariableConflict, patch, add, resolve_key}

module _ {N : Type 0} where
  -- If neither map holds a key twice, a lookup in a patched map finds the patch's value first, then
  -- the old one.
  pub resolve_key-patch :
      (vars changes : Variables N) (k : Text)
      → NodupKeys vars
      → NodupKeys changes
      → resolve_key (patch vars changes) k ≡ or_else (resolve_key changes k) (resolve_key vars k)
  unfolding resolve_key patch HashMap.get
  resolve_key-patch vars changes k h g =
      ap (HashMap.get k) (HashMap.extend-append vars changes [])
      ∙ ground (
        arith,
        HashMap.get-extend k changes (HashMap.extend vars []) g,
        HashMap.get-extend k vars [] h,
      )

  -- Patching keeps the keys apart.
  pub patch-NodupKeys : (vars changes : Variables N) → NodupKeys (patch vars changes)
  unfolding patch
  patch-NodupKeys vars changes = HashMap.extend-NodupKeys (vars ++ changes) [] tt

module _ {N : Type 0} ⦃e : PartialEq N⦄ where
  -- After `add`, a lookup finds the value that was there first, then the added one.
  pub resolve_key-add :
      (vars other : Variables N) (k : Text)
      → resolve_key (add vars other).0 k ≡ or_else (resolve_key vars k) (resolve_key other k)
  unfolding resolve_key add HashMap.get
  resolve_key-add vars [] k = ground arith
  resolve_key-add vars ((j, v) ∷ other) k = elim (Option-cases (HashMap.get j vars)) [
    | inl new ↦ ground (
      arith,
      new,
      resolve_key-add (HashMap.insert j v vars) other k,
      HashMap.get-insert j k v vars,
      list_beq_iff j k,
    )
    | inr (o, old) ↦ ground (arith, old, resolve_key-add vars other k, list_beq_iff j k)
  ]

  abbrev pub Agrees : Variables N → Text × Json N → Type 0
  Agrees vars (k, v) = (HashMap.get k vars ≡ none) ⊎ (HashMap.get k vars ≡ some v)

  Agrees-insert :
      (vars : Variables N) (j : Text) (w : Json N) (x : Text × Json N)
      → j ≢ x.0
      → Agrees (HashMap.insert j w vars) x ↔ Agrees vars x
  Agrees-insert vars j w x n =
      let same = HashMap.get-insert_ne j x.0 w vars n in (λ h. rw (← same) h, λ h. rw same h)

  ne_of_absent :
      (j : Text) (other : Variables N) → HashMap.get j other ≡ none → All (λ x. j ≢ x.0) other
  unfolding HashMap.get
  ne_of_absent j [] h = tt
  ne_of_absent j ((k, v) ∷ other) h =
      ((λ p. absurd (ground (arith, list_beq_iff k j))), ne_of_absent j other (ground arith))

  All-Agrees-insert :
      (vars : Variables N) (j : Text) (w : Json N) (other : Variables N)
      → All (λ x. j ≢ x.0) other
      → All (Agrees (HashMap.insert j w vars)) other ↔ All (Agrees vars) other
  All-Agrees-insert vars j w [] n = (λ h. tt, λ h. tt)
  All-Agrees-insert vars j w (x ∷ other) (p, n) =
      let here = Agrees-insert vars j w x p in
      let rest = All-Agrees-insert vars j w other n in
      (λ h. (here.0 h.0, rest.0 h.1), λ h. (here.1 h.0, rest.1 h.1))

  -- If the added map holds no key twice, `add` reports no conflict exactly if the maps agree on
  -- every variable that both hold.
  pub add-eq-nil_iff :
      (vars other : Variables N)
      → NodupKeys other
      → ((add vars other).1 ≡ []) ↔ All (Agrees vars) other
  unfolding add
  add-eq-nil_iff vars [] n = (λ h. tt, λ h. refl)
  add-eq-nil_iff vars ((j, v) ∷ other) (a, n) = elim (Option-cases (HashMap.get j vars)) [
    | inl new ↦
        let ih = add-eq-nil_iff (HashMap.insert j v vars) other n in
        let same = All-Agrees-insert vars j v other (ne_of_absent j other a) in
        rw (new, add) (λ h. (inl refl, same.0 (ih.0 h)), λ h. ih.1 (same.1 h.1))
    | inr (o, old) ↦
        let ih = add-eq-nil_iff vars other n in
        elim (Bool-cases (json_beq v o)) [
          | inl t ↦
              let value = (json_beq_iff v o).0 t in
              rw (old, t, add) (λ h. (inr (ap some (sym value)), ih.0 h), λ h. ih.1 h.1)
          | inr t ↦
              rw (old, t, add)
                (λ h. absurd (cc), λ h. absurd (ground (arith, h.0, json_beq_iff v o)))
        ]
  ]

  pub record Swapped (vars other : Variables N) (c : VariableConflict N) : Type 0 where
    pub from_other : HashMap.get c.name other ≡ some c.existing
    pub from_vars : HashMap.get c.name vars ≡ some c.imported
    pub differ : c.existing ≢ c.imported

  Swapped-insert :
      (vars other : Variables N) (j : Text) (v : Json N)
      → HashMap.get j other ≡ none
      → (c : VariableConflict N) → Swapped (HashMap.insert j v vars) other c
      → Swapped vars ((j, v) ∷ other) c
  unfolding HashMap.get
  Swapped-insert vars other j v a c h = record {
    from_other = ground (arith, h.from_other, list_beq_iff j c.name);
    from_vars = ground (
      arith,
      h.from_vars,
      h.from_other,
      HashMap.get-insert j c.name v vars,
      list_beq_iff j c.name,
    );
    differ = h.differ;
  }

  Swapped-cons :
      (vars other : Variables N) (j : Text) (v : Json N)
      → HashMap.get j other ≡ none
      → (c : VariableConflict N) → Swapped vars other c
      → Swapped vars ((j, v) ∷ other) c
  unfolding HashMap.get
  Swapped-cons vars other j v a c h = record {
    from_other = ground (arith, h.from_other, list_beq_iff j c.name);
    from_vars = h.from_vars;
    differ = h.differ;
  }

  Swapped-first :
      (vars other : Variables N) (j : Text) (v o : Json N)
      → HashMap.get j vars ≡ some o
      → json_beq v o ≡ false
      → Swapped vars ((j, v) ∷ other) (record { name = j; existing = v; imported = o })
  unfolding HashMap.get
  Swapped-first vars other j v o h f = record {
    from_other = ground (arith, list_beq_iff j j);
    from_vars = h;
    differ = λ p. cc (f, (json_beq_iff v o).1 p);
  }

  -- If the added map holds no key twice, every conflict that `add` reports names a variable that
  -- both maps hold with different values. Its field `existing` is the value in the added map, and
  -- `imported` the one in the map added to.
  pub add-All-Swapped :
      (vars other : Variables N) → NodupKeys other → All (Swapped vars other) (add vars other).1
  unfolding add
  add-All-Swapped vars [] n = tt
  add-All-Swapped vars ((j, v) ∷ other) (a, n) = elim (Option-cases (HashMap.get j vars)) [
    | inl new ↦
        let ih = add-All-Swapped (HashMap.insert j v vars) other n in
        rw (new, add) (All-map (Swapped-insert vars other j v a) _ ih)
    | inr (o, old) ↦
        let ih = All-map (Swapped-cons vars other j v a) _ (add-All-Swapped vars other n) in
        elim (Bool-cases (json_beq v o)) [
          | inl t ↦ rw (old, t, add) ih
          | inr t ↦ rw (old, t, add) (Swapped-first vars other j v o old t, ih)
        ]
  ]
