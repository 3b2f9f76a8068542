-- ===== src/OrdHashMap/Lookup.antt =====
-- What a lookup in an `OrdHashMap` sees after each operation, and that keys stay apart.
use pilatus.Base.{
  ℕ, ◌≡◌, refl, ◌∙◌, ◌≢◌, none, some, arith, inl, inr, length, if◌then◌else◌, PartialEq, ◌==◌,
  Option-cases, eq_refl, test_of_ne,
}
use pilatus.HashMap
use pilatus.HashMap.{HashMap, NodupKeys}
use pilatus.OrdHashMap.Defs.{OrdHashMap, get, contains_key, get_mut, insert, remove}
use pilatus.OrdHashMap.Indices.{get-shift_down, shift-NodupKeys}

module _ {ℓ κ} {K : Type ℓ} {V : Type κ} ⦃e : PartialEq K⦄ where
  pub contains_key-get : (k : K) (m : OrdHashMap K V) → contains_key k m ≡ HashMap.is_some (get k m)
  unfolding contains_key get
  contains_key-get k m = ground arith

  pub get-insert :
      (k j : K) (v : V) (m : OrdHashMap K V)
      → get j (insert k v m).0 ≡ (if k == j then some v else get j m)
  unfolding get insert
  get-insert k j v m = ground (arith, HashMap.get-insert k j (length m, v) m)

  pub get-insert_self : (k : K) (v : V) (m : OrdHashMap K V) → get k (insert k v m).0 ≡ some v
  get-insert_self k v m = ground (arith, get-insert k k v m, eq_refl k)

  pub get-insert_ne :
      (k j : K) (v : V) (m : OrdHashMap K V) → k ≢ j → get j (insert k v m).0 ≡ get j m
  get-insert_ne k j v m h = ground (arith, get-insert k j v m, test_of_ne k j h)

  -- `insert` returns the value that the key had.
  pub insert_old : (k : K) (v : V) (m : OrdHashMap K V) → (insert k v m).1 ≡ get k m
  unfolding insert
  insert_old k v m = refl

  pub get-remove :
      (k j : K) (m : OrdHashMap K V) → get j (remove k m).0 ≡ (if k == j then none else get j m)
  get-remove k j m = elim (Option-cases (HashMap.get k m)) [
    | inl absent ↦
        unfold remove get in
        rw (absent, remove)
          (ground (arith, HashMap.get-remove k j m, absent, HashMap.remove_absent k m))
    | inr (iv, present) ↦
        unfold remove in
        rw (present, remove)
          (get-shift_down iv.0 j (HashMap.remove k m)
            ∙ (unfold get in ground (arith, HashMap.get-remove k j m)))
  ]

  -- `remove` returns the value that the key had.
  pub remove_old : (k : K) (m : OrdHashMap K V) → (remove k m).1 ≡ get k m
  unfolding remove get
  remove_old k m = ground arith

  pub get-get_mut :
      (k j : K) (f : V → V) (m : OrdHashMap K V)
      → get j (get_mut k f m) ≡ (if k == j then HashMap.map_option f (get j m) else get j m)
  unfolding get get_mut
  get-get_mut k j f m = ground (arith, HashMap.get-modify k j (λ (iv : ℕ × V). (iv.0, f iv.1)) m)

  pub insert-NodupKeys :
      (k : K) (v : V) (m : OrdHashMap K V) → NodupKeys m → NodupKeys (insert k v m).0
  unfolding insert
  insert-NodupKeys k v m h = HashMap.insert-NodupKeys k (length m, v) m h

  pub get_mut-NodupKeys :
      (k : K) (f : V → V) (m : OrdHashMap K V) → NodupKeys m → NodupKeys (get_mut k f m)
  unfolding get_mut
  get_mut-NodupKeys k f m h = HashMap.modify-NodupKeys k _ m h

  pub remove-NodupKeys : (k : K) (m : OrdHashMap K V) → NodupKeys m → NodupKeys (remove k m).0
  remove-NodupKeys k m h = elim (Option-cases (HashMap.get k m)) [
    | inl absent ↦ unfold remove in rw (absent, remove) h
    | inr (iv, present) ↦
        unfold remove in
        rw (present, remove)
          (shift-NodupKeys iv.0 (HashMap.remove k m) (HashMap.remove-NodupKeys k m h))
  ]
