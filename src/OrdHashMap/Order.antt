-- ===== src/OrdHashMap/Order.antt =====
-- An `OrdHashMap` against its specification: the list of its entries in order.
use mathlib.Core.List.{Permᴰ}
use pilatus.Base.{
  ℕ, suc, ◌+◌, ◌≡◌, refl, sym, ap, ◌∙◌, ◌≢◌, ◌<◌, true, false, not, none, some, List, [], ◌∷◌, ◌++◌,
  map, arith, inl, inr, length, if◌then◌else◌, leb, PartialEq, ◌==◌, Bool-cases, Option-cases, All,
  All-map, filter, append-nil, append_assoc,
}
use pilatus.Base.Sort.{
  Distinct, insert_sorted, sort_by_key, sort_by_key-append, sort_by_key-filter, sort_by_key-map,
  sort_by_key-perm, length-sort_by_key,
}
use pilatus.HashMap
use pilatus.HashMap.{HashMap, NodupKeys}
use pilatus.OrdHashMap.Defs.{
  OrdHashMap, value, index, unindexed, shift_down, iter_ordered, get, contains_key, insert, remove,
  visit_map, deserialize, serialize,
}
use pilatus.OrdHashMap.Indices.{
  IsValid, insert-IsValid, visit_map-cons, absent-insert, length-insert, none_absent, remove-All_ne,
  shift-KeepsOrder, deserialize-IsValid,
}

module _ {ℓ κ} {K : Type ℓ} {V : Type κ} ⦃e : PartialEq K⦄ where
  -- The order of iteration of a valid map does not depend on the order of the hash table.
  pub iter_ordered-perm :
      {m n : OrdHashMap K V} → Permᴰ m n → IsValid m → iter_ordered m ≡ iter_ordered n
  unfolding iter_ordered
  iter_ordered-perm d h = ap (map unindexed) (sort_by_key-perm index d h.distinct)

  length-unindexed : (s : List (K × (ℕ × V))) → length (map unindexed s) ≡ length s
  length-unindexed [] = refl
  length-unindexed (x ∷ s) = ap suc (length-unindexed s)

  pub length-iter_ordered : (m : OrdHashMap K V) → length (iter_ordered m) ≡ length m
  unfolding iter_ordered
  length-iter_ordered m = length-unindexed (sort_by_key index m) ∙ length-sort_by_key index m

  map-append_one {μ} :
      {B : Type μ} (f : K × (ℕ × V) → B) (s : List (K × (ℕ × V))) (x : K × (ℕ × V))
      → map f (s ++ x ∷ []) ≡ map f s ++ f x ∷ []
  map-append_one f [] x = refl
  map-append_one f (y ∷ s) x = ap (◌∷◌ (f y)) (map-append_one f s x)

  -- Inserting a new key into a valid map puts its entry behind all others in the order of
  -- iteration.
  pub iter_ordered-insert :
      (k : K) (v : V) (m : OrdHashMap K V)
      → IsValid m
      → contains_key k m ≡ false
      → iter_ordered (insert k v m).0 ≡ iter_ordered m ++ (k, v) ∷ []
  unfolding iter_ordered insert contains_key
  iter_ordered-insert k v m h new =
      let absent : HashMap.get k m ≡ none = ground arith in
      ap (λ t. map unindexed (sort_by_key index t)) (HashMap.insert_absent k (length m, v) m absent)
      ∙ ap (map unindexed) (
          sort_by_key-append index m (k, (length m, v))
            (All-map (λ x (p : index x < length m). omega arith) m h.bounded))
      ∙ map-append_one unindexed (sort_by_key index m) (k, (length m, v))

  unindexed-shift :
      (i : ℕ) (s : List (K × (ℕ × V))) → map unindexed (map (shift_down i) s) ≡ map unindexed s
  unindexed-shift i [] = refl
  unindexed-shift i (x ∷ s) = ap (◌∷◌ (unindexed x)) (unindexed-shift i s)

  unindexed-filter :
      (k : K) (s : List (K × (ℕ × V)))
      → map unindexed (filter (λ x. not (x.0 == k)) s)
        ≡ filter (λ x. not (x.0 == k)) (map unindexed s)
  unindexed-filter k [] = refl
  unindexed-filter k (x ∷ s) = ground (arith, unindexed-filter k s)

  iter_ordered-remove_table :
      (k : K) (m : OrdHashMap K V)
      → iter_ordered (HashMap.remove k m) ≡ HashMap.remove k (iter_ordered m)
  unfolding iter_ordered
  iter_ordered-remove_table k m =
      ap (λ t. map unindexed (sort_by_key index t)) (HashMap.remove-filter k m)
      ∙ ap (map unindexed) (sort_by_key-filter index _ m)
      ∙ unindexed-filter k (sort_by_key index m)
      ∙ sym (HashMap.remove-filter k (map unindexed (sort_by_key index m)))

  iter_ordered-shift :
      (i : ℕ) (s : OrdHashMap K V)
      → All (λ x. index x ≢ i) s
      → iter_ordered (map (shift_down i) s) ≡ iter_ordered s
  unfolding iter_ordered
  iter_ordered-shift i s h =
      ap (map unindexed) (sort_by_key-map index (shift_down i) s (shift-KeepsOrder i s h))
      ∙ unindexed-shift i (sort_by_key index s)

  get-insert_sorted :
      (k : K) (x : K × (ℕ × V)) (s : OrdHashMap K V)
      → HashMap.get x.0 s ≡ none
      → HashMap.get k (insert_sorted index x s) ≡ (if x.0 == k then some x.1 else HashMap.get k s)
  unfolding insert_sorted HashMap.get
  get-insert_sorted k x [] a = refl
  get-insert_sorted k x (y ∷ s) a =
      ground (arith, get-insert_sorted k x s, e.eq_iff x.0 k, e.eq_iff y.0 k, e.eq_iff y.0 x.0)

  get-sort_by_key :
      (k : K) (m : OrdHashMap K V)
      → NodupKeys m
      → HashMap.get k (sort_by_key index m) ≡ HashMap.get k m
  unfolding sort_by_key HashMap.get
  get-sort_by_key k [] h = refl
  get-sort_by_key k (x ∷ m) (a, h) = ground (
    arith,
    get-insert_sorted k x (sort_by_key index m),
    get-sort_by_key k m h,
    get-sort_by_key x.0 m h,
  )

  get-unindexed : (k : K) (s : OrdHashMap K V) → HashMap.get k (map unindexed s) ≡ get k s
  unfolding HashMap.get get
  get-unindexed k [] = refl
  get-unindexed k (x ∷ s) = ground (arith, get-unindexed k s)

  -- A lookup finds what the ordered entries hold.
  pub get-iter_ordered :
      (k : K) (m : OrdHashMap K V) → NodupKeys m → HashMap.get k (iter_ordered m) ≡ get k m
  unfolding iter_ordered get
  get-iter_ordered k m h =
      unfold get in
      get-unindexed k (sort_by_key index m) ∙ ap (HashMap.map_option value) (get-sort_by_key k m h)

  -- Removing a key from a valid map takes its entry out of the iteration and leaves the order of
  -- the others.
  pub iter_ordered-remove :
      (k : K) (m : OrdHashMap K V)
      → IsValid m
      → iter_ordered (remove k m).0 ≡ HashMap.remove k (iter_ordered m)
  iter_ordered-remove k m h = elim (Option-cases (HashMap.get k m)) [
    | inl absent ↦
        let gone : HashMap.get k (iter_ordered m) ≡ none =
          get-iter_ordered k m h.nodup ∙ (unfold get in ap (HashMap.map_option value) absent) in
        unfold remove in rw (absent, remove) (sym (HashMap.remove_absent k _ gone))
    | inr (iv, present) ↦
        unfold remove in
        rw (present, remove)
          (iter_ordered-shift iv.0 (HashMap.remove k m)
              (remove-All_ne k m h.nodup h.distinct present)
            ∙ iter_ordered-remove_table k m)
  ]

  get-insert_ne_none :
      (k : K) (x : K × (ℕ × V)) (s : OrdHashMap K V)
      → HashMap.get k s ≡ none
      → HashMap.get x.0 s ≡ none
      → x.0 ≢ k
      → HashMap.get k (insert_sorted index x s) ≡ none
  get-insert_ne_none k x s a b n = ground (arith, get-insert_sorted k x s b, e.eq_iff x.0 k)

  insert_sorted-NodupKeys :
      (x : K × (ℕ × V)) (s : OrdHashMap K V)
      → HashMap.get x.0 s ≡ none
      → NodupKeys s
      → NodupKeys (insert_sorted index x s)
  unfolding insert_sorted HashMap.get
  insert_sorted-NodupKeys x [] a h = (refl, tt)
  insert_sorted-NodupKeys x (y ∷ s) a (b, h) = elim (Bool-cases (leb (index x) (index y))) [
    | inl t ↦ rw t (a, (b, h))
    | inr t ↦ rw t (
      get-insert_ne_none y.0 x s b (ground arith) (ground (arith, e.eq_iff y.0 x.0)),
      insert_sorted-NodupKeys x s (ground arith) h,
    )
  ]

  sort_by_key-NodupKeys : (m : OrdHashMap K V) → NodupKeys m → NodupKeys (sort_by_key index m)
  unfolding sort_by_key
  sort_by_key-NodupKeys [] h = tt
  sort_by_key-NodupKeys (x ∷ m) (a, h) =
      insert_sorted-NodupKeys x (sort_by_key index m) (get-sort_by_key x.0 m h ∙ a)
        (sort_by_key-NodupKeys m h)

  unindexed-NodupKeys : (s : OrdHashMap K V) → NodupKeys s → NodupKeys (map unindexed s)
  unindexed-NodupKeys [] h = tt
  unindexed-NodupKeys (x ∷ s) (a, h) = (
    get-unindexed x.0 s ∙ (unfold get in ap (HashMap.map_option value) a),
    unindexed-NodupKeys s h,
  )

  pub iter_ordered-NodupKeys : (m : OrdHashMap K V) → NodupKeys m → NodupKeys (iter_ordered m)
  unfolding iter_ordered
  iter_ordered-NodupKeys m h = unindexed-NodupKeys (sort_by_key index m) (sort_by_key-NodupKeys m h)

  iter_ordered-visit_map :
      (ctr : ℕ) (rest : List (K × V)) (all : OrdHashMap K V)
      → length all ≡ ctr
      → IsValid all
      → NodupKeys rest
      → All (λ x. contains_key x.0 all ≡ false) rest
      → iter_ordered (visit_map ctr rest all) ≡ iter_ordered all ++ rest
  iter_ordered-visit_map ctr [] all n h d f = unfold visit_map in sym (append-nil _)
  iter_ordered-visit_map ctr ((k, v) ∷ rest) all n h (a, d) (p, f) = rw (← n) (
      ap iter_ordered (visit_map-cons k v rest all)
      ∙ iter_ordered-visit_map (length all + 1) rest (insert k v all).0 (length-insert k v all p)
          (insert-IsValid k v all h p) d (absent-insert k v rest all a f)
      ∙ ap (λ t. t ++ rest) (iter_ordered-insert k v all h p)
      ∙ append_assoc (iter_ordered all) ((k, v) ∷ []) rest)

  -- Reading the entries of a JSON object and writing them again gives the same entries in the same
  -- order, if no key stands twice.
  pub serialize-deserialize :
      (entries : List (K × V)) → NodupKeys entries → serialize (deserialize entries) ≡ entries
  unfolding serialize deserialize
  serialize-deserialize entries d =
      iter_ordered-visit_map 0 entries [] refl (record { nodup = tt; bounded = tt; distinct = tt })
        d (none_absent entries)
      ∙ (unfold iter_ordered sort_by_key in refl)

  -- Writing a valid map and reading it back gives a valid map with the same entries in the same
  -- order and the same lookups.
  pub deserialize-serialize :
      (m : OrdHashMap K V)
      → IsValid m
      → IsValid (deserialize (serialize m))
        × (iter_ordered (deserialize (serialize m)) ≡ iter_ordered m)
        × ((k : K) → get k (deserialize (serialize m)) ≡ get k m)
  deserialize-serialize m h =
      let nodup : NodupKeys (serialize m) = unfold serialize in iter_ordered-NodupKeys m h.nodup in
      let valid = deserialize-IsValid (serialize m) nodup in
      let same : iter_ordered (deserialize (serialize m)) ≡ iter_ordered m =
        unfold serialize in serialize-deserialize (serialize m) nodup in
      (
        valid,
        same,
        λ k.
            sym (get-iter_ordered k _ valid.nodup)
            ∙ ap (HashMap.get k) same
            ∙ get-iter_ordered k m h.nodup,
      )

  key_of_index :
      (k j : K) (m : OrdHashMap K V) {a b : ℕ × V}
      → Distinct index m
      → HashMap.get k m ≡ some a
      → HashMap.get j m ≡ some b
      → a.0 ≡ b.0
      → k ≡ j
  unfolding HashMap.get
  key_of_index k j [] d p q s = absurd (cc)
  key_of_index k j (x ∷ m) {a} {b} (n, d) p q s = elim (Bool-cases (x.0 == k)) [
    | inl t ↦ elim (Bool-cases (x.0 == j)) [
      | inl u ↦ cc ((e.eq_iff x.0 k).0 t, (e.eq_iff x.0 j).0 u)
      | inr u ↦
          let later : HashMap.get j m ≡ some b = ground arith in
          let apart : index x ≢ b.0 = HashMap.get-All (λ iv. index x ≢ iv.0) j m n later in
          let here : x.1 ≡ a = ground arith in absurd (apart (ap (λ iv. iv.0) here ∙ s))
    ]
    | inr t ↦ elim (Bool-cases (x.0 == j)) [
      | inl u ↦
          let later : HashMap.get k m ≡ some a = ground arith in
          let apart : index x ≢ a.0 = HashMap.get-All (λ iv. index x ≢ iv.0) k m n later in
          let here : x.1 ≡ b = ground arith in absurd (apart (ap (λ iv. iv.0) here ∙ sym s))
      | inr u ↦ key_of_index k j m {a = a} {b = b} d (ground arith) (ground arith) s
    ]
  ]

  -- Inserting a key that is there and then a new key gives both the same index, so that the map is
  -- no longer valid.
  pub insert_present_collides :
      (k j : K) (v w : V) (m : OrdHashMap K V)
      → contains_key k m ≡ true
      → contains_key j m ≡ false
      → (HashMap.get k (insert j w (insert k v m).0).0 ≡ some (length m, v))
        × (HashMap.get j (insert j w (insert k v m).0).0 ≡ some (length m, w))
        × ¬ IsValid (insert j w (insert k v m).0).0
  unfolding insert contains_key
  insert_present_collides k j v w m hk hj =
      let old = HashMap.some_of_is_some (HashMap.get k m) hk in
      let longer = HashMap.length-insert_old k (length m, v) old.0 m old.1 in
      let m' = HashMap.insert k (length m, v) m in
      let apart : j ≢ k = λ p. cc (hk, hj, p) in
      let first : HashMap.get k (HashMap.insert j (length m', w) m') ≡ some (length m, v) =
        HashMap.get-insert_ne j k (length m', w) m' apart
        ∙ HashMap.get-insert_self k (length m, v) m in
      let second : HashMap.get j (HashMap.insert j (length m', w) m') ≡ some (length m, w) =
        rw longer (HashMap.get-insert_self j (length m, w) m') in
      (first, second, λ h. apart (sym (key_of_index k j _ h.distinct first second refl)))
