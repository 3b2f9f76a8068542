-- ===== src/OrdHashMap/Indices.antt =====
-- The indices of an `OrdHashMap`: all below its length and pairwise different.
use pilatus.Base.{
  ℕ, suc, ◌+◌, ◌≡◌, refl, ap, ◌≢◌, ◌<◌, false, none, some, List, [], ◌∷◌, ◌++◌, map, arith, inl,
  inr, length, length-append, PartialEq, ◌==◌, Bool-cases, Option-cases, All, All-map, All-append,
  All-filter,
}
use pilatus.Base.Sort.{Distinct, Distinct-filter, KeepsOrder, Keeps}
use pilatus.HashMap
use pilatus.HashMap.{HashMap, NodupKeys}
use pilatus.OrdHashMap.Defs.{
  OrdHashMap, index, shift_down, get, contains_key, get_mut, insert, remove, visit_map, deserialize,
}

module _ {ℓ κ} {K : Type ℓ} {V : Type κ} ⦃e : PartialEq K⦄ where
  pub record IsValid (m : OrdHashMap K V) : Type (ℓ ⊔ κ) where
    pub nodup : NodupKeys m
    pub bounded : All (λ x. index x < length m) m
    pub distinct : Distinct index m

  Distinct-append :
      (m : OrdHashMap K V) (x : K × (ℕ × V))
      → Distinct index m
      → All (λ y. index y < index x) m
      → Distinct index (m ++ x ∷ [])
  Distinct-append [] x d h = (tt, tt)
  Distinct-append (y ∷ m) x (n, d) (p, h) =
      (All-append _ m (x ∷ []) n ((omega arith), tt), Distinct-append m x d h)

  -- Inserting a new key keeps the indices of a valid map below its length and pairwise different.
  pub insert-IsValid :
      (k : K) (v : V) (m : OrdHashMap K V)
      → IsValid m
      → contains_key k m ≡ false
      → IsValid (insert k v m).0
  unfolding insert contains_key
  insert-IsValid k v m h new =
      let absent : HashMap.get k m ≡ none = ground arith in
      let ext = HashMap.insert_absent k (length m, v) m absent in
      let longer = length-append m ((k, (length m, v)) ∷ []) in
      record {
        nodup = HashMap.insert-NodupKeys k _ m h.nodup;
        bounded = rw ext (
            rw longer (
              All-append _ m _ (All-map (λ x (p : index x < length m). omega arith) m h.bounded)
                (omega arith, tt)));
        distinct = rw ext (Distinct-append m _ h.distinct h.bounded);
      }

  -- No other entry has the removed index.
  pub remove-All_ne :
      (k : K) (m : OrdHashMap K V) {i : ℕ} {v : V}
      → NodupKeys m
      → Distinct index m
      → HashMap.get k m ≡ some (i, v)
      → All (λ x. index x ≢ i) (HashMap.remove k m)
  unfolding HashMap.get HashMap.remove
  remove-All_ne k [] n d h = tt
  remove-All_ne k ((j, (i', w)) ∷ m) {i} {v} (a, n) (p, d) h = elim (Bool-cases (j == k)) [
    | inl t ↦
        let gone : HashMap.remove k m ≡ m =
          ground (arith, HashMap.remove_absent k m, e.eq_iff j k) in
        let here : i' ≡ i = ground arith in
        rw (t, gone) (All-map {Q = λ x. index x ≢ i} (λ x (q : i' ≢ index x) r. q (cc)) m p)
    | inr t ↦
        let later : HashMap.get k m ≡ some (i, v) = ground arith in
        rw t (HashMap.get-All (λ iv. i' ≢ iv.0) k m p later, remove-All_ne k m n d later)
  ]

  shift-All_bounded :
      (i n : ℕ) (m : OrdHashMap K V)
      → i < suc n
      → All (λ x. index x < suc n) m
      → All (λ x. index x ≢ i) m
      → All (λ x. index x < n) (map (shift_down i) m)
  shift-All_bounded i n [] h b d = tt
  shift-All_bounded i n (x ∷ m) h (p, b) (q, d) = (ground arith, shift-All_bounded i n m h b d)

  shift-All_ne :
      (i : ℕ) (x : K × (ℕ × V)) (m : OrdHashMap K V)
      → index x ≢ i
      → All (λ y. index y ≢ i) m
      → All (λ y. index x ≢ index y) m
      → All (λ y. index (shift_down i x) ≢ index y) (map (shift_down i) m)
  shift-All_ne i x [] h k d = tt
  shift-All_ne i x (y ∷ m) h (p, k) (q, d) = (ground arith, shift-All_ne i x m h k d)

  shift-Distinct :
      (i : ℕ) (m : OrdHashMap K V)
      → All (λ x. index x ≢ i) m
      → Distinct index m
      → Distinct index (map (shift_down i) m)
  shift-Distinct i [] k d = tt
  shift-Distinct i (x ∷ m) (p, k) (q, d) = (shift-All_ne i x m p k q, shift-Distinct i m k d)

  shift-All-Keeps :
      (i : ℕ) (x : K × (ℕ × V)) (m : OrdHashMap K V)
      → index x ≢ i
      → All (λ y. index y ≢ i) m
      → All (Keeps index (shift_down i) x) m
  shift-All-Keeps i x [] h k = tt
  shift-All-Keeps i x (y ∷ m) h (p, k) = (ground arith, shift-All-Keeps i x m h k)

  -- Closing the gap keeps the order of all other entries.
  pub shift-KeepsOrder :
      (i : ℕ) (m : OrdHashMap K V) → All (λ x. index x ≢ i) m → KeepsOrder index (shift_down i) m
  shift-KeepsOrder i [] h = tt
  shift-KeepsOrder i (x ∷ m) (p, h) = (shift-All-Keeps i x m p h, shift-KeepsOrder i m h)

  pub get-shift_down : (i : ℕ) (j : K) (m : OrdHashMap K V) → get j (map (shift_down i) m) ≡ get j m
  unfolding get HashMap.get
  get-shift_down i j [] = refl
  get-shift_down i j (x ∷ m) = ground (arith, get-shift_down i j m)

  pub shift-NodupKeys :
      (i : ℕ) (m : OrdHashMap K V) → NodupKeys m → NodupKeys (map (shift_down i) m)
  shift-NodupKeys i [] h = tt
  shift-NodupKeys i ((k, iv) ∷ m) (a, h) =
      (unfold get in ground (arith, get-shift_down i k m), shift-NodupKeys i m h)

  length-shift : (i : ℕ) (m : OrdHashMap K V) → length (map (shift_down i) m) ≡ length m
  length-shift i [] = refl
  length-shift i (x ∷ m) = ap suc (length-shift i m)

  remove_present-IsValid :
      (k : K) (m : OrdHashMap K V) {i : ℕ} {v : V}
      → IsValid m
      → HashMap.get k m ≡ some (i, v)
      → IsValid (map (shift_down i) (HashMap.remove k m))
  remove_present-IsValid k m {i} {v} h g =
      let rest = HashMap.remove k m in
      let shorter : suc (length rest) ≡ length m = HashMap.length-remove k (i, v) m h.nodup g in
      let others = remove-All_ne k m h.nodup h.distinct g in
      let below : i < length m = HashMap.get-All (λ iv. iv.0 < length m) k m h.bounded g in
      let bounded : All (λ x. index x < suc (length rest)) rest =
        rw (shorter, HashMap.remove-filter k m) (All-filter _ _ m h.bounded) in
      let distinct : Distinct index rest =
        rw (HashMap.remove-filter k m) (Distinct-filter index _ m h.distinct) in
      record {
        nodup = shift-NodupKeys i rest (HashMap.remove-NodupKeys k m h.nodup);
        bounded =
            rw (length-shift i rest)
              (shift-All_bounded i (length rest) rest (omega arith) bounded others);
        distinct = shift-Distinct i rest others distinct;
      }

  -- Removing any key keeps the indices of a valid map below its length and pairwise different.
  pub remove-IsValid : (k : K) (m : OrdHashMap K V) → IsValid m → IsValid (remove k m).0
  remove-IsValid k m h = elim (Option-cases (HashMap.get k m)) [
    | inl absent ↦ unfold remove in rw (absent, remove) h
    | inr (iv, present) ↦
        unfold remove in rw (present, remove) (remove_present-IsValid k m h present)
  ]

  get_mut-All {μ} :
      (P : ℕ → Type μ) (k : K) (f : V → V) (m : OrdHashMap K V)
      → All (λ x. P (index x)) m
      → All (λ x. P (index x)) (get_mut k f m)
  unfolding get_mut HashMap.modify
  get_mut-All P k f [] h = tt
  get_mut-All P k f ((j, w) ∷ m) (p, h) = elim (Bool-cases (j == k)) [
    | inl t ↦ rw t (p, h)
    | inr t ↦ rw t (p, get_mut-All P k f m h)
  ]

  get_mut-Distinct :
      (k : K) (f : V → V) (m : OrdHashMap K V) → Distinct index m → Distinct index (get_mut k f m)
  unfolding get_mut HashMap.modify
  get_mut-Distinct k f [] h = tt
  get_mut-Distinct k f ((j, w) ∷ m) (p, h) = elim (Bool-cases (j == k)) [
    | inl t ↦ rw t (p, h)
    | inr t ↦ rw t (get_mut-All (λ i. w.0 ≢ i) k f m p, get_mut-Distinct k f m h)
  ]

  -- A write through a reference moves no index.
  pub get_mut-IsValid :
      (k : K) (f : V → V) (m : OrdHashMap K V) → IsValid m → IsValid (get_mut k f m)
  get_mut-IsValid k f m h = record {
    nodup = unfold get_mut in HashMap.modify-NodupKeys k _ m h.nodup;
    bounded =
        let same : length (get_mut k f m) ≡ length m =
          unfold get_mut in HashMap.length-modify k _ m in
        rw same (get_mut-All (λ i. i < length m) k f m h.bounded);
    distinct = get_mut-Distinct k f m h.distinct;
  }

  -- While the keys are new, a step of the deserializer is an `insert`.
  pub visit_map-cons :
      (k : K) (v : V) (rest : List (K × V)) (all : OrdHashMap K V)
      → visit_map (length all) ((k, v) ∷ rest) all
        ≡ visit_map (length all + 1) rest (insert k v all).0
  unfolding visit_map insert
  visit_map-cons k v rest all = refl

  pub absent-insert :
      (k : K) (v : V) (rest : List (K × V)) (all : OrdHashMap K V)
      → HashMap.get k rest ≡ none
      → All (λ x. contains_key x.0 all ≡ false) rest
      → All (λ x. contains_key x.0 (insert k v all).0 ≡ false) rest
  unfolding HashMap.get insert contains_key
  absent-insert k v [] all a h = tt
  absent-insert k v ((j, w) ∷ rest) all a (p, h) = (
    ground (arith, HashMap.get-insert k j (length all, v) all, e.eq_iff j k, e.eq_iff k j),
    absent-insert k v rest all (ground arith) h,
  )

  pub length-insert :
      (k : K) (v : V) (m : OrdHashMap K V)
      → contains_key k m ≡ false
      → length (insert k v m).0 ≡ length m + 1
  unfolding insert contains_key
  length-insert k v m h =
      let absent : HashMap.get k m ≡ none = ground arith in
      omega (arith, HashMap.length-insert_new k (length m, v) m absent)

  visit_map-IsValid :
      (ctr : ℕ) (rest : List (K × V)) (all : OrdHashMap K V)
      → length all ≡ ctr
      → IsValid all
      → NodupKeys rest
      → All (λ x. contains_key x.0 all ≡ false) rest
      → IsValid (visit_map ctr rest all)
  visit_map-IsValid ctr [] all n h d f = unfold visit_map in h
  visit_map-IsValid ctr ((k, v) ∷ rest) all n h (a, d) (p, f) = rw (← n) (
      rw visit_map-cons (
        visit_map-IsValid (length all + 1) rest (insert k v all).0 (length-insert k v all p)
          (insert-IsValid k v all h p) d (absent-insert k v rest all a f)))

  pub none_absent : (rest : List (K × V)) → All (λ x. contains_key {V = V} x.0 [] ≡ false) rest
  unfolding contains_key HashMap.get
  none_absent [] = tt
  none_absent (x ∷ rest) = (refl, none_absent rest)

  -- Reading entries with different keys gives valid indices.
  pub deserialize-IsValid :
      (entries : List (K × V)) → NodupKeys entries → IsValid (deserialize entries)
  unfolding deserialize
  deserialize-IsValid entries d =
      visit_map-IsValid 0 entries [] refl (record { nodup = tt; bounded = tt; distinct = tt }) d
        (none_absent entries)
