-- ===== src/HashMap/Laws.antt =====
-- The operations of `HashMap`, and what a lookup sees after each of them.
use pilatus.Base.{
  suc, ◌≡◌, refl, ◌≢◌, Bool, true, false, Option, none, some, List, [], ◌∷◌, arith, length,
  if◌then◌else◌, PartialEq, ◌==◌, eq_refl, test_of_ne, Bool-cases, inl, inr, ◌++◌, not, filter, All,
  subst, ◌≤◌, ◌<◌,
}

abbrev pub HashMap {ℓ κ} : Type ℓ → Type κ → Type (ℓ ⊔ κ)
HashMap K V = List (K × V)

abbrev pub is_some {ℓ} : {A : Type ℓ} → Option A → Bool
is_some none = false
is_some (some a) = true

pub some_of_is_some {ℓ} : {A : Type ℓ} (o : Option A) → is_some o ≡ true → (a : A) × (o ≡ some a)
some_of_is_some none h = absurd (cc)
some_of_is_some (some a) h = (a, refl)

abbrev pub map_option {ℓ κ} : {A : Type ℓ} {B : Type κ} → (A → B) → Option A → Option B
map_option f none = none
map_option f (some v) = some (f v)

-- `Option::or`
abbrev pub or_else {ℓ} : {A : Type ℓ} → Option A → Option A → Option A
or_else none b = b
or_else (some a) b = some a

module _ {ℓ κ} {K : Type ℓ} {V : Type κ} where
  abbrev pub keys : HashMap K V → List K
  keys [] = []
  keys ((k, v) ∷ m) = k ∷ keys m

  abbrev pub values : HashMap K V → List V
  values [] = []
  values ((k, v) ∷ m) = v ∷ values m

module _ {ℓ κ} {K : Type ℓ} {V : Type κ} ⦃e : PartialEq K⦄ where
  unfoldable pub get : K → HashMap K V → Option V
  get k [] = none
  get k ((j, v) ∷ m) = if j == k then some v else get k m

  abbrev pub contains_key : K → HashMap K V → Bool
  contains_key k m = is_some (get k m)

  -- A present key keeps its place; the previous value is `get k m`.
  unfoldable pub insert : K → V → HashMap K V → HashMap K V
  insert k v [] = (k, v) ∷ []
  insert k v ((j, w) ∷ m) = if j == k then (j, v) ∷ m else (j, w) ∷ insert k v m

  -- What a write through `get_mut` leaves.
  unfoldable pub modify : K → (V → V) → HashMap K V → HashMap K V
  modify k f [] = []
  modify k f ((j, w) ∷ m) = if j == k then (j, f w) ∷ m else (j, w) ∷ modify k f m

  -- The removed value is `get k m`.
  unfoldable pub remove : K → HashMap K V → HashMap K V
  remove k [] = []
  remove k ((j, w) ∷ m) = if j == k then remove k m else (j, w) ∷ remove k m

  abbrev pub NodupKeys : HashMap K V → Type κ
  NodupKeys [] = Unit
  NodupKeys ((k, v) ∷ m) = (get k m ≡ none) × NodupKeys m

  pub get-insert :
      (k j : K) (v : V) (m : HashMap K V)
      → get j (insert k v m) ≡ (if k == j then some v else get j m)
  unfolding get insert
  get-insert k j v [] = refl
  get-insert k j v ((i, w) ∷ m) =
      ground (arith, e.eq_iff k j, e.eq_iff i k, e.eq_iff i j, get-insert k j v m)

  pub get-remove :
      (k j : K) (m : HashMap K V) → get j (remove k m) ≡ (if k == j then none else get j m)
  unfolding get remove
  get-remove k j [] = ground arith
  get-remove k j ((i, w) ∷ m) =
      ground (arith, e.eq_iff k j, e.eq_iff i k, e.eq_iff i j, get-remove k j m)

  pub get-modify :
      (k j : K) (f : V → V) (m : HashMap K V)
      → get j (modify k f m) ≡ (if k == j then map_option f (get j m) else get j m)
  unfolding get modify
  get-modify k j f [] = ground arith
  get-modify k j f ((i, w) ∷ m) =
      ground (arith, e.eq_iff k j, e.eq_iff i k, e.eq_iff i j, get-modify k j f m)

  pub get-insert_self : (k : K) (v : V) (m : HashMap K V) → get k (insert k v m) ≡ some v
  get-insert_self k v m = ground (arith, get-insert k k v m, eq_refl k)

  pub get-insert_ne : (k j : K) (v : V) (m : HashMap K V) → k ≢ j → get j (insert k v m) ≡ get j m
  get-insert_ne k j v m h = ground (arith, get-insert k j v m, test_of_ne k j h)

  pub get-remove_ne : (k j : K) (m : HashMap K V) → k ≢ j → get j (remove k m) ≡ get j m
  get-remove_ne k j m h = ground (arith, get-remove k j m, test_of_ne k j h)

  pub get-remove_self : (k : K) (m : HashMap K V) → get k (remove k m) ≡ none
  get-remove_self k m = ground (arith, get-remove k k m, eq_refl k)

  pub remove_absent : (k : K) (m : HashMap K V) → get k m ≡ none → remove k m ≡ m
  unfolding get remove
  remove_absent k [] h = refl
  remove_absent k ((j, w) ∷ m) h = ground (arith, remove_absent k m)

  pub insert-NodupKeys : (k : K) (v : V) (m : HashMap K V) → NodupKeys m → NodupKeys (insert k v m)
  unfolding insert get
  insert-NodupKeys k v [] h = (refl, tt)
  insert-NodupKeys k v ((j, w) ∷ m) (a, h) = elim (Bool-cases (j == k)) [
    | inl t ↦ rw t (a, h)
    | inr f ↦ rw f (
      ground (arith, get-insert k j v m, a, e.eq_iff k j, e.eq_iff j k),
      insert-NodupKeys k v m h,
    )
  ]

  pub modify-NodupKeys :
      (k : K) (f : V → V) (m : HashMap K V) → NodupKeys m → NodupKeys (modify k f m)
  unfolding modify get
  modify-NodupKeys k f [] h = tt
  modify-NodupKeys k f ((j, w) ∷ m) (a, h) = elim (Bool-cases (j == k)) [
    | inl t ↦ rw t (a, h)
    | inr t ↦ rw t (ground (arith, get-modify k j f m, a), modify-NodupKeys k f m h)
  ]

  pub remove-NodupKeys : (k : K) (m : HashMap K V) → NodupKeys m → NodupKeys (remove k m)
  unfolding remove get
  remove-NodupKeys k [] h = tt
  remove-NodupKeys k ((j, w) ∷ m) (a, h) = elim (Bool-cases (j == k)) [
    | inl t ↦ rw t (remove-NodupKeys k m h)
    | inr f ↦ rw f (ground (arith, get-remove k j m, a), remove-NodupKeys k m h)
  ]

  pub length-modify : (k : K) (f : V → V) (m : HashMap K V) → length (modify k f m) ≡ length m
  unfolding modify
  length-modify k f [] = refl
  length-modify k f ((j, w) ∷ m) = ground (arith, length-modify k f m)

  pub length-insert_new :
      (k : K) (v : V) (m : HashMap K V) → get k m ≡ none → length (insert k v m) ≡ suc (length m)
  unfolding insert get
  length-insert_new k v [] h = refl
  length-insert_new k v ((j, w) ∷ m) h = ground (arith, length-insert_new k v m)

  pub length-insert_old :
      (k : K) (v w : V) (m : HashMap K V) → get k m ≡ some w → length (insert k v m) ≡ length m
  unfolding insert get
  length-insert_old k v w [] h = cc
  length-insert_old k v w ((j, u) ∷ m) h = ground (arith, length-insert_old k v w m)

  pub length-remove :
      (k : K) (v : V) (m : HashMap K V)
      → NodupKeys m
      → get k m ≡ some v
      → suc (length (remove k m)) ≡ length m
  unfolding remove get
  length-remove k v [] n h = cc
  length-remove k v ((j, w) ∷ m) (a, n) h =
      ground (arith, e.eq_iff j k, remove_absent k m, length-remove k v m n)

  pub insert_absent :
      (k : K) (v : V) (m : HashMap K V) → get k m ≡ none → insert k v m ≡ m ++ (k, v) ∷ []
  unfolding insert get
  insert_absent k v [] h = refl
  insert_absent k v ((j, w) ∷ m) h = ground (arith, insert_absent k v m)

  pub remove-filter : (k : K) (m : HashMap K V) → remove k m ≡ filter (λ x. not (x.0 == k)) m
  unfolding remove
  remove-filter k [] = refl
  remove-filter k ((j, w) ∷ m) = ground (arith, remove-filter k m)

  pub get-All {μ} :
      (P : V → Type μ) (k : K) (m : HashMap K V) {w : V}
      → All (λ x. P x.1) m
      → get k m ≡ some w
      → P w
  unfolding get
  get-All P k [] h g = absurd (cc)
  get-All P k ((j, u) ∷ m) (p, h) g = elim (Bool-cases (j == k)) [
    | inl t ↦ let same : u ≡ _ = ground arith in subst P same p
    | inr t ↦ get-All P k m h (ground arith)
  ]

  -- `Extend`, and `collect` from the empty map.
  unfoldable pub extend : List (K × V) → HashMap K V → HashMap K V
  extend [] m = m
  extend ((k, v) ∷ entries) m = extend entries (insert k v m)

  -- Entries with different keys override what was there.
  pub get-extend :
      (k : K) (entries : List (K × V)) (m : HashMap K V)
      → NodupKeys entries
      → get k (extend entries m) ≡ or_else (get k entries) (get k m)
  unfolding extend get
  get-extend k [] m h = refl
  get-extend k ((j, v) ∷ entries) m (a, h) =
      ground (arith, get-extend k entries (insert j v m) h, get-insert j k v m, e.eq_iff j k)

  pub extend-NodupKeys :
      (entries : List (K × V)) (m : HashMap K V) → NodupKeys m → NodupKeys (extend entries m)
  unfolding extend
  extend-NodupKeys [] m h = h
  extend-NodupKeys ((j, v) ∷ entries) m h =
      extend-NodupKeys entries (insert j v m) (insert-NodupKeys j v m h)

  pub extend-append :
      (xs ys : List (K × V)) (m : HashMap K V) → extend (xs ++ ys) m ≡ extend ys (extend xs m)
  unfolding extend
  extend-append [] ys m = refl
  extend-append ((k, v) ∷ xs) ys m = extend-append xs ys (insert k v m)

  length-remove-le : (k : K) (m : HashMap K V) → length (remove k m) ≤ length m
  unfolding remove
  length-remove-le k [] = omega arith
  length-remove-le k ((j, w) ∷ m) = ground (arith, length-remove-le k m)

  pub length-remove-lt :
      (k : K) (m : HashMap K V) → contains_key k m ≡ true → length (remove k m) < length m
  unfolding remove get
  length-remove-lt k [] h = absurd (cc)
  length-remove-lt k ((j, w) ∷ m) h = ground (arith, length-remove-le k m, length-remove-lt k m)
