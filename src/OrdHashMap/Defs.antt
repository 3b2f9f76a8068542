-- ===== src/OrdHashMap/Defs.antt =====
-- The type and its operations. `values`, `values_mut` and the unordered iterators read the table in
-- its own order.
use pilatus.Base.{
  ℕ, ◌+◌, ◌-◌, Bool, Option, none, some, List, [], ◌∷◌, map, length, if◌then◌else◌, ltb, PartialEq,
}
use pilatus.Base.Sort.{sort_by_key}
use pilatus.HashMap
use pilatus.HashMap.{HashMap}

abbrev pub OrdHashMap {ℓ κ} : Type ℓ → Type κ → Type (ℓ ⊔ κ)
OrdHashMap K V = HashMap K (ℕ × V)

abbrev pub value {ℓ} : {V : Type ℓ} → ℕ × V → V
value (i, v) = v

module _ {ℓ κ} {K : Type ℓ} {V : Type κ} where
  -- An entry without its index.
  abbrev pub unindexed : K × (ℕ × V) → K × V
  unindexed (k, (i, v)) = (k, v)

  abbrev pub index : K × (ℕ × V) → ℕ
  index (k, (i, v)) = i

  unfoldable pub iter_ordered : OrdHashMap K V → List (K × V)
  iter_ordered m = map unindexed (sort_by_key index m)

  unfoldable pub iter_unordered : OrdHashMap K V → List (K × V)
  iter_unordered m = map unindexed m

  unfoldable pub values : OrdHashMap K V → List V
  values m = map value (HashMap.values m)

  abbrev pub keys : OrdHashMap K V → List K
  keys m = HashMap.keys m

  abbrev pub len : OrdHashMap K V → ℕ
  len m = length m

  -- The closure that `remove` maps over the table.
  abbrev pub shift_down : ℕ → K × (ℕ × V) → K × (ℕ × V)
  shift_down removed (k, (i, v)) = (k, (if ltb removed i then i - 1 else i, v))

module _ {ℓ κ} {K : Type ℓ} {V : Type κ} ⦃e : PartialEq K⦄ where
  unfoldable pub get : K → OrdHashMap K V → Option V
  get k m = HashMap.map_option value (HashMap.get k m)

  unfoldable pub contains_key : K → OrdHashMap K V → Bool
  contains_key k m = HashMap.contains_key k m

  -- A write through the reference that `get_mut` returns.
  unfoldable pub get_mut : K → (V → V) → OrdHashMap K V → OrdHashMap K V
  get_mut k f m = HashMap.modify k (λ iv. (iv.0, f iv.1)) m

  -- The new table and the value that the key had.
  unfoldable pub insert : K → V → OrdHashMap K V → OrdHashMap K V × Option V
  insert k v m = (HashMap.insert k (length m, v) m, get k m)

  unfoldable pub remove : K → OrdHashMap K V → OrdHashMap K V × Option V
  remove k m = elim (HashMap.get k m) [
    | none ↦ (m, none)
    | some (removed, v) ↦ (map (shift_down removed) (HashMap.remove k m), some v)
  ]

  -- `visit_map`: the loop of the deserializer, with its counter.
  unfoldable pub visit_map : ℕ → List (K × V) → OrdHashMap K V → OrdHashMap K V
  visit_map ctr [] all = all
  visit_map ctr ((k, v) ∷ rest) all = visit_map (ctr + 1) rest (HashMap.insert k (ctr, v) all)

  unfoldable pub deserialize : List (K × V) → OrdHashMap K V
  unfolding visit_map
  deserialize entries = visit_map 0 entries []

  -- `From<[(K, V); SIZE]>`
  unfoldable pub from : List (K × V) → OrdHashMap K V
  unfolding visit_map
  from input = visit_map 0 input []

-- `Serialize`: the entries of the JSON object, in order.
unfoldable pub serialize {ℓ κ} : {K : Type ℓ} {V : Type κ} → OrdHashMap K V → List (K × V)
unfolding iter_ordered
serialize m = iter_ordered m
