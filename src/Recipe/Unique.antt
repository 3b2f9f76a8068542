-- ===== src/Recipe/Unique.antt =====
-- `get_unique_id`: the search ends, and its result is free.
use native.Mathlib.Numerals.{add-one, add-two}
use pilatus.Base.{
  ℕ, zero, suc, ◌+◌, ◌≡◌, refl, sym, ◌∙◌, ◌≢◌, ◌<◌, ◌≤◌, true, false, Option, some, arith, inl, inr,
  length, nat_eq, list_eq, Bool-cases, Option-cases,
}
use pilatus.Base.Int.{ℤ, pos, negsuc, add_ℕ, below_max, i32_max}
use pilatus.Name.{Name, RecipeId, base, numbered, suggest_unique}
use pilatus.Name.Suggest.{numbered-ne}
use pilatus.HashMap
use pilatus.HashMap.{HashMap}
use pilatus.OrdHashMap.{OrdHashMap, contains_key}
use pilatus.Recipe.Collection.{Recipes, first_free, get_unique_id, has_recipe}

module _ {ℓ} {V : Type ℓ} (suggestion : ℕ → Option RecipeId) where
  -- Only the later suggestions matter.
  first_free_cong :
      (fuel k : ℕ) (id : RecipeId) (m n : OrdHashMap RecipeId V)
      → contains_key id m ≡ contains_key id n
      → ((j : ℕ) (x : RecipeId)
          → k ≤ j
          → j < k + fuel
          → suggestion j ≡ some x
          → contains_key x m ≡ contains_key x n)
      → first_free fuel m suggestion k id ≡ first_free fuel n suggestion k id
  unfolding first_free
  first_free_cong zero k id m n h later = refl
  first_free_cong (suc f) k id m n h later = elim (Option-cases (suggestion k)) [
    | inl ended ↦ ground (arith, h, ended)
    | inr (x, next) ↦
        let ih =
          first_free_cong f (k + 1) x m n (later k x (omega arith) (omega arith) next)
            (λ j y le lt. later j y (omega arith) (omega arith)) in
        ground (arith, h, next, ih)
  ]

  -- The result is not taken.
  pub first_free_sound :
      (fuel k : ℕ) (id x : RecipeId) (m : OrdHashMap RecipeId V)
      → first_free fuel m suggestion k id ≡ some x
      → contains_key x m ≡ false
  unfolding first_free
  first_free_sound zero k id x m h = absurd (cc)
  first_free_sound (suc f) k id x m h = elim (Option-cases (suggestion k)) [
    | inl ended ↦ ground (arith, ended)
    | inr (y, next) ↦ ground (arith, next, first_free_sound f (k + 1) y x m)
  ]

  module _ (s : ℕ → RecipeId) (distinct : (i j : ℕ) → i ≢ j → s i ≢ s j) where
    contains-remove :
        (k : ℕ) (m : OrdHashMap RecipeId V) (x : RecipeId)
        → s k ≢ x
        → contains_key x (HashMap.remove (s k) m) ≡ contains_key x m
    unfolding contains_key
    contains-remove k m x d = rw (HashMap.get-remove_ne (s k) x m d)

    -- A taken suggestion can be dropped from the table: it does not come again.
    step :
        (f k bound : ℕ) (m : OrdHashMap RecipeId V)
        → ((j : ℕ) → j < bound → suggestion j ≡ some (s j))
        → k + suc f < bound
        → contains_key (s k) m ≡ true
        → (x : RecipeId) × (first_free f (HashMap.remove (s k) m) suggestion (k + 1 + 1) (s (k + 1))
            ≡ some x)
        → (x : RecipeId) × (first_free (suc f) m suggestion (k + 1) (s k) ≡ some x)
    step f k bound m sug b taken (x, found) =
        let next = sug (k + 1) (omega arith) in
        let later : (j : ℕ) (y : RecipeId)
            → k + 1 + 1 ≤ j
            → j < k + 1 + 1 + f
            → suggestion j ≡ some y
            → contains_key y m ≡ contains_key y (HashMap.remove (s k) m) =
          λ j y le lt e.
            let at : some y ≡ some (s j) = sym e ∙ sug j (omega arith) in
            let same : y ≡ s j = cc in
            rw same (sym (contains-remove k m (s j) (distinct k j (omega arith)))) in
        let cong =
          first_free_cong f (k + 1 + 1) (s (k + 1)) m (HashMap.remove (s k) m)
            (sym (contains-remove k m (s (k + 1)) (distinct k (k + 1) (omega arith)))) later in
        (x, unfold first_free in rw (taken, next, first_free) (cong ∙ found))

    -- With more steps than there are taken ids, and a suggestion for each, the search succeeds: each
    -- taken suggestion uses up one entry of the table.
    first_free_total :
        (fuel k bound : ℕ) (m : OrdHashMap RecipeId V)
        → ((j : ℕ) → j < bound → suggestion j ≡ some (s j))
        → k + fuel < bound
        → length m < fuel
        → (x : RecipeId) × (first_free fuel m suggestion (k + 1) (s k) ≡ some x)
    first_free_total zero k bound m sug b h = absurd (omega arith)
    first_free_total (suc f) k bound m sug b h = elim (Bool-cases (contains_key (s k) m)) [
      | inr free ↦ (s k, unfold first_free in rw (free, first_free))
      | inl taken ↦
          let less = HashMap.length-remove-lt (s k) m (unfold contains_key in taken) in
          step f k bound m sug b taken (
            first_free_total f (k + 1) bound (HashMap.remove (s k) m) sug (omega arith)
              (omega arith))
    ]

-- A name's number leaves room for `n` suggestions below `i32::MAX`.
abbrev pub HasRoom : ℤ → ℕ → Type 0
HasRoom (pos i) n = i + n < i32_max
HasRoom (negsuc i) n = n < i32_max

below_max_room : (z : ℤ) (n j : ℕ) → HasRoom z n → j ≤ n → below_max (add_ℕ z j) ≡ true
below_max_room (pos i) n j h le = ground arith
below_max_room (negsuc i) n j h le = ground arith

suggest_unique_room :
    (name : Name) (n j : ℕ)
    → HasRoom (base name).0 n
    → j ≤ n
    → suggest_unique name j ≡ some (numbered (base name).1 (add_ℕ (base name).0 j))
suggest_unique_room name n j h le =
    let room = below_max_room (base name).0 n j h le in
    unfold suggest_unique in rw (room, suggest_unique)

first_free_start :
    {N : Type 0} (rs : Recipes N) (id s₀ : RecipeId)
    → suggest_unique id 0 ≡ some s₀
    → (x : RecipeId) × (first_free (length rs.all + 1) rs.all (suggest_unique id) 1 s₀ ≡ some x)
    → (x : RecipeId) × (get_unique_id rs id ≡ some x)
first_free_start rs id s₀ first (x, found) = elim (Bool-cases (contains_key id rs.all)) [
  | inr free ↦ (id, unfold get_unique_id in rw (add-two, free, first_free))
  | inl taken ↦
      (x, unfold get_unique_id in rw (add-two, taken, first, first_free) (rw add-one at found))
]

-- If the number behind the given name leaves room for two more suggestions than there are recipes
-- below `i32::MAX`, then `get_unique_id` returns an id, and no recipe has it.
pub get_unique_id_lem :
    {N : Type 0} (rs : Recipes N) (id : RecipeId)
    → HasRoom (base id).0 (length rs.all + 2)
    → (x : RecipeId) × (get_unique_id rs id ≡ some x) × (has_recipe rs x ≡ false)
get_unique_id_lem rs id h =
    let s = λ (j : ℕ). numbered (base id).1 (add_ℕ (base id).0 j) in
    let room = suggest_unique_room id (length rs.all + 2) in
    let (x, found) = first_free_start rs id (s 0) (room 0 h (omega arith)) (
      first_free_total (suggest_unique id) s (λ i j. numbered-ne (base id).1 (base id).0 i j)
        (length rs.all + 1) 0 (length rs.all + 2) rs.all (λ j lt. room j h (omega arith))
        (omega arith) (omega arith)) in
    (
      x,
      found,
      unfold has_recipe in
          first_free_sound (suggest_unique id) (length rs.all + 2) 0 id x rs.all
            (unfold get_unique_id in found),
    )
