-- ===== src/Recipe/Steps.antt =====
-- Any sequence of operations on `Recipes`: the active recipe exists throughout, so no `expect` of
-- recipes.rs fails. Renaming a recipe.
use pilatus.Base.{
  ℕ, ◌≡◌, refl, sym, ap, ◌∙◌, inl, inr, false, none, some, List, arith, if◌then◌else◌, PartialEq,
  ◌==◌, nat_eq, list_eq, Bool-cases, eq_of_test, ne_of_test, test_of_ne,
}
use pilatus.Base.Result.{Result}
use pilatus.Name.{RecipeId}
use pilatus.OrdHashMap
use pilatus.OrdHashMap.Lookup.{get-insert, get-insert_self, get-remove}
use pilatus.Variables.{Variables}
use pilatus.Recipe.Config.{DeviceId}
use pilatus.Recipe.Defs.{Recipe}
use pilatus.Recipe.Collection.{
  Recipes, RemoveRecipeError, SetActiveError, default_recipes, active_without_id, get_with_id,
  get_with_id_mut, commit_active, add_new, add_inexistent, try_add, update_recipe_id, remove,
  set_active, has_active_changes,
}
use pilatus.Recipe.Changes.{set_active_lem}
use pilatus.Recipe.Active.{
  active_of_IsValid, IsValid, default_recipes-IsValid, commit_active-IsValid,
  get_with_id_mut-IsValid, add_new-IsValid, add_inexistent-IsValid, try_add-IsValid, remove-IsValid,
  update_recipe_id-IsValid, renamed, update_recipe_id-cases,
}

module _ {N : Type 0} ⦃e : PartialEq N⦄ where
  -- The operations that change the state; an `edit` is a write through `get_with_id_mut` or
  -- `get_active`, and `assign` one through `as_mut`.
  pub data Step : Recipes N → Recipes N → Type 0 where
    commit : {rs rs' : Recipes N} → commit_active rs ≡ some rs' → Step rs rs'
    activate :
        {rs rs' : Recipes N} (id : RecipeId) (res : Result SetActiveError (List DeviceId))
        → set_active rs id ≡ some (rs', res)
        → Step rs rs'
    rename :
        (rs : Recipes N) (old_id new_id : RecipeId) → Step rs (update_recipe_id rs old_id new_id).0
    add :
        {rs rs' : Recipes N} (r : Recipe N) (id : RecipeId)
        → add_new rs r ≡ some (rs', id)
        → Step rs rs'
    insert :
        {rs rs' : Recipes N} (id : RecipeId) (r : Recipe N)
        → add_inexistent rs id r ≡ some rs'
        → Step rs rs'
    try_insert :
        {rs rs' : Recipes N} (id : RecipeId) (r : Recipe N) (res : Result (Recipe N) (Unit {0}))
        → try_add rs id r ≡ some (rs', res)
        → Step rs rs'
    delete :
        {rs rs' : Recipes N} (id : RecipeId) (res : Result RemoveRecipeError (Recipe N))
        → remove rs id ≡ some (rs', res)
        → Step rs rs'
    edit :
        (rs : Recipes N) (id : RecipeId) (f : Recipe N → Recipe N)
        → Step rs (get_with_id_mut rs id f)
    assign : (rs : Recipes N) (vars : Variables N) → Step rs (record rs { variables = vars })

  pub data Reach (rs : Recipes N) : Recipes N → Type 0 where
    here : Reach rs rs
    next : {s t : Recipes N} → Reach rs s → Step s t → Reach rs t

  pub set_active-IsValid :
      (rs rs' : Recipes N) (id : RecipeId) (res : Result SetActiveError (List DeviceId))
      → set_active rs id ≡ some (rs', res)
      → IsValid rs
      → IsValid rs'
  set_active-IsValid rs rs' id res p h =
      let (running, active) = active_of_IsValid rs h in
      elim (set_active_lem rs id running active) [
        | inl (missing, q) ↦ let same : rs' ≡ rs = cc in rw same h
        | inr (inl (changed, q)) ↦ let same : rs' ≡ rs = cc in rw same h
        | inr (inr (recipe, found, unchanged, q, agree)) ↦
            let result : rs' ≡ record rs { active_id = id; active_backup = recipe } = cc in
            rw result (record { nodup = h.nodup; active = (recipe, unfold get_with_id in found) })
      ]

  Step-IsValid : {s t : Recipes N} → Step s t → IsValid s → IsValid t
  Step-IsValid (commit p) h = commit_active-IsValid _ _ p h
  Step-IsValid (activate id res p) h = set_active-IsValid _ _ id res p h
  Step-IsValid (rename rs old_id new_id) h = update_recipe_id-IsValid rs old_id new_id h
  Step-IsValid (add r id p) h = add_new-IsValid _ _ r id p h
  Step-IsValid (insert id r p) h = add_inexistent-IsValid _ _ id r p h
  Step-IsValid (try_insert id r res p) h = try_add-IsValid _ _ id r res p h
  Step-IsValid (delete id res p) h = remove-IsValid _ _ id res p h
  Step-IsValid (edit rs id f) h = get_with_id_mut-IsValid rs id f h
  Step-IsValid (assign rs vars) h = record { nodup = h.nodup; active = h.active }

  Reach-IsValid : {s t : Recipes N} → IsValid s → Reach s t → IsValid t
  Reach-IsValid h here = h
  Reach-IsValid h (next r st) = Step-IsValid st (Reach-IsValid h r)

  -- Whatever operations of `Recipes` are called on the default state, in whatever order and with
  -- whatever outcome, the active recipe exists and no recipe id stands twice, so a lookup of the
  -- active recipe never panics. (An operation that would itself panic is no step.)
  pub reachable-active :
      (now : ℕ) {rs : Recipes N}
      → Reach (default_recipes now) rs
      → IsValid rs × ((r : Recipe N) × (active_without_id rs ≡ some r))
  reachable-active now {rs} p =
      let valid = Reach-IsValid (default_recipes-IsValid now) p in
      (valid, active_of_IsValid rs valid)

  renamed_active_lem :
      (rs : Recipes N) (old_id new_id : RecipeId) (r running : Recipe N)
      → OrdHashMap.get old_id rs.all ≡ some r
      → OrdHashMap.get new_id rs.all ≡ none
      → OrdHashMap.get rs.active_id rs.all ≡ some running
      → OrdHashMap.get (renamed rs old_id new_id r).active_id (renamed rs old_id new_id r).all
        ≡ some running
  renamed_active_lem rs old_id new_id r running p q h = elim (Bool-cases (rs.active_id == old_id)) [
    | inl t ↦
        let same : rs.active_id ≡ old_id = eq_of_test rs.active_id old_id t in
        let value : some r ≡ some running =
          sym p ∙ ap (λ k. OrdHashMap.get k rs.all) (sym same) ∙ h in
        rw t (get-insert_self new_id r _ ∙ value)
    | inr t ↦
        let other : (old_id == rs.active_id) ≡ false =
          test_of_ne old_id rs.active_id (λ e. ne_of_test rs.active_id old_id t (sym e)) in
        let fresh : (new_id == rs.active_id) ≡ false =
          test_of_ne new_id rs.active_id
            (λ e. let at = ap (λ k. OrdHashMap.get k rs.all) e in absurd (cc)) in
        rw t (
          ground (
            arith,
            get-insert new_id rs.active_id r (OrdHashMap.remove old_id rs.all).0,
            get-remove old_id rs.active_id rs.all,
            other,
            fresh,
            h,
          ))
  ]

  changes_cong :
      (rs rs' : Recipes N) (running : Recipe N)
      → rs'.active_backup ≡ rs.active_backup
      → active_without_id rs ≡ some running
      → active_without_id rs' ≡ some running
      → has_active_changes rs' ≡ has_active_changes rs
  unfolding has_active_changes
  changes_cong rs rs' running b p q = rw (p, q, b, has_active_changes) refl

  -- Renaming an existing recipe to a free id, in a state whose active recipe exists: the recipe is
  -- found under the new id, the old id is free, every other id keeps its recipe, the active recipe
  -- is the same one, and `has_active_changes` answers as before.
  pub renamed_lem :
      (rs : Recipes N) (old_id new_id : RecipeId) (r running : Recipe N)
      → get_with_id rs old_id ≡ some r
      → get_with_id rs new_id ≡ none
      → active_without_id rs ≡ some running
      → ((j : RecipeId)
          → get_with_id (update_recipe_id rs old_id new_id).0 j
            ≡ (if new_id == j then some r else if old_id == j then none else get_with_id rs j))
        × (active_without_id (update_recipe_id rs old_id new_id).0 ≡ some running)
        × (has_active_changes (update_recipe_id rs old_id new_id).0 ≡ has_active_changes rs)
  unfolding get_with_id active_without_id
  renamed_lem rs old_id new_id r running p q h = elim (update_recipe_id-cases rs old_id new_id) [
    | inl (x, taken, e) ↦ absurd (cc)
    | inr (inl (free, absent, e)) ↦ absurd (cc)
    | inr (inr (x, free, present, e)) ↦
        let value : x ≡ r = cc in
        let active = renamed_active_lem rs old_id new_id x running present free h in
        rw e (
          λ j. rw (sym value) (get-insert new_id j x _ ∙ rw (get-remove old_id j rs.all) refl),
          active,
          changes_cong rs (renamed rs old_id new_id x) running refl h active,
        )
  ]
