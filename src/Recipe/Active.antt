-- ===== src/Recipe/Active.antt =====
-- The active recipe always exists: no operation of `Recipes` loses it.
use pilatus.Base.{
  ℕ, ◌≡◌, refl, sym, ◌∙◌, ◌≢◌, ◌⊎◌, inl, inr, none, some, arith, if◌then◌else◌, ◌==◌, nat_eq,
  list_eq, Bool-cases, Option-cases, eq_of_test, ne_of_test, test_of_ne,
}
use pilatus.Base.Result.{Result, ok, err}
use pilatus.Name.{RecipeId, default_id}
use pilatus.HashMap.{NodupKeys, is_some, map_option}
use pilatus.OrdHashMap
use pilatus.OrdHashMap.{OrdHashMap}
use pilatus.OrdHashMap.Lookup.{
  contains_key-get, get-insert, get-insert_self, insert_old, get-remove, remove_old, get-get_mut,
  insert-NodupKeys, get_mut-NodupKeys, remove-NodupKeys,
}
use pilatus.Recipe.Defs.{Recipe, default_recipe}
use pilatus.Recipe.Collection.{
  Recipes, recipe_already_exists, unknown_recipe_id, RemoveRecipeError, is_active, unknown_removed,
  default_recipes, active_without_id, get_with_id_mut, commit_active, get_unique_id, add_new,
  add_inexistent, try_add, update_recipe_id, remove,
}

module _ {N : Type 0} where
  pub record IsValid (rs : Recipes N) : Type 0 where
    pub nodup : NodupKeys rs.all
    pub active : (r : Recipe N) × (OrdHashMap.get rs.active_id rs.all ≡ some r)

  pub active_of_IsValid :
      (rs : Recipes N) → IsValid rs → (r : Recipe N) × (active_without_id rs ≡ some r)
  unfolding active_without_id
  active_of_IsValid rs h = h.active

  pub default_recipes-IsValid : (now : ℕ) → IsValid (default_recipes now)
  unfolding default_recipes OrdHashMap.from OrdHashMap.get pilatus.HashMap.insert
      pilatus.HashMap.get
  default_recipes-IsValid now = record { nodup = (refl, tt); active = (default_recipe now, refl) }

  -- An insertion keeps every key.
  insert_keeps :
      (id k : RecipeId) (r : Recipe N) (all : OrdHashMap RecipeId (Recipe N))
      → (x : Recipe N) × (OrdHashMap.get k all ≡ some x)
      → (x : Recipe N) × (OrdHashMap.get k (OrdHashMap.insert id r all).0 ≡ some x)
  insert_keeps id k r all (x, h) = elim (Bool-cases (id == k)) [
    | inl t ↦ (r, ground (arith, get-insert id k r all, t))
    | inr t ↦ (x, ground (arith, get-insert id k r all, t))
  ]

  insert-IsValid :
      (rs : Recipes N) (id : RecipeId) (r : Recipe N)
      → IsValid rs
      → IsValid (record rs { all = (OrdHashMap.insert id r rs.all).0 })
  insert-IsValid rs id r h = record {
    nodup = insert-NodupKeys id r rs.all h.nodup;
    active = insert_keeps id rs.active_id r rs.all h.active;
  }

  pub commit_active-IsValid :
      (rs rs' : Recipes N) → commit_active rs ≡ some rs' → IsValid rs → IsValid rs'
  unfolding commit_active active_without_id
  commit_active-IsValid rs rs' p h =
      let result : rs' ≡ record rs { active_backup = h.active.0 } = ground (arith, h.active.1) in
      rw result (record { nodup = h.nodup; active = h.active })

  pub get_with_id_mut-IsValid :
      (rs : Recipes N) (id : RecipeId) (f : Recipe N → Recipe N)
      → IsValid rs
      → IsValid (get_with_id_mut rs id f)
  unfolding get_with_id_mut
  get_with_id_mut-IsValid rs id f h = record {
    nodup = get_mut-NodupKeys id f rs.all h.nodup;
    active = elim (Bool-cases (id == rs.active_id)) [
      | inl t ↦ (f h.active.0, ground (arith, get-get_mut id rs.active_id f rs.all, h.active.1, t))
      | inr t ↦ (h.active.0, ground (arith, get-get_mut id rs.active_id f rs.all, h.active.1, t))
    ];
  }

  pub add_new-IsValid :
      (rs rs' : Recipes N) (r : Recipe N) (id : RecipeId)
      → add_new rs r ≡ some (rs', id)
      → IsValid rs
      → IsValid rs'
  unfolding add_new
  add_new-IsValid rs rs' r id p h = elim (Option-cases (get_unique_id rs default_id)) [
    | inl none' ↦ absurd (ground (arith, none'))
    | inr (x, free) ↦
        let result : rs' ≡ record rs { all = (OrdHashMap.insert x r rs.all).0 } =
          ground (arith, free) in
        rw result (insert-IsValid rs x r h)
  ]

  pub add_inexistent-IsValid :
      (rs rs' : Recipes N) (id : RecipeId) (r : Recipe N)
      → add_inexistent rs id r ≡ some rs'
      → IsValid rs
      → IsValid rs'
  unfolding add_inexistent
  add_inexistent-IsValid rs rs' id r p h =
      let result : rs' ≡ record rs { all = (OrdHashMap.insert id r rs.all).0 } = ground arith in
      rw result (insert-IsValid rs id r h)

  -- `try_add` adds a recipe under a new id. Under a taken id it never panics, inserts the old
  -- recipe a second time and returns the new one.
  pub try_add-cases :
      (rs : Recipes N) (id : RecipeId) (r : Recipe N)
      → ((OrdHashMap.get id rs.all ≡ none)
          × (try_add rs id r ≡ some (record rs { all = (OrdHashMap.insert id r rs.all).0 }, ok tt)))
        ⊎ ((x : Recipe N) × (OrdHashMap.get id rs.all ≡ some x)
            × (try_add rs id r
                ≡ some (
                  record rs { all = (OrdHashMap.insert id x (OrdHashMap.insert id r rs.all).0).0 },
                  err r,
                )))
  unfolding try_add
  try_add-cases rs id r = elim (Option-cases (OrdHashMap.get id rs.all)) [
    | inl absent ↦ inl (absent, ground (arith, insert_old id r rs.all, absent))
    | inr (x, present) ↦
        let first = (OrdHashMap.insert id r rs.all).0 in
        let back : (OrdHashMap.insert id x first).1 ≡ some r =
          insert_old id x first ∙ get-insert_self id r rs.all in
        inr (x, present, ground (arith, insert_old id r rs.all, present, back))
  ]

  pub try_add-IsValid :
      (rs rs' : Recipes N) (id : RecipeId) (r : Recipe N) (res : Result (Recipe N) (Unit {0}))
      → try_add rs id r ≡ some (rs', res)
      → IsValid rs
      → IsValid rs'
  try_add-IsValid rs rs' id r res p h = elim (try_add-cases rs id r) [
    | inl (absent, e) ↦
        let result : rs' ≡ record rs { all = (OrdHashMap.insert id r rs.all).0 } = cc in
        rw result (insert-IsValid rs id r h)
    | inr (x, present, e) ↦
        let first = record rs { all = (OrdHashMap.insert id r rs.all).0 } in
        let result : rs' ≡ record first { all = (OrdHashMap.insert id x first.all).0 } = cc in
        rw result (insert-IsValid first id x (insert-IsValid rs id r h))
  ]

  -- In a valid state `remove` refuses the active recipe, fails on an unknown one, both with the
  -- state unchanged, and takes any other recipe out and returns it.
  pub remove-cases :
      (rs : Recipes N) (id : RecipeId)
      → IsValid rs
      → ((id ≡ rs.active_id) × (remove rs id ≡ some (rs, err is_active)))
        ⊎ ((OrdHashMap.get id rs.all ≡ none) × (remove rs id ≡ some (rs, err (unknown_removed id))))
        ⊎ ((x : Recipe N) × (id ≢ rs.active_id)
            × (OrdHashMap.get id rs.all ≡ some x)
            × (remove rs id ≡ some (record rs { all = (OrdHashMap.remove id rs.all).0 }, ok x)))
  unfolding remove active_without_id
  remove-cases rs id h = elim (Bool-cases (id == rs.active_id)) [
    | inl t ↦ inl (eq_of_test id rs.active_id t, ground (arith, h.active.1, t))
    | inr t ↦ elim (Option-cases (OrdHashMap.get id rs.all)) [
      | inl absent ↦ inr (inl (absent, ground (arith, h.active.1, t, remove_old id rs.all, absent)))
      | inr (x, present) ↦ inr (
          inr (
            x,
            ne_of_test id rs.active_id t,
            present,
            ground (arith, h.active.1, t, remove_old id rs.all, present),
          ))
    ]
  ]

  pub remove-IsValid :
      (rs rs' : Recipes N) (id : RecipeId) (res : Result RemoveRecipeError (Recipe N))
      → remove rs id ≡ some (rs', res)
      → IsValid rs
      → IsValid rs'
  remove-IsValid rs rs' id res p h = elim (remove-cases rs id h) [
    | inl (same, e) ↦ let result : rs' ≡ rs = cc in rw result h
    | inr (inl (absent, e)) ↦ let result : rs' ≡ rs = cc in rw result h
    | inr (inr (x, n, present, e)) ↦
        let result : rs' ≡ record rs { all = (OrdHashMap.remove id rs.all).0 } = cc in
        rw result (record {
          nodup = remove-NodupKeys id rs.all h.nodup;
          active = (
            h.active.0,
            ground (
              arith,
              get-remove id rs.active_id rs.all,
              test_of_ne id rs.active_id n,
              h.active.1,
            ),
          );
        })
  ]

  -- The state after a successful `update_recipe_id`.
  abbrev pub renamed : Recipes N → RecipeId → RecipeId → Recipe N → Recipes N
  renamed rs old_id new_id r = record rs {
    active_id = if rs.active_id == old_id then new_id else rs.active_id;
    all = (OrdHashMap.insert new_id r (OrdHashMap.remove old_id rs.all).0).0;
  }

  -- `update_recipe_id` fails on a taken new id and on an unknown old id, with the state unchanged;
  -- else it moves the recipe to the new id, and the active id with it.
  pub update_recipe_id-cases :
      (rs : Recipes N) (old_id new_id : RecipeId)
      → ((x : Recipe N) × (OrdHashMap.get new_id rs.all ≡ some x)
          × (update_recipe_id rs old_id new_id ≡ (rs, err (recipe_already_exists new_id))))
        ⊎ ((OrdHashMap.get new_id rs.all ≡ none)
            × (OrdHashMap.get old_id rs.all ≡ none)
            × (update_recipe_id rs old_id new_id ≡ (rs, err (unknown_recipe_id old_id))))
        ⊎ ((x : Recipe N) × (OrdHashMap.get new_id rs.all ≡ none)
            × (OrdHashMap.get old_id rs.all ≡ some x)
            × (update_recipe_id rs old_id new_id ≡ (renamed rs old_id new_id x, ok tt)))
  unfolding update_recipe_id
  update_recipe_id-cases rs old_id new_id = elim (Option-cases (OrdHashMap.get new_id rs.all)) [
    | inr (x, taken) ↦ inl (x, taken, ground (arith, contains_key-get new_id rs.all, taken))
    | inl free ↦ elim (Option-cases (OrdHashMap.get old_id rs.all)) [
      | inl absent ↦ inr (
          inl (
            free,
            absent,
            ground (arith, contains_key-get new_id rs.all, free, remove_old old_id rs.all, absent),
          ))
      | inr (x, present) ↦ inr (
          inr (
            x,
            free,
            present,
            ground (arith, contains_key-get new_id rs.all, free, remove_old old_id rs.all, present),
          ))
    ]
  ]

  renamed_active :
      (rs : Recipes N) (old_id new_id : RecipeId) (r : Recipe N)
      → IsValid rs
      → (x : Recipe N) × (OrdHashMap.get
            (renamed rs old_id new_id r).active_id
            (renamed rs old_id new_id r).all
          ≡ some x)
  renamed_active rs old_id new_id r h = elim (Bool-cases (rs.active_id == old_id)) [
    | inl t ↦ (r, rw t (get-insert_self new_id r _))
    | inr t ↦ rw t (
        insert_keeps new_id rs.active_id r _ (
          h.active.0,
          get-remove old_id rs.active_id rs.all
              ∙ rw (test_of_ne old_id rs.active_id (λ p. ne_of_test rs.active_id old_id t (sym p)))
                  h.active.1,
        ))
  ]

  pub update_recipe_id-IsValid :
      (rs : Recipes N) (old_id new_id : RecipeId)
      → IsValid rs
      → IsValid (update_recipe_id rs old_id new_id).0
  update_recipe_id-IsValid rs old_id new_id h = elim (update_recipe_id-cases rs old_id new_id) [
    | inl (x, taken, e) ↦ rw e h
    | inr (inl (free, absent, e)) ↦ rw e h
    | inr (inr (x, free, present, e)) ↦ rw e (record {
      nodup = insert-NodupKeys new_id x _ (remove-NodupKeys old_id rs.all h.nodup);
      active = renamed_active rs old_id new_id x h;
    })
  ]
