-- ===== src/Recipe/Changes.antt =====
-- When the active recipe differs from its backup, and which operations make them agree.
use pilatus.Base.{
  ◌≡◌, refl, sym, ap, ◌↔◌, ◌⊎◌, inl, inr, true, false, none, some, List, [], ◌∷◌, arith, map,
  length, PartialEq, ◌==◌, nat_eq, list_eq, nat_beq, pair_beq_iff, pair_eq, Bool-cases,
  Option-cases,
}
use pilatus.Base.Result.{ok, err}
use pilatus.Name.{RecipeId}
use pilatus.OrdHashMap
use pilatus.OrdHashMap.{OrdHashMap}
use pilatus.OrdHashMap.Order.{length-iter_ordered}
use pilatus.Recipe.Config.{DeviceId, DeviceConfig, config_eq}
use pilatus.Recipe.Defs.{Recipe, count_devices}
use pilatus.Recipe.Collection.{
  Recipes, uncommitted_changes, unknown_recipe, active_without_id, get_with_id, any_differs,
  differs, has_active_changes, commit_active, set_active,
}

module _ {N : Type 0} ⦃e : PartialEq N⦄ where
  any_differs_iff :
      (a b : List (DeviceId × DeviceConfig N))
      → length a ≡ length b
      → (any_differs a b ≡ false) ↔ (a ≡ b)
  any_differs_iff [] [] h = (λ p. refl, λ p. refl)
  any_differs_iff [] (y ∷ b) h = absurd (omega arith)
  any_differs_iff (x ∷ a) [] h = absurd (omega arith)
  any_differs_iff (x ∷ a) (y ∷ b) h =
      let ih = any_differs_iff a b (omega arith) in
      let head = pair_beq_iff x y in
      elim (Bool-cases (x == y)) [
        | inl t ↦ rw t (λ p. cc (ih.0 p, head.0 t), λ p. ih.1 (cc))
        | inr t ↦ rw t (λ p. absurd (cc), λ p. absurd (ground (arith, p, head)))
      ]

  differs_iff :
      (running backup : Recipe N)
      → (differs running backup ≡ false)
        ↔ (OrdHashMap.iter_ordered running.devices ≡ OrdHashMap.iter_ordered backup.devices)
  unfolding count_devices
  differs_iff running backup =
      let r = length-iter_ordered running.devices in
      let b = length-iter_ordered backup.devices in
      elim (Bool-cases (nat_beq (length running.devices) (length backup.devices))) [
        | inl t ↦
            let same : length (OrdHashMap.iter_ordered backup.devices)
                ≡ length (OrdHashMap.iter_ordered running.devices) =
              ground arith in
            let (to, from) = any_differs_iff _ _ same in rw t (λ p. sym (to p), λ p. from (sym p))
        | inr t ↦ rw t (λ p. absurd (cc), λ p. absurd (ground (arith, r, b, ap length p)))
      ]

  -- In a state whose active recipe exists, `has_active_changes` answers false exactly if the active
  -- recipe has the devices of the backup, with the same settings, in the same order.
  pub has_active_changes_iff :
      (rs : Recipes N) (running : Recipe N)
      → active_without_id rs ≡ some running
      → (has_active_changes rs ≡ some false) ↔ (
          OrdHashMap.iter_ordered running.devices
          ≡ OrdHashMap.iter_ordered rs.active_backup.devices)
  unfolding has_active_changes
  has_active_changes_iff rs running h =
      let (to, from) = differs_iff running rs.active_backup in
      rw (h, has_active_changes) (λ p. to (cc), λ p. ap some (from p))

  -- A recipe does not differ from itself.
  differs_refl : (r : Recipe N) → differs r r ≡ false
  differs_refl r = (differs_iff r r).1 refl

  -- After `commit_active` the active recipe is the backup, and there are no changes.
  pub has_active_changes-commit_active :
      (rs rs' : Recipes N)
      → commit_active rs ≡ some rs'
      → (has_active_changes rs' ≡ some false) × (active_without_id rs' ≡ some rs'.active_backup)
  unfolding has_active_changes commit_active active_without_id
  has_active_changes-commit_active rs rs' h =
      elim (Option-cases (OrdHashMap.get rs.active_id rs.all)) [
        | inl missing ↦ absurd (ground (arith, missing))
        | inr (r, found) ↦
            let result : rs' ≡ record rs { active_backup = r } = ground (arith, found) in
            rw result (rw (found, has_active_changes) (ap some (differs_refl r)), found)
      ]

  has_active_changes-cases :
      (rs : Recipes N) (running : Recipe N)
      → active_without_id rs ≡ some running
      → (has_active_changes rs ≡ some true) ⊎ (has_active_changes rs ≡ some false)
  unfolding has_active_changes
  has_active_changes-cases rs running h = elim (Bool-cases (differs running rs.active_backup)) [
    | inl t ↦ inl (rw (h, has_active_changes) (ap some t))
    | inr t ↦ inr (rw (h, has_active_changes) (ap some t))
  ]

  has_active_changes-new :
      (rs : Recipes N) (id : RecipeId) (recipe : Recipe N)
      → get_with_id rs id ≡ some recipe
      → has_active_changes (record rs { active_id = id; active_backup = recipe }) ≡ some false
  unfolding has_active_changes get_with_id
  has_active_changes-new rs id recipe h = rw (h, has_active_changes) (ap some (differs_refl recipe))

  -- In a state whose active recipe exists, `set_active` has one of three outcomes. An unknown id is
  -- an error and changes nothing; uncommitted changes are an error and change nothing; else the
  -- recipe becomes active, its devices are the backup, their ids are returned, and no change is
  -- left.
  pub set_active_lem :
      (rs : Recipes N) (id : RecipeId) (running : Recipe N)
      → active_without_id rs ≡ some running
      → ((get_with_id rs id ≡ none) × (set_active rs id ≡ some (rs, err (unknown_recipe id))))
        ⊎ ((has_active_changes rs ≡ some true)
            × (set_active rs id ≡ some (rs, err uncommitted_changes)))
        ⊎ ((recipe : Recipe N) × (get_with_id rs id ≡ some recipe)
            × (has_active_changes rs ≡ some false)
            × (set_active rs id
                ≡ some (
                  record rs { active_id = id; active_backup = recipe },
                  ok (map (λ x. x.0) (OrdHashMap.iter_unordered recipe.devices)),
                ))
            × (has_active_changes (record rs { active_id = id; active_backup = recipe })
                ≡ some false))
  unfolding set_active
  set_active_lem rs id running h = elim (Option-cases (get_with_id rs id)) [
    | inl missing ↦ inl (missing, rw (missing, set_active))
    | inr (recipe, found) ↦ elim (has_active_changes-cases rs running h) [
      | inl t ↦ inr (inl (t, rw (found, t, set_active)))
      | inr t ↦ inr (
          inr (
            recipe,
            found,
            t,
            rw (found, t, set_active),
            has_active_changes-new rs id recipe found,
          ))
    ]
  ]
