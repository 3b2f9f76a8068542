-- ===== src/Service/Valid.antt =====
-- No transaction loses the active recipe, and none panics while it is there.
use pilatus.Base.{
  ◌≡◌, refl, List, [], map, Bool, Option, none, some, PartialEq, ◌==◌, nat_eq, list_eq, inl, inr,
  if◌then◌else◌,
}
use pilatus.Base.Result.{Result, ok, err}
use pilatus.Name.{Name, RecipeId}
use pilatus.Json.{Json}
use pilatus.OrdHashMap
use pilatus.Variables.{Variables}
use pilatus.Recipe.{
  DeviceId, DeviceConfig, NoCommitted, restore_committed as config_restored, Recipe,
  UnknownDeviceError, unknown_device, update_device_params as update_params, unknown_device_error,
  other, Recipes, active_without_id, uncommitted_changes, unknown_recipe, update_recipe_id,
  commit_active as commit_recipe, is_active, unknown_removed, with_name as config_named,
}
use pilatus.Recipe.Active.{
  IsValid, active_of_IsValid, get_with_id_mut-IsValid, update_recipe_id-IsValid, remove-IsValid,
  remove-cases, commit_active-IsValid,
}
use pilatus.Recipe.Changes.{set_active_lem}
use pilatus.Recipe.Steps.{set_active-IsValid}
use pilatus.Service.Tx.{pure, ◌>>=◌}
use pilatus.Service.Defs.{
  Outside, State, edit, set_variables, write_device, rename, update_recipe_metadata, remove_recipe,
  delete_recipe, commit_recipes, copy_backup_files, commit_active, write_recipe, apply_params,
  update_device_params, restored_params, find_device, restore_committed, update_device_name,
  remove_files, delete_device, switch, activate_recipe, get_with_id_or_error, active, attempt,
  check_active_files, remove_recipe_error, set_active_error,
}
use pilatus.Service.Keeps.{
  Keeps, Post-of, Keeps-pure, Keeps-fail, Keeps-if, Keeps-bind, attempt-Keeps,
  get_with_id_or_error-Keeps, find_device-Keeps, active-Keeps, remove_dirs-Keeps,
  copy_backup_files-Keeps, check_active_files-Keeps, apply_params-Keeps,
}

module _ {N : Type 0} {W : Type 0} where
  abbrev pub Valid : State N W → Type 0
  Valid s = IsValid s.recipes

  edit-Keeps : (id : RecipeId) (f : Recipe N → Recipe N) → Keeps Valid (edit id f)
  edit-Keeps id f s p = (_, ok tt, refl, get_with_id_mut-IsValid s.recipes id f p)

  set_variables-Keeps : (vars : Variables N) → Keeps Valid (set_variables vars)
  set_variables-Keeps vars s p = (_, ok tt, refl, record { nodup = p.nodup; active = p.active })

  rename-Keeps : (id new_id : RecipeId) → Keeps Valid (rename id new_id)
  rename-Keeps id new_id s p =
      let renamed = update_recipe_id s.recipes id new_id in
      let valid = update_recipe_id-IsValid s.recipes id new_id p in
      let t = record s { recipes = renamed.0 } in
      (t, renamed.1, refl, Post-of Valid t renamed.1 valid)

  write_recipe-Keeps :
      (id : RecipeId) (res : Result UnknownDeviceError (Recipe N))
      → Keeps Valid (write_recipe id res)
  write_recipe-Keeps id (err (unknown_device d)) = Keeps-fail Valid (unknown_device_error d)
  write_recipe-Keeps id (ok r) = edit-Keeps id (λ old. r)

  restored_params-Keeps : (res : Result NoCommitted (Json N)) → Keeps Valid (restored_params res)
  restored_params-Keeps (ok params) = Keeps-pure Valid params
  restored_params-Keeps (err x) = Keeps-fail Valid other

  remove_recipe-Keeps : (id : RecipeId) → Keeps Valid (remove_recipe id)
  remove_recipe-Keeps id s p = elim (remove-cases s.recipes id p) [
    | inl (same, e) ↦ (s, err (remove_recipe_error is_active), rw (e, remove_recipe) refl, p)
    | inr (inl (absent, e)) ↦
        (s, err (remove_recipe_error (unknown_removed id)), rw (e, remove_recipe) refl, p)
    | inr (inr (x, n, present, e)) ↦ (
      record s { recipes = record s.recipes { all = (OrdHashMap.remove id s.recipes.all).0 } },
      ok x,
      rw (e, remove_recipe) refl,
      remove-IsValid s.recipes _ id (ok x) e p,
    )
  ]

  commit_recipes-Keeps : Keeps Valid commit_recipes
  commit_recipes-Keeps s p =
      let e : commit_recipe s.recipes ≡ some (record s.recipes { active_backup = p.active.0 }) =
        unfold commit_recipe active_without_id in rw (p.active.1, commit_recipe) refl in
      (
        record s { recipes = record s.recipes { active_backup = p.active.0 } },
        ok tt,
        rw (e, commit_recipes) refl,
        commit_active-IsValid s.recipes _ e p,
      )

  find_then_edit :
      (id : RecipeId) (device_id : DeviceId) (f : Recipe N → Recipe N)
      → Keeps Valid (get_with_id_or_error id >>= λ r. find_device r device_id >>= λ d. edit id f)
  find_then_edit id device_id f =
      Keeps-bind Valid (get_with_id_or_error id) _ (get_with_id_or_error-Keeps IsValid id) (λ r.
        Keeps-bind Valid (find_device r device_id) _ (find_device-Keeps IsValid r device_id)
          (λ d. edit-Keeps id f))

  pub update_recipe_metadata-Keeps :
      (id new_id : RecipeId) (tags : List Name)
      → Keeps Valid (update_recipe_metadata id new_id tags)
  unfolding update_recipe_metadata
  update_recipe_metadata-Keeps id new_id tags =
      Keeps-bind Valid (if id == new_id then pure tt else rename id new_id) _
        (Keeps-if Valid (id == new_id) (pure tt) (rename id new_id) (Keeps-pure Valid tt)
          (rename-Keeps id new_id))
        (λ u.
          Keeps-bind Valid (get_with_id_or_error new_id) _
            (get_with_id_or_error-Keeps IsValid new_id) (λ r. edit-Keeps new_id _))

  pub update_device_name-Keeps :
      (id : RecipeId) (device_id : DeviceId) (name : Name)
      → Keeps Valid (update_device_name id device_id name)
  unfolding update_device_name
  update_device_name-Keeps id device_id name =
      find_then_edit id device_id (write_device device_id (λ d. config_named d name))

  module _ (out : Outside N W) where
    remove_files-Keeps :
        (id : DeviceId) (d : Option (DeviceConfig N)) → Keeps Valid (remove_files out id d)
    remove_files-Keeps id none = Keeps-fail Valid (unknown_device_error id)
    remove_files-Keeps id (some d) =
        Keeps-bind Valid (attempt (out.remove_device_dir id)) _
          (attempt-Keeps IsValid (out.remove_device_dir id)) (λ r. Keeps-pure Valid tt)

    pub delete_device-Keeps :
        (id : RecipeId) (device_id : DeviceId) → Keeps Valid (delete_device out id device_id)
    unfolding delete_device
    delete_device-Keeps id device_id =
        Keeps-bind Valid (get_with_id_or_error id) _ (get_with_id_or_error-Keeps IsValid id)
          (λ recipe.
            Keeps-bind Valid
              (edit id (λ r. record r { devices = (OrdHashMap.remove device_id r.devices).0 })) _
              (edit-Keeps id
                (λ r. record r { devices = (OrdHashMap.remove device_id r.devices).0 }))
              (λ u. remove_files-Keeps device_id (OrdHashMap.remove device_id recipe.devices).1))

    pub delete_recipe-Keeps : (id : RecipeId) → Keeps Valid (delete_recipe out id)
    unfolding delete_recipe
    delete_recipe-Keeps id =
        Keeps-bind Valid (remove_recipe id) _ (remove_recipe-Keeps id)
          (λ removed. remove_dirs-Keeps IsValid out (OrdHashMap.keys removed.devices))

    pub commit_active-Keeps : Keeps Valid (commit_active out)
    unfolding commit_active
    commit_active-Keeps = Keeps-bind Valid active _ (active-Keeps IsValid (λ rs h. h)) (λ r.
        Keeps-bind Valid (copy_backup_files out (OrdHashMap.keys r.devices)) _
          (copy_backup_files-Keeps IsValid out (OrdHashMap.keys r.devices))
          (λ u. commit_recipes-Keeps))

    pub update_device_params-Keeps :
        (id : RecipeId) (device_id : DeviceId) (params : Json N) (vars : Variables N)
        (committed : Bool)
        → Keeps Valid (update_device_params out id device_id params vars committed)
    unfolding update_device_params
    update_device_params-Keeps id device_id params vars committed =
        Keeps-bind Valid (apply_params out device_id params vars) _
          (apply_params-Keeps IsValid out (λ rs h. h) device_id params vars)
          (λ vars'.
            Keeps-bind Valid (get_with_id_or_error id) _ (get_with_id_or_error-Keeps IsValid id)
              (λ r.
                Keeps-bind Valid (write_recipe id (update_params committed r device_id params)) _
                  (write_recipe-Keeps id (update_params committed r device_id params))
                  (λ u. set_variables-Keeps vars')))

    pub restore_committed-Keeps :
        (id : RecipeId) (device_id : DeviceId) → Keeps Valid (restore_committed out id device_id)
    unfolding restore_committed
    restore_committed-Keeps id device_id =
        Keeps-bind Valid (get_with_id_or_error id) _ (get_with_id_or_error-Keeps IsValid id) (λ r.
          Keeps-bind Valid (find_device r device_id) _ (find_device-Keeps IsValid r device_id) (λ d.
            Keeps-bind Valid (restored_params (config_restored d).1) _
              (restored_params-Keeps (config_restored d).1)
              (λ params.
                Keeps-bind Valid (edit id (write_device device_id (λ c. (config_restored c).0))) _
                  (edit-Keeps id (write_device device_id (λ c. (config_restored c).0)))
                  (λ u.
                    Keeps-bind Valid (apply_params out device_id params []) _
                      (apply_params-Keeps IsValid out (λ rs h. h) device_id params [])
                      set_variables-Keeps))))

module _ {N W : Type 0} ⦃e : PartialEq N⦄ where
  switch-Keeps : (id : RecipeId) → Keeps (Valid {N = N} {W = W}) (switch id)
  switch-Keeps id s p =
      let (running, found) = active_of_IsValid s.recipes p in
      elim (set_active_lem s.recipes id running found) [
        | inl (missing, q) ↦ (s, err (set_active_error (unknown_recipe id)), rw (q, switch) refl, p)
        | inr (inl (changed, q)) ↦
            (s, err (set_active_error uncommitted_changes), rw (q, switch) refl, p)
        | inr (inr (r, there, unchanged, q, agree)) ↦
            let rs : Recipes N = record s.recipes { active_id = id; active_backup = r } in
            let ids = map (λ x. x.0) (OrdHashMap.iter_unordered r.devices) in
            (
              record s { recipes = rs },
              ok ids,
              rw (q, switch) refl,
              set_active-IsValid s.recipes rs id (ok ids) q p,
            )
      ]

  pub activate_recipe-Keeps :
      (out : Outside N W) (id : RecipeId) → Keeps Valid (activate_recipe out id)
  unfolding activate_recipe
  activate_recipe-Keeps out id =
      Keeps-bind Valid (check_active_files out) _ (check_active_files-Keeps IsValid out (λ rs h. h))
        (λ u.
          Keeps-bind Valid (switch id) _ (switch-Keeps id)
            (λ ids. copy_backup_files-Keeps IsValid out ids))
