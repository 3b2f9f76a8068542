-- ===== src/Service/Keeps.antt =====
-- What the transactions do to no property of the recipes: reading, validating, files and devices.
use pilatus.Base.{
  ◌≡◌, refl, Bool, true, false, ◌||◌, Option, none, some, List, [], ◌∷◌, if◌then◌else◌, ◌==◌,
  nat_eq, list_eq, Option-cases, inl, inr,
}
use pilatus.Base.Text.{Text}
use pilatus.Base.Result.{Result, ok, err}
use pilatus.Name.{RecipeId}
use pilatus.Json.{Json}
use pilatus.OrdHashMap
use pilatus.Variables.{Variables, patch}
use pilatus.Recipe.{
  DeviceId, Recipe, TransactionError, other, unknown_recipe_id, unknown_device_error,
  invalid_variable, file_system_error, Recipes, get_with_id, get_device, has_device,
}
use pilatus.Recipe.Active.{IsValid, active_of_IsValid}
use pilatus.Service.Tx.{Tx, pure, fail, ◌>>=◌, Post, Ends, Ends-bind}
use pilatus.Service.Defs.{
  DeviceContext, IoError, not_found, other_io, Outside, State, Usage, get_with_id_or_error,
  get_device_or_error, find_device, get_recipes, directory_removed, or_invalid, unless_migrated,
  active, call, attempt, remove_dirs, clone_files, copy_backup_files, validate_for, check_usages,
  apply_on_device, usages_of, apply_params, compare_files, check_active_files,
}

-- A property of the state that a transaction keeps, whatever its outcome; it does not panic.
abbrev pub Keeps : {S A : Type 0} → (S → Type 0) → Tx S A → Type 0
Keeps P m = Ends P m (λ s a. P s) P

module _ {S A : Type 0} (P : S → Type 0) where
  pub Post-of : (s : S) (res : Result TransactionError A) → P s → Post (λ t a. P t) P s res
  Post-of s (ok a) p = p
  Post-of s (err x) p = p

  pub Keeps-pure : (a : A) → Keeps P (pure a)
  Keeps-pure a s p = (s, ok a, refl, p)

  pub Keeps-fail : (x : TransactionError) → Keeps P (fail {A = A} x)
  Keeps-fail x s p = (s, err x, refl, p)

  pub Keeps-if : (b : Bool) (m n : Tx S A) → Keeps P m → Keeps P n → Keeps P (if b then m else n)
  Keeps-if true m n h k = h
  Keeps-if false m n h k = k

  pub Keeps-bind :
      {B : Type 0} (m : Tx S A) (f : A → Tx S B)
      → Keeps P m
      → ((a : A) → Keeps P (f a))
      → Keeps P (m >>= f)
  Keeps-bind m f h k = Ends-bind m f h k

-- A property of the recipes alone.
abbrev pub On : {N : Type 0} (W : Type 0) → (Recipes N → Type 0) → State N W → Type 0
On W Q s = Q s.recipes

module _ {N : Type 0} {W : Type 0} (Q : Recipes N → Type 0) where
  pub attempt-Keeps : {A : Type 0} (f : W → W × A) → Keeps (On W Q) (attempt f)
  attempt-Keeps f s p = (record s { world = (f s.world).0 }, ok (f s.world).1, refl, p)

  pub call-Keeps : {A : Type 0} (f : W → W × Result TransactionError A) → Keeps (On W Q) (call f)
  call-Keeps f s p =
      let t = record s { world = (f s.world).0 } in
      (t, (f s.world).1, refl, Post-of (On W Q) t (f s.world).1 p)

  pub get_with_id_or_error-Keeps : (id : RecipeId) → Keeps (On W Q) (get_with_id_or_error id)
  get_with_id_or_error-Keeps id s p =
      elim (get_with_id s.recipes id)
        as (λ o.
          (t : State N W) × (res : Result TransactionError (Recipe N)) × ((elim o [
            | none ↦ fail (unknown_recipe_id id) s
            | some r ↦ pure r s
          ])
            ≡ some (t, res))
          × Post (λ t a. On W Q t) (On W Q) t res) [
            | none ↦ (s, err (unknown_recipe_id id), refl, p)
            | some r ↦ (s, ok r, refl, p)
          ]

  pub get_device_or_error-Keeps : (id : DeviceId) → Keeps (On W Q) (get_device_or_error id)
  get_device_or_error-Keeps id s p = elim (Option-cases (get_device s.recipes id)) [
    | inl missing ↦ (s, err (unknown_device_error id), rw (missing, get_device_or_error) refl, p)
    | inr (d, found) ↦ (s, ok d, rw (found, get_device_or_error) refl, p)
  ]

  pub find_device-Keeps : (r : Recipe N) (id : DeviceId) → Keeps (On W Q) (find_device r id)
  find_device-Keeps r id s p = elim (Option-cases (OrdHashMap.get id r.devices)) [
    | inl missing ↦ (s, err (unknown_device_error id), rw (missing, find_device) refl, p)
    | inr (d, found) ↦ (s, ok d, rw (found, find_device) refl, p)
  ]

  module _ (sound : (rs : Recipes N) → Q rs → IsValid rs) where
    pub active-Keeps : Keeps (On W Q) active
    active-Keeps s p =
        let (r, found) = active_of_IsValid s.recipes (sound s.recipes p) in
        (s, ok r, rw (found, active) refl, p)

  module _ (out : Outside N W) where
    directory_removed-Keeps :
        (later : Tx (State N W) (Unit {0})) (r : Result IoError (Unit {0}))
        → Keeps (On W Q) later
        → Keeps (On W Q) (directory_removed later r)
    directory_removed-Keeps later (ok u) h = h
    directory_removed-Keeps later (err not_found) h = h
    directory_removed-Keeps later (err other_io) h = Keeps-fail (On W Q) file_system_error

    pub remove_dirs-Keeps : (ids : List DeviceId) → Keeps (On W Q) (remove_dirs out ids)
    remove_dirs-Keeps [] = Keeps-pure (On W Q) tt
    remove_dirs-Keeps (id ∷ ids) =
        Keeps-bind (On W Q) (attempt (out.remove_device_dir id)) _
          (attempt-Keeps (out.remove_device_dir id))
          (λ r. directory_removed-Keeps (remove_dirs out ids) r (remove_dirs-Keeps ids))

    pub clone_files-Keeps : (ids : List DeviceId) → Keeps (On W Q) (clone_files out ids)
    clone_files-Keeps [] = Keeps-pure (On W Q) tt
    clone_files-Keeps (id ∷ ids) =
        Keeps-bind (On W Q) (attempt (λ w. (w, out.is_device_dir id w))) _
          (attempt-Keeps (λ w. (w, out.is_device_dir id w)))
          (λ is_dir.
            Keeps-bind (On W Q) (if is_dir then call (out.clone_to_backup id) else pure tt) _
              (Keeps-if (On W Q) is_dir (call (out.clone_to_backup id)) (pure tt)
                (call-Keeps (out.clone_to_backup id)) (Keeps-pure (On W Q) tt))
              (λ u. clone_files-Keeps ids))

    pub copy_backup_files-Keeps : (ids : List DeviceId) → Keeps (On W Q) (copy_backup_files out ids)
    unfolding copy_backup_files
    copy_backup_files-Keeps ids =
        Keeps-bind (On W Q) (attempt (λ w. (out.remove_backup w, tt {0}))) _
          (attempt-Keeps (λ w. (out.remove_backup w, tt {0}))) (λ u. clone_files-Keeps ids)

    or_invalid-Keeps :
        (id : RecipeId) (r : Result TransactionError (Option (Json N)))
        → Keeps (On W Q) (or_invalid id r)
    or_invalid-Keeps id (ok update) = Keeps-pure (On W Q) update
    or_invalid-Keeps id (err x) = Keeps-fail (On W Q) (invalid_variable id)

    pub validate_for-Keeps :
        (id : RecipeId) (device_type : Text) (ctx : DeviceContext N)
        → Keeps (On W Q) (validate_for out id device_type ctx)
    validate_for-Keeps id device_type ctx =
        Keeps-bind (On W Q) (attempt (out.validate device_type ctx)) _
          (attempt-Keeps (out.validate device_type ctx)) (or_invalid-Keeps id)

    unless_migrated-Keeps :
        (later : Tx (State N W) Bool) (update : Option (Json N))
        → Keeps (On W Q) later
        → Keeps (On W Q) (unless_migrated later update)
    unless_migrated-Keeps later none h = h
    unless_migrated-Keeps later (some p) h = Keeps-fail (On W Q) other

    pub check_usages-Keeps :
        (vars : Variables N) (active_id : RecipeId) (usages : List (Usage N)) (changed : Bool)
        → Keeps (On W Q) (check_usages out vars active_id usages changed)
    check_usages-Keeps vars active_id [] changed = Keeps-pure (On W Q) changed
    check_usages-Keeps vars active_id ((id, (device_type, (device_id, params))) ∷ rest) changed =
        let ctx : DeviceContext N = record {
          id = device_id;
          variables = vars;
          params_with_vars = params;
        } in
        let later = check_usages-Keeps vars active_id rest changed in
        Keeps-if (On W Q) (id == active_id) _ _ (check_usages-Keeps vars active_id rest true) (
          Keeps-bind (On W Q) (validate_for out id device_type ctx) _
            (validate_for-Keeps id device_type ctx)
            (λ update. unless_migrated-Keeps _ update later))

    pub apply_on_device-Keeps :
        (id : DeviceId) (params : Json N) (vars : Variables N)
        → Keeps (On W Q) (apply_on_device out id params vars)
    apply_on_device-Keeps id params vars =
        Keeps-bind (On W Q) (get_device_or_error id) _ (get_device_or_error-Keeps id) (λ device.
          call-Keeps (
            out.try_apply device.device_type
              (record { id = id; variables = vars; params_with_vars = params })))

    compare_files-Keeps :
        (backup : Recipe N) (ids : List DeviceId) → Keeps (On W Q) (compare_files out backup ids)
    compare_files-Keeps backup [] = Keeps-pure (On W Q) tt
    compare_files-Keeps backup (id ∷ ids) =
        Keeps-bind (On W Q) (if has_device backup id then pure tt else fail other) _
          (Keeps-if (On W Q) (has_device backup id) (pure tt) (fail other) (Keeps-pure (On W Q) tt)
            (Keeps-fail (On W Q) other))
          (λ u.
            Keeps-bind (On W Q) (call (λ w. (w, out.same_files id w))) _
              (call-Keeps (λ w. (w, out.same_files id w)))
              (λ same.
                Keeps-if (On W Q) same _ (fail other) (compare_files-Keeps backup ids)
                  (Keeps-fail (On W Q) other)))

    module _ (sound : (rs : Recipes N) → Q rs → IsValid rs) where
      pub check_active_files-Keeps : Keeps (On W Q) (check_active_files out)
      unfolding check_active_files
      check_active_files-Keeps =
          Keeps-bind (On W Q) get_recipes _ (λ s p. (s, ok s.recipes, refl, p))
            (λ recipes. Keeps-bind (On W Q) active _ (active-Keeps sound) (λ running.
              compare_files-Keeps recipes.active_backup (OrdHashMap.keys running.devices)))

      -- `apply_params` writes nothing to the recipes.
      pub apply_params-Keeps :
          (id : DeviceId) (params : Json N) (vars : Variables N)
          → Keeps (On W Q) (apply_params out id params vars)
      unfolding apply_params
      apply_params-Keeps id params vars =
          Keeps-bind (On W Q) get_recipes _ (λ s p. (s, ok s.recipes, refl, p))
            (λ recipes.
              let patched = patch recipes.variables vars in
              Keeps-bind (On W Q) active _ (active-Keeps sound) (λ running.
                Keeps-bind (On W Q)
                  (check_usages out patched recipes.active_id (usages_of recipes vars) false) _
                  (check_usages-Keeps patched recipes.active_id (usages_of recipes vars) false)
                  (λ changed.
                    Keeps-bind (On W Q)
                      (if changed || has_device running id
                        then apply_on_device out id params patched
                        else pure tt)
                      _
                      (Keeps-if (On W Q) (changed || has_device running id) _ (pure tt)
                        (apply_on_device-Keeps id params patched) (Keeps-pure (On W Q) tt))
                      (λ u. Keeps-pure (On W Q) patched))))
