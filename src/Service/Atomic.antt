-- ===== src/Service/Atomic.antt =====
-- What a change of parameters leaves behind, on success and on failure.
use pilatus.Base.{
  ◌≡◌, refl, sym, subst, ap, ◌∙◌, ◌||◌, [], Bool, false, Option, some, inl, inr, Option-cases,
  if◌then◌else◌, nat_eq, list_eq,
}
use pilatus.Base.Result.{Result, ok, err, Result-cases}
use pilatus.Name.{RecipeId}
use pilatus.Json.{Json}
use pilatus.OrdHashMap
use pilatus.Variables.{Variables, patch}
use pilatus.Recipe.{
  DeviceId, DeviceConfig, restore_committed as config_restored, Recipe, Recipes, unknown_device,
  update_device_params as update_params, TransactionError, unknown_recipe_id, unknown_device_error,
  get_with_id, get_with_id_mut, has_device,
}
use pilatus.Recipe.Active.{IsValid, get_with_id_mut-IsValid}
use pilatus.Service.Tx.{Tx, pure, ◌>>=◌, Post, Ends, Ends-bind, Ends-pure}
use pilatus.Service.Defs.{
  Outside, State, get_with_id_or_error, active, check_usages, usages_of, apply_on_device,
  apply_params, write_recipe, set_variables, update_device_params, write_device, restore_committed,
  find_device,
}
use pilatus.Service.Keeps.{
  Keeps, Keeps-pure, Keeps-if, On, active-Keeps, check_usages-Keeps, apply_on_device-Keeps,
}

module _ {S A B : Type 0} (P : S → Type 0) (R : S → B → Type 0) where
  Keeps-then :
      (m : Tx S A) (f : A → Tx S B)
      → Keeps P m
      → ((a : A) → Ends P (f a) R P)
      → Ends P (m >>= f) R P
  Keeps-then m f h k = Ends-bind m f h k

module _ {N : Type 0} where
  -- The recipes after a change of parameters that succeeds.
  pub record Written (committed : Bool) (id : RecipeId) (device_id : DeviceId) (params : Json N)
      (vars : Variables N) (before after : Recipes N) : Type 0 where
    pub old : Recipe N
    pub new : Recipe N
    pub found : get_with_id before id ≡ some old
    pub updated : update_params committed old device_id params ≡ ok new
    pub result : after ≡ record (get_with_id_mut before id (λ r. new)) { variables = vars }

  -- The recipes with one device restored.
  abbrev pub restored_in : Recipes N → RecipeId → DeviceId → Recipes N
  restored_in rs id device_id =
      get_with_id_mut rs id (write_device device_id (λ c. (config_restored c).0))

module _ {N W : Type 0} where
  module _ (committed : Bool) (id : RecipeId) (device_id : DeviceId) (params : Json N) where
    -- The transaction behind `apply_params`.
    abbrev write_all : Variables N → Tx (State N W) (Unit {0})
    write_all vars = get_with_id_or_error id >>= λ recipe.
        write_recipe id (update_params committed recipe device_id params) >>= λ u.
        set_variables vars

    write_all-Ends :
        (vars : Variables N) (rs : Recipes N)
        → Ends
            (λ s. s.recipes ≡ rs)
            (write_all vars)
            (λ t a. Written committed id device_id params vars rs t.recipes)
            (λ t. t.recipes ≡ rs)
    write_all-Ends vars rs s p = elim (Option-cases (get_with_id s.recipes id)) [
      | inl missing ↦ (s, err (unknown_recipe_id id), rw (missing, get_with_id_or_error) refl, p)
      | inr (r, found) ↦ elim (Result-cases (update_params committed r device_id params)) [
        | inl (r', done) ↦
            let rs' : Recipes N = record (get_with_id_mut s.recipes id (λ old. r')) {
              variables = vars;
            } in
            (
              record s { recipes = rs' },
              ok tt,
              rw (found, done, get_with_id_or_error) refl,
              record {
                old = r;
                new = r';
                found = ap (λ x. get_with_id x id) (sym p) ∙ found;
                updated = done;
                result = ap (λ x. record (get_with_id_mut x id (λ old. r')) { variables = vars }) p;
              },
            )
        | inr (unknown_device d, bad) ↦
            (s, err (unknown_device_error d), rw (found, bad, get_with_id_or_error) refl, p)
      ]
    ]

  module _ (out : Outside N W) where
    apply_params-Ends :
        (device_id : DeviceId) (params : Json N) (vars : Variables N) (rs : Recipes N)
        → IsValid rs
        → Ends
            (λ s. s.recipes ≡ rs)
            (apply_params out device_id params vars)
            (λ t a. (t.recipes ≡ rs) × (a ≡ patch rs.variables vars))
            (λ t. t.recipes ≡ rs)
    unfolding apply_params
    apply_params-Ends device_id params vars rs valid s p =
        let Q = λ (r : Recipes N). r ≡ rs in
        let sound : (r : Recipes N) → Q r → IsValid r = λ r h. subst IsValid (sym h) valid in
        let patched = patch s.recipes.variables vars in
        let R =
          λ (t : State N W) (a : Variables N). (t.recipes ≡ rs) × (a ≡ patch rs.variables vars) in
        let same : patched ≡ patch rs.variables vars = ap (λ r. patch r.variables vars) p in
        Keeps-then (On W Q) R active _ (active-Keeps Q sound)
          (λ running.
            Keeps-then (On W Q) R
              (check_usages out patched s.recipes.active_id (usages_of s.recipes vars) false) _
              (check_usages-Keeps Q out patched s.recipes.active_id (usages_of s.recipes vars)
                false)
              (λ changed.
                Keeps-then (On W Q) R
                  (if changed || has_device running device_id
                    then apply_on_device out device_id params patched
                    else pure tt)
                  _
                  (Keeps-if (On W Q) (changed || has_device running device_id) _ (pure tt)
                    (apply_on_device-Keeps Q out device_id params patched) (Keeps-pure (On W Q) tt))
                  (λ u. Ends-pure patched (λ t h. (h, same)))))
          s p

    -- From recipes `rs`, a change of parameters ends with `Written` on success and with `rs` on an error.
    pub update_device_params-Ends :
        (id : RecipeId) (device_id : DeviceId) (params : Json N) (vars : Variables N)
        (committed : Bool) (rs : Recipes N)
        → IsValid rs
        → Ends
            (λ s. s.recipes ≡ rs)
            (update_device_params out id device_id params vars committed)
            (λ t a. Written committed id device_id params (patch rs.variables vars) rs t.recipes)
            (λ t. t.recipes ≡ rs)
    unfolding update_device_params
    update_device_params-Ends id device_id params vars committed rs valid =
        Ends-bind (apply_params out device_id params vars) (write_all committed id device_id params)
          (apply_params-Ends device_id params vars rs valid)
          (λ a s p.
            let (t, res, e, post) =
              write_all-Ends committed id device_id params (patch rs.variables vars) rs s p.0 in
            (t, res, ap (λ v. write_all committed id device_id params v s) p.1 ∙ e, post))

    -- In a valid state `update_device_params` does not panic. If it returns an error, the recipes
    -- are unchanged; if it succeeds, the named recipe has the device's parameters written as the
    -- option says, the variables are the patched ones, and nothing else is changed, whatever the
    -- devices answer.
    pub update_device_params_atomic :
        (id : RecipeId) (device_id : DeviceId) (params : Json N) (vars : Variables N)
        (committed : Bool) (s : State N W)
        → IsValid s.recipes
        → (t : State N W) × (res : Result TransactionError (Unit {0})) × (update_device_params out
              id device_id params vars committed s
            ≡ some (t, res))
          × Post
              (λ u a.
                Written committed id device_id params
                  (patch s.recipes.variables vars)
                  s.recipes
                  u.recipes)
              (λ u. u.recipes ≡ s.recipes)
              t
              res
    update_device_params_atomic id device_id params vars committed s valid =
        update_device_params-Ends id device_id params vars committed s.recipes valid s refl

    -- In a valid state where the named device has committed parameters: if applying them fails,
    -- `restore_committed` returns that error, and the recipes keep the restored device.
    pub restore_committed_not_atomic :
        (id : RecipeId) (device_id : DeviceId) (s t : State N W) (r : Recipe N) (d : DeviceConfig N)
        (params : Json N) (x : TransactionError)
        → IsValid s.recipes
        → get_with_id s.recipes id ≡ some r
        → OrdHashMap.get device_id r.devices ≡ some d
        → (config_restored d).1 ≡ ok params
        → apply_params out device_id params []
            (record s { recipes = restored_in s.recipes id device_id })
          ≡ some (t, err x)
        → (restore_committed out id device_id s ≡ some (t, err x))
          × (t.recipes ≡ restored_in s.recipes id device_id)
    unfolding restore_committed
    restore_committed_not_atomic id device_id s t r d params x valid found there committed failed =
        let edited = restored_in s.recipes id device_id in
        let valid' =
          get_with_id_mut-IsValid s.recipes id (write_device device_id (λ c. (config_restored c).0))
            valid in
        let (t', res, e, post) =
          apply_params-Ends device_id params [] edited valid' (record s { recipes = edited })
            refl in
        (
          rw (found, there, committed, failed, get_with_id_or_error, find_device) refl,
          go t' res (sym e ∙ failed) post,
        )
      where
        go :
            (t' : State N W) (res : Result TransactionError (Variables N))
            → ◌≡◌ {A = Option (State N W × Result TransactionError (Variables N))}
                (some (t', res))
                (some (t, err x))
            → Post
                (λ u a.
                  (u.recipes ≡ restored_in s.recipes id device_id)
                  × (a ≡ patch (restored_in s.recipes id device_id).variables []))
                (λ u. u.recipes ≡ restored_in s.recipes id device_id)
                t'
                res
            → t.recipes ≡ restored_in s.recipes id device_id
        go t' (ok a) p h = absurd (cc p)
        go t' (err y) p h = let same : t' ≡ t = cc p in ap (λ u. u.recipes) (sym same) ∙ h
