-- ===== src/Service/Serve.antt =====
-- Transactions one after the other, as the write lock of `RecipeServiceAccessor` lets them run.
use pilatus.Base.{◌≡◌, refl, List, [], ◌∷◌, Bool, Option, none, some, PartialEq}
use pilatus.Base.Result.{Result, ok, err}
use pilatus.Name.{Name, RecipeId}
use pilatus.Json.{Json}
use pilatus.Variables.{Variables}
use pilatus.Recipe.{DeviceId, TransactionError}
use pilatus.Recipe.Active.{IsValid}
use pilatus.Service.Tx.{Tx, Post}
use pilatus.Service.Defs.{
  Outside, State, delete_device, update_recipe_metadata, delete_recipe, commit_active,
  update_device_params, restore_committed, activate_recipe, update_device_name,
}
use pilatus.Service.Keeps.{Keeps}
use pilatus.Service.Valid.{
  Valid, delete_device-Keeps, update_recipe_metadata-Keeps, delete_recipe-Keeps,
  commit_active-Keeps, update_device_params-Keeps, restore_committed-Keeps, activate_recipe-Keeps,
  update_device_name-Keeps,
}

-- A transaction with its arguments.
pub data Request (N : Type 0) : Type 0 where
  deleting_device : RecipeId → DeviceId → Request N
  updating_metadata : RecipeId → RecipeId → List Name → Request N
  deleting_recipe : RecipeId → Request N
  committing : Request N
  updating_params : RecipeId → DeviceId → Json N → Variables N → Bool → Request N
  restoring : RecipeId → DeviceId → Request N
  activating : RecipeId → Request N
  renaming_device : RecipeId → DeviceId → Name → Request N

module _ {N W : Type 0} ⦃e : PartialEq N⦄ (out : Outside N W) where
  unfoldable pub transact : Request N → Tx (State N W) (Unit {0})
  transact (deleting_device id device_id) = delete_device out id device_id
  transact (updating_metadata id new_id tags) = update_recipe_metadata id new_id tags
  transact (deleting_recipe id) = delete_recipe out id
  transact committing = commit_active out
  transact (updating_params id device_id params vars committed) =
      update_device_params out id device_id params vars committed
  transact (restoring id device_id) = restore_committed out id device_id
  transact (activating id) = activate_recipe out id
  transact (renaming_device id device_id name) = update_device_name id device_id name

  transact-Keeps : (r : Request N) → Keeps Valid (transact r)
  unfolding transact
  transact-Keeps (deleting_device id device_id) = delete_device-Keeps out id device_id
  transact-Keeps (updating_metadata id new_id tags) = update_recipe_metadata-Keeps id new_id tags
  transact-Keeps (deleting_recipe id) = delete_recipe-Keeps out id
  transact-Keeps committing = commit_active-Keeps out
  transact-Keeps (updating_params id device_id params vars committed) =
      update_device_params-Keeps out id device_id params vars committed
  transact-Keeps (restoring id device_id) = restore_committed-Keeps out id device_id
  transact-Keeps (activating id) = activate_recipe-Keeps out id
  transact-Keeps (renaming_device id device_id name) = update_device_name-Keeps id device_id name

  transact-cases :
      (r : Request N) (s : State N W)
      → IsValid s.recipes
      → (t : State N W) × (res : Result TransactionError (Unit {0})) × (transact r s
          ≡ some (t, res))
        × IsValid t.recipes
  transact-cases r s p = let (t, res, q, post) = transact-Keeps r s p in (t, res, q, go t res post)
    where
      go :
          (t : State N W) (res : Result TransactionError (Unit {0}))
          → Post (λ u a. Valid u) Valid t res
          → IsValid t.recipes
      go t (ok a) h = h
      go t (err x) h = h

  -- Runs transactions one after the other; an error does not stop them, a panic does.
  unfoldable pub serve : List (Request N) → State N W → Option (State N W)
  serve [] s = some s
  serve (r ∷ rs) s = elim (transact r s) [ none ↦ none | some (t, res) ↦ serve rs t ]

  -- From a state whose active recipe exists, with no recipe id twice, any sequence of transactions
  -- runs through without a panic and ends in such a state, whatever the devices and the file system
  -- answer. (The transactions are delete_device, update_recipe_metadata, delete_recipe,
  -- commit_active, update_device_params, restore_committed, activate_recipe and
  -- update_device_name.)
  pub serve-IsValid :
      (rs : List (Request N)) (s : State N W)
      → IsValid s.recipes
      → (t : State N W) × (serve rs s ≡ some t) × IsValid t.recipes
  unfolding serve
  serve-IsValid [] s p = (s, refl, p)
  serve-IsValid (r ∷ rs) s p =
      let (t, res, q, valid) = transact-cases r s p in
      let (u, served, done) = serve-IsValid rs t valid in (u, rw (q, serve) served, done)
