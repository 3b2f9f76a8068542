-- ===== src/Import/Blocked.antt =====
-- Since the backup counts as another recipe, an active recipe with a committed device lets no import
-- succeed.
use pilatus.Base.{
  ◌≡◌, ◌≢◌, refl, ap, ◌∙◌, Bool, true, Option, none, some, List, [], ◌∷◌, PartialEq, nat_eq,
  list_eq, inl, inr, arith,
}
use pilatus.Base.Result.{Result, ok, err, Result-cases}
use pilatus.Name.{RecipeId}
use pilatus.OrdHashMap
use pilatus.Variables.{VariableConflict, add}
use pilatus.Recipe.{DeviceId, DeviceConfig, Recipe, Recipes, active_without_id}
use pilatus.Recipe.Active.{IsValid}
use pilatus.Import.Defs.{DuplicateDevice, error_for_duplicate_device}
use pilatus.Import.Duplicates.{error_for_duplicate_device-active}
use pilatus.Import.Merge.{Validate, Serde, MergeStrategy, unspecified, duplicate, replace, Merging}
use pilatus.Import.Apply.{
  Files, Importer, World, Outcome, without_duplicates, checked, apply_strategy, apply,
}
use pilatus.Import.Untouched.{Kept, After, Allowed, merge_all-After}

module _ {N D F : Type 0} (fs : Files N F) (s : World N D F) where
  abbrev NotOk : Outcome N D F → Type 0
  NotOk o = (t : World N D F) → o ≢ some (t, ok tt)

  without_duplicates-NotOk :
      (m : Merging N D) (r : Result DuplicateDevice (Unit {0}))
      → r ≢ ok tt
      → NotOk (without_duplicates fs s m r)
  without_duplicates-NotOk m (ok u) h t e = absurd (h refl)
  without_duplicates-NotOk m (err x) h t e = elim (Result-cases (fs.close_tmp s.files).1) [
    | inl (u, p) ↦ ground (arith, p, e)
    | inr (y, p) ↦ ground (arith, p, e)
  ]

  -- The loop's result that reaches the check has a device in two recipes.
  abbrev Fails : Option (Merging N D × Option (List RecipeId)) → Type 0
  Fails none = Unit
  Fails (some (m, errors)) = error_for_duplicate_device m.recipes_copy ≢ ok tt

  checked-NotOk :
      (vars : List (VariableConflict N)) (r : Option (Merging N D × Option (List RecipeId)))
      → Fails r
      → NotOk (checked fs s vars r)
  checked-NotOk vars none h t e = cc e
  checked-NotOk vars (some (m, none)) h t e = cc e
  checked-NotOk [] (some (m, some [])) h t e =
      without_duplicates-NotOk m (error_for_duplicate_device m.recipes_copy) h t e
  checked-NotOk [] (some (m, some (x ∷ errors))) h t e = cc e
  checked-NotOk (v ∷ vars) (some (m, some [])) h t e = cc e
  checked-NotOk (v ∷ vars) (some (m, some (x ∷ errors))) h t e = cc e

module _ {N : Type 0} (rs : Recipes N) (running : Recipe N) (d : DeviceId) (c c' : DeviceConfig N)
    (active : active_without_id rs ≡ some running)
    (in_running : OrdHashMap.get d running.devices ≡ some c)
    (in_backup : OrdHashMap.get d rs.active_backup.devices ≡ some c') where
  abbrev AtActive : RecipeId → Type 0
  AtActive k = k ≡ rs.active_id

  -- The active recipe and its backup are as they were.
  kept_fails :
      (after : Recipes N) → Kept AtActive rs after → error_for_duplicate_device after ≢ ok tt
  unfolding active_without_id
  kept_fails after k =
      let still : OrdHashMap.get after.active_id after.all ≡ some running =
        ap (λ i. OrdHashMap.get i after.all) k.active_id
        ∙ k.recipes rs.active_id running refl active in
      let backup : OrdHashMap.get d after.active_backup.devices ≡ some c' =
        ap (λ (b : Recipe N). OrdHashMap.get d b.devices) k.backup ∙ in_backup in
      error_for_duplicate_device-active after running d c c' still in_running backup

  module _ {D F : Type 0} ⦃e : PartialEq N⦄ (validate : Validate N D) (serde : Serde N)
      (fs : Files N F) (importer : Importer N) (devices : D) (files : F) (valid : IsValid rs) where
    abbrev world : World N D F
    world = record { recipes = rs; devices = devices; files = files }

    After-Fails :
        (strategy : MergeStrategy) (safe : Bool) (r : Option (Merging N D × Option (List RecipeId)))
        → After AtActive safe rs strategy r
        → Fails fs world r
    After-Fails strategy safe none h = tt
    After-Fails strategy safe (some (m, errors)) h = kept_fails m.recipes_copy h.kept

    apply_strategy-NotOk :
        (strategy : MergeStrategy)
        → Allowed AtActive rs.active_id strategy
        → NotOk fs world (apply_strategy validate serde fs strategy importer world)
    unfolding apply_strategy
    apply_strategy-NotOk strategy allowed =
        let (variables, variable_conflicts) = add rs.variables importer.variables in
        let copy = record rs { variables = variables } in
        let start : Merging N D = record {
          devices = devices;
          strategy = strategy;
          recipes_copy = copy;
        } in
        rw active (
          checked-NotOk fs world variable_conflicts _ (
            After-Fails strategy true _ (
              merge_all-After AtActive true rs strategy validate serde rs.active_id importer.recipes
                start []
                (record {
                  kept = record {
                    valid = record { nodup = valid.nodup; active = valid.active };
                    active_id = refl;
                    backup = refl;
                    recipes = λ k x p found. found;
                  };
                  allowed = allowed;
                  panics = λ p. p;
                }))))

-- In a valid state whose active recipe shares a device with its backup, no import succeeds, with
-- any strategy and whatever is imported.
pub apply_blocked :
    {N D F : Type 0} ⦃e : PartialEq N⦄ (validate : Validate N D) (serde : Serde N) (fs : Files N F)
    (strategy : MergeStrategy) (importer : Importer N) (s : World N D F) (running : Recipe N)
    (d : DeviceId) (c c' : DeviceConfig N)
    → IsValid s.recipes
    → active_without_id s.recipes ≡ some running
    → OrdHashMap.get d running.devices ≡ some c
    → OrdHashMap.get d s.recipes.active_backup.devices ≡ some c'
    → (t : World N D F) → apply validate serde fs strategy importer s ≢ some (t, ok tt)
unfolding apply
apply_blocked validate serde fs unspecified importer s running d c c' valid active p q =
    apply_strategy-NotOk s.recipes running d c c' active p q validate serde fs importer s.devices
      s.files valid unspecified tt
apply_blocked validate serde fs (duplicate m) importer s running d c c' valid active p q =
    apply_strategy-NotOk s.recipes running d c c' active p q validate serde fs importer s.devices
      s.files valid (duplicate []) tt
apply_blocked validate serde fs (replace ds) importer s running d c c' valid active p q =
    apply_strategy-NotOk s.recipes running d c c' active p q validate serde fs importer s.devices
      s.files valid (replace []) (λ k p. p)
