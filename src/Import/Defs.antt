-- ===== src/Import/Defs.antt =====
-- `error_for_duplicate_device`, and `Recipes::recipeid_per_deviceid`, which it reads.
use pilatus.Base.{none, some, List, [], ◌∷◌, ◌++◌, map, nat_eq}
use pilatus.Base.Result.{Result, ok, err}
use pilatus.Name.{RecipeId}
use pilatus.HashMap
use pilatus.HashMap.{HashMap}
use pilatus.OrdHashMap
use pilatus.Recipe.{DeviceId, Recipe, Recipes, iter_with_backup}

-- `ImportRecipeError::ExistingDeviceInOtherRecipe`
pub data DuplicateDevice : Type 0 where
  existing_device : DeviceId → (recipe known : RecipeId) → DuplicateDevice

module _ {N : Type 0} where
  abbrev pub owned : RecipeId → Recipe N → List (DeviceId × RecipeId)
  owned rid v = map (λ x. (x.0, rid)) (OrdHashMap.iter_unordered v.devices)

  abbrev pub owners : List (RecipeId × Recipe N) → List (DeviceId × RecipeId)
  owners [] = []
  owners ((rid, v) ∷ rest) = owned rid v ++ owners rest

  unfoldable pub recipeid_per_deviceid : Recipes N → List (DeviceId × RecipeId)
  unfolding iter_with_backup
  recipeid_per_deviceid rs = owners (iter_with_backup rs)

unfoldable pub check_owners :
    HashMap DeviceId RecipeId → List (DeviceId × RecipeId) → Result DuplicateDevice (Unit {0})
check_owners known [] = ok tt
check_owners known ((did, rid) ∷ rest) =
    let later = check_owners (HashMap.insert did rid known) rest in
    elim (HashMap.get did known) [ some x ↦ err (existing_device did rid x) | none ↦ later ]

unfoldable pub error_for_duplicate_device :
    {N : Type 0} → Recipes N → Result DuplicateDevice (Unit {0})
unfolding check_owners recipeid_per_deviceid
error_for_duplicate_device r = check_owners [] (recipeid_per_deviceid r)
