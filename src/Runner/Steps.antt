-- ===== src/Runner/Steps.antt =====
-- The runner as a step relation: what it does by itself, in any order in which its devices end, and
-- what the rest of the program does to it.
use pilatus.Base.{◌≡◌, true, false, none, some, List, [], ◌∷◌, ◌++◌, PartialEq, nat_eq, list_eq}
use pilatus.Name.{RecipeId}
use pilatus.Json.{Json}
use pilatus.Variables.{Variables}
use pilatus.Recipe.{DeviceId, DeviceConfig}
use pilatus.Recipe.Active.{IsValid}
use pilatus.Service.{Outside, activate_recipe, update_device_params}
use pilatus.Service.Keeps.{Keeps, Keeps-bind, call-Keeps}
use pilatus.Service.Valid.{Valid, activate_recipe-Keeps, update_device_params-Keeps}
use pilatus.Runner.Defs.{
  Spawner, starting, idle, stopped, executing, Runner, store, activate_recipe_with,
  update_device_params_with, launch, begin, next_round, select_recipe, shut_down,
}

module _ {N W : Type 0} ⦃e : PartialEq N⦄ (out : Outside N W) (spawner : Spawner N W) where
  -- What the runner does by itself. A device ends at any time; the runner sees it once all devices
  -- are spawned.
  pub data Own : Runner N W → Runner N W → Type 0 where
    begins : {s t : Runner N W} → s.phase ≡ starting → begin s ≡ some t → Own s t
    launches :
        {s t : Runner N W} (recipe_id : RecipeId) (variables : Variables N) (id : DeviceId)
        (device : DeviceConfig N) (todo : List (DeviceId × DeviceConfig N)) (alive : List DeviceId)
        → s.phase ≡ executing recipe_id variables ((id, device) ∷ todo) alive
        → launch out spawner s recipe_id variables id device todo alive ≡ some t
        → Own s t
    ends :
        (s : Runner N W) (recipe_id : RecipeId) (variables : Variables N)
        (before after : List DeviceId) (id : DeviceId)
        → s.phase ≡ executing recipe_id variables [] (before ++ id ∷ after)
        → Own s (record s { phase = executing recipe_id variables [] (before ++ after) })
    finishes :
        (s : Runner N W) (recipe_id : RecipeId) (variables : Variables N)
        → s.phase ≡ executing recipe_id variables [] []
        → Own s (record s { phase = idle })
    continues :
        {s t : Runner N W} (id : RecipeId)
        → s.phase ≡ idle
        → s.job ≡ some id
        → next_round out spawner s id ≡ some t
        → Own s t
    -- the sender was dropped
    stops :
        (s : Runner N W)
        → s.phase ≡ idle
        → s.job ≡ none
        → s.slot ≡ false
        → Own s (record s { phase = stopped })

  pub data Step : Runner N W → Runner N W → Type 0 where
    own : {s t : Runner N W} → Own s t → Step s t
    selects : (s : Runner N W) (id : RecipeId) → Step s (select_recipe id s).0
    shuts_down : (s : Runner N W) → Step s (shut_down s)

  pub data Reach (s : Runner N W) : Runner N W → Type 0 where
    here : Reach s s
    next : {t u : Runner N W} → Reach s t → Step t u → Reach s u

  pub data OwnReach (s : Runner N W) : Runner N W → Type 0 where
    here : OwnReach s s
    next : {t u : Runner N W} → OwnReach s t → Own t u → OwnReach s u

  store-Keeps : Keeps Valid (store out spawner)
  store-Keeps s p = call-Keeps IsValid (spawner.store s.recipes) s p

  pub activate_recipe_with-Keeps :
      (id : RecipeId) → Keeps Valid (activate_recipe_with out spawner id)
  unfolding activate_recipe_with
  activate_recipe_with-Keeps id =
      Keeps-bind Valid (activate_recipe out id) _ (activate_recipe-Keeps out id) (λ u. store-Keeps)

  pub update_device_params_with-Keeps :
      (recipe_id : RecipeId) (device_id : DeviceId) (parameters : Json N)
      → Keeps Valid (update_device_params_with out spawner recipe_id device_id parameters)
  unfolding update_device_params_with
  update_device_params_with-Keeps recipe_id device_id parameters =
      Keeps-bind Valid (update_device_params out recipe_id device_id parameters [] true) _
        (update_device_params-Keeps out recipe_id device_id parameters [] true) (λ u. store-Keeps)
