-- ===== src/Runner/Shutdown.antt =====
-- A shutdown of the runner: one that comes after the selection of a recipe is lost, any other ends it.
use pilatus.Base.{
  ◌≡◌, ◌≢◌, ◌⊎◌, refl, sym, subst, ◌∙◌, Bool, true, false, Option, none, some, [], ◌∷◌, ◌++◌,
  PartialEq, nat_eq, list_eq, inl, inr,
}
use pilatus.Name.{RecipeId}
use pilatus.Service.{Outside}
use pilatus.Runner.Defs.{
  Spawner, Phase, starting, idle, stopped, executing, Runner, launch, select_recipe, shut_down,
}
use pilatus.Runner.Steps.{
  Own, begins, launches, ends, finishes, continues, stops, OwnReach, here, next,
}
use pilatus.Runner.Progress.{
  Sound, IsSound, spawned_lem, next_round_lem, begin_lem, some_eq, Own-IsSound, select-IsSound,
  shut_down-IsSound,
}

-- The runner has not stopped, and something makes it go on: a selection can still come, or has come.
abbrev Busy : {N : Type 0} → Phase N → Bool → Option RecipeId → Type 0
Busy starting slot job = Unit {0}
Busy stopped slot job = ⊥
Busy idle slot job = (slot ≡ true) ⊎ ((id : RecipeId) × (job ≡ some id))
Busy (executing id variables todo alive) slot job =
    (slot ≡ true) ⊎ ((id : RecipeId) × (job ≡ some id))

module _ {N W : Type 0} where
  abbrev IsBusy : Runner N W → Type 0
  IsBusy s = Busy s.phase s.slot s.job

  Busy-at : (p : Phase N) (s : Runner N W) → s.phase ≡ p → IsBusy s → Busy p s.slot s.job
  Busy-at p s q h = subst (λ p. Busy p s.slot s.job) q h

  IsBusy-at : (p : Phase N) (s : Runner N W) → s.phase ≡ p → Busy p s.slot s.job → IsBusy s
  IsBusy-at p s q h = subst (λ p. Busy p s.slot s.job) (sym q) h

  IsBusy-running : (s : Runner N W) → IsBusy s → s.phase ≢ stopped
  IsBusy-running s h p = Busy-at stopped s p h

  IsBusy-open : (s : Runner N W) → s.phase ≡ idle → s.job ≡ none → s.slot ≡ false → IsBusy s → ⊥
  IsBusy-open s p j q h = elim (Busy-at idle s p h) [
    | inl t ↦ cc (q, t)
    | inr (id, some_job) ↦ cc (j, some_job)
  ]

module _ {N W : Type 0} ⦃e : PartialEq N⦄ (out : Outside N W) (spawner : Spawner N W) where
  Own-IsBusy : {s t : Runner N W} → Own out spawner s t → IsSound s → IsBusy s → IsBusy t
  unfolding launch
  Own-IsBusy {s} {t} (begins p q) h b =
      let (u, r, v, slot, job, (l, phase)) = begin_lem out spawner s h.valid in
      subst IsBusy (some_eq out spawner (sym r ∙ q)) (IsBusy-at _ u phase (inl slot))
  Own-IsBusy {s} {t} (launches recipe_id variables id device todo alive p q) h b =
      let (u, r, w, (l, phase)) =
        spawned_lem out spawner s recipe_id variables id todo alive _ h.valid in
      subst IsBusy (some_eq out spawner (sym r ∙ q)) (
        IsBusy-at (executing recipe_id variables todo l) u phase (
          subst (λ x. (x ≡ true) ⊎ ((id : RecipeId) × (u.job ≡ some id))) (sym w.slot)
            (subst (λ x. (s.slot ≡ true) ⊎ ((id : RecipeId) × (x ≡ some id))) (sym w.job)
              (Busy-at (executing recipe_id variables ((id, device) ∷ todo) alive) s p b))))
  Own-IsBusy (ends s recipe_id variables before after id p) h b =
      Busy-at (executing recipe_id variables [] (before ++ id ∷ after)) s p b
  Own-IsBusy (finishes s recipe_id variables p) h b =
      Busy-at (executing recipe_id variables [] []) s p b
  Own-IsBusy {s} {t} (continues id p j q) h b =
      let (u, r, v, phase, slot, job) = next_round_lem out spawner s id h.valid in
      subst IsBusy (some_eq out spawner (sym r ∙ q)) (IsBusy-at starting u phase tt)
  Own-IsBusy (stops s p j slot) h b = absurd (IsBusy-open s p j slot b)

  OwnReach-IsBusy :
      {s t : Runner N W} → OwnReach out spawner s t → IsSound s → IsBusy s → IsSound t × IsBusy t
  OwnReach-IsBusy here h b = (h, b)
  OwnReach-IsBusy (next r p) h b =
      let (sound, busy) = OwnReach-IsBusy r h b in
      (Own-IsSound out spawner p sound, Own-IsBusy p sound busy)

  selected-Busy :
      (p : Phase N) (slot : Bool) (job : Option RecipeId) (id : RecipeId)
      → slot ≡ true
      → Sound p slot job
      → Busy p false (some id)
  selected-Busy starting slot job id q h = absurd (cc (q, h.0))
  selected-Busy stopped slot job id q h = absurd (cc (q, h.0))
  selected-Busy idle slot job id q h = inr (id, refl)
  selected-Busy (executing i variables todo alive) slot job id q h = inr (id, refl)

  shut_down-select_recipe-IsBusy :
      (s : Runner N W) (id : RecipeId)
      → IsSound s
      → s.slot ≡ true
      → IsBusy (shut_down (select_recipe id s).0)
  unfolding select_recipe shut_down
  shut_down-select_recipe-IsBusy s id h q =
      rw (q, select_recipe) (selected-Busy s.phase s.slot s.job id q h.sound)

  -- If the runner accepts the selection of a recipe and the system then shuts down, the runner
  -- never stops, whatever it does by itself afterwards.
  pub shut_down-select_recipe-lost :
      (s t : Runner N W) (id : RecipeId)
      → IsSound s
      → s.slot ≡ true
      → OwnReach out spawner (shut_down (select_recipe id s).0) t
      → t.phase ≢ stopped
  shut_down-select_recipe-lost s t id h q r =
      let sound =
        shut_down-IsSound out spawner (select_recipe id s).0 (select-IsSound out spawner s id h) in
      let (kept, busy) = OwnReach-IsBusy r sound (shut_down-select_recipe-IsBusy s id h q) in
      IsBusy-running t busy
