-- ===== src/Runner/Progress.antt =====
-- What the steps of the runner keep, and that it has a step while its devices run.
use pilatus.Base.{
  ◌≡◌, refl, sym, subst, ◌∙◌, Bool, true, false, Option, none, some, List, [], ◌∷◌, ◌++◌, PartialEq,
  nat_eq, list_eq, inl, inr, Bool-cases,
}
use pilatus.Base.Result.{Result, ok, err}
use pilatus.Name.{RecipeId}
use pilatus.Json.{Json}
use pilatus.OrdHashMap
use pilatus.Variables.{Variables}
use pilatus.Recipe.{DeviceId, DeviceConfig, TransactionError}
use pilatus.Recipe.Active.{IsValid, active_of_IsValid}
use pilatus.Service.{Outside, State}
use pilatus.Service.Tx.{Post}
use pilatus.Service.Valid.{Valid}
use pilatus.Handler.{StartDeviceError}
use pilatus.Runner.Defs.{
  Spawner, Phase, starting, idle, stopped, executing, Runner, applied_changes, launched, spawned,
  launch, opened, begin, answered, next_round, select_recipe, shut_down,
}
use pilatus.Runner.Steps.{
  Own, begins, launches, ends, finishes, continues, stops, Step, own, selects, shuts_down, Reach,
  here, next, activate_recipe_with-Keeps, update_device_params_with-Keeps,
}

-- A sender in the slot and a job exclude each other; between two rounds there is neither.
abbrev pub Sound : {N : Type 0} → Phase N → Bool → Option RecipeId → Type 0
Sound starting slot job = (slot ≡ false) × (job ≡ none)
Sound stopped slot job = (slot ≡ false) × (job ≡ none)
Sound idle slot job = slot ≡ true → job ≡ none
Sound (executing id variables todo alive) slot job = slot ≡ true → job ≡ none

module _ {N W : Type 0} where
  pub record IsSound (s : Runner N W) : Type 0 where
    pub valid : IsValid s.service.recipes
    pub sound : Sound s.phase s.slot s.job

  -- What a step within a round keeps.
  pub record Within (s t : Runner N W) : Type 0 where
    pub valid : IsValid t.service.recipes
    pub slot : t.slot ≡ s.slot
    pub job : t.job ≡ s.job
    pub answers : t.answers ≡ s.answers

Post-Valid :
    {N W : Type 0} (t : State N W) (res : Result TransactionError (Unit {0}))
    → Post (λ u a. Valid u) Valid t res
    → IsValid t.recipes
Post-Valid t (ok a) h = h
Post-Valid t (err x) h = h

module _ {N W : Type 0} ⦃e : PartialEq N⦄ (out : Outside N W) (spawner : Spawner N W) where
  applied_changes_lem :
      (recipe_id : RecipeId) (id : DeviceId) (changes : Option (Json N)) (s : State N W)
      → IsValid s.recipes
      → (t : State N W) × (applied_changes out spawner recipe_id id changes s ≡ some t)
        × IsValid t.recipes
  applied_changes_lem recipe_id id none s h = (s, refl, h)
  applied_changes_lem recipe_id id (some p) s h =
      let (t, res, q, post) = update_device_params_with-Keeps out spawner recipe_id id p s h in
      (t, rw (q, applied_changes) refl, Post-Valid t res post)

  pub spawned_lem :
      (s : Runner N W) (recipe_id : RecipeId) (variables : Variables N) (id : DeviceId)
      (todo : List (DeviceId × DeviceConfig N)) (alive : List DeviceId)
      (r : W × Result StartDeviceError (Option (Json N)))
      → IsValid s.service.recipes
      → (t : Runner N W) × (spawned out spawner s recipe_id variables id todo alive r ≡ some t)
        × Within s t
        × ((l : List DeviceId) × (t.phase ≡ executing recipe_id variables todo l))
  spawned_lem s recipe_id variables id todo alive (w, err x) h =
      (_, refl, record { valid = h; slot = refl; job = refl; answers = refl }, (alive, refl))
  spawned_lem s recipe_id variables id todo alive (w, ok changes) h =
      let (t, q, v) = applied_changes_lem recipe_id id changes (record s.service { world = w }) h in
      (
        record s { service = t; phase = executing recipe_id variables todo (alive ++ id ∷ []) },
        rw (q, launched) refl,
        record { valid = v; slot = refl; job = refl; answers = refl },
        (alive ++ id ∷ [], refl),
      )

  pub next_round_lem :
      (s : Runner N W) (id : RecipeId)
      → IsValid s.service.recipes
      → (t : Runner N W) × (next_round out spawner s id ≡ some t)
        × IsValid t.service.recipes
        × (t.phase ≡ starting)
        × (t.slot ≡ s.slot)
        × (t.job ≡ none)
  unfolding next_round
  next_round_lem s id h =
      let (t, res, q, post) = activate_recipe_with-Keeps out spawner id s.service h in
      (
        record s { service = t; job = none; phase = starting; answers = (id, res) ∷ s.answers },
        rw (q, answered) refl,
        Post-Valid t res post,
        refl,
        refl,
        refl,
      )

  pub begin_lem :
      (s : Runner N W)
      → IsValid s.service.recipes
      → (t : Runner N W) × (begin s ≡ some t)
        × IsValid t.service.recipes
        × (t.slot ≡ true)
        × (t.job ≡ none)
        × ((l : List (DeviceId × DeviceConfig N)) × (t.phase
              ≡ executing s.service.recipes.active_id s.service.recipes.variables l []))
  unfolding begin
  begin_lem s h =
      let (r, active) = active_of_IsValid s.service.recipes h in
      (
        record s {
          slot = true;
          job = none;
          phase =
              executing s.service.recipes.active_id s.service.recipes.variables
                (OrdHashMap.iter_unordered r.devices) [];
        },
        rw (active, opened) refl,
        h,
        refl,
        refl,
        (OrdHashMap.iter_unordered r.devices, refl),
      )

  pub Sound-at : (p : Phase N) (s : Runner N W) → s.phase ≡ p → IsSound s → Sound p s.slot s.job
  Sound-at p s q h = subst (λ p. Sound p s.slot s.job) q h.sound

  pub some_eq : {s t : Runner N W} → some s ≡ some t → s ≡ t
  some_eq h = cc h

  begins-IsSound : (s t : Runner N W) → begin s ≡ some t → IsSound s → IsSound t
  begins-IsSound s t q h =
      let (u, p, v, slot, job, (l, phase)) = begin_lem s h.valid in
      subst IsSound (some_eq (sym p ∙ q))
        (record { valid = v; sound = subst (λ p. Sound p u.slot u.job) (sym phase) (λ x. job) })

  launches-IsSound :
      (s t : Runner N W) (recipe_id : RecipeId) (variables : Variables N) (id : DeviceId)
      (device : DeviceConfig N) (todo : List (DeviceId × DeviceConfig N)) (alive : List DeviceId)
      → s.phase ≡ executing recipe_id variables ((id, device) ∷ todo) alive
      → launch out spawner s recipe_id variables id device todo alive ≡ some t
      → IsSound s
      → IsSound t
  unfolding launch
  launches-IsSound s t recipe_id variables id device todo alive p q h =
      let (u, r, w, (l, phase)) = spawned_lem s recipe_id variables id todo alive _ h.valid in
      subst IsSound (some_eq (sym r ∙ q)) (record {
        valid = w.valid;
        sound =
            subst (λ p. Sound p u.slot u.job) (sym phase)
              (λ x.
                w.job
                ∙ Sound-at (executing recipe_id variables ((id, device) ∷ todo) alive) s p h
                    (sym w.slot ∙ x));
      })

  slot_of_job :
      (slot : Bool) (job : Option RecipeId) (id : RecipeId)
      → job ≡ some id
      → (slot ≡ true → job ≡ none)
      → slot ≡ false
  slot_of_job slot job id j h = elim (Bool-cases slot) [ inl t ↦ absurd (cc (j, h t)) | inr f ↦ f ]

  continues-IsSound :
      (s t : Runner N W) (id : RecipeId)
      → s.phase ≡ idle
      → s.job ≡ some id
      → next_round out spawner s id ≡ some t
      → IsSound s
      → IsSound t
  continues-IsSound s t id p j q h =
      let (u, r, v, phase, slot, job) = next_round_lem s id h.valid in
      subst IsSound (some_eq (sym r ∙ q)) (record {
        valid = v;
        sound =
            subst (λ p. Sound p u.slot u.job) (sym phase)
              (slot ∙ slot_of_job s.slot s.job id j (Sound-at idle s p h), job);
      })

  pub Own-IsSound : {s t : Runner N W} → Own out spawner s t → IsSound s → IsSound t
  Own-IsSound {s} {t} (begins p q) h = begins-IsSound s t q h
  Own-IsSound {s} {t} (launches recipe_id variables id device todo alive p q) h =
      launches-IsSound s t recipe_id variables id device todo alive p q h
  Own-IsSound (ends s recipe_id variables before after id p) h = record {
    valid = h.valid;
    sound = Sound-at (executing recipe_id variables [] (before ++ id ∷ after)) s p h;
  }
  Own-IsSound (finishes s recipe_id variables p) h = record {
    valid = h.valid;
    sound = Sound-at (executing recipe_id variables [] []) s p h;
  }
  Own-IsSound {s} {t} (continues id p j q) h = continues-IsSound s t id p j q h
  Own-IsSound (stops s p j slot) h = record { valid = h.valid; sound = (slot, j) }

  Sound-selected :
      (p : Phase N) (slot : Bool) (job new : Option RecipeId)
      → slot ≡ true
      → Sound p slot job
      → Sound p false new
  Sound-selected starting slot job new q h = absurd (cc (q, h.0))
  Sound-selected stopped slot job new q h = absurd (cc (q, h.0))
  Sound-selected idle slot job new q h = λ x. absurd (cc x)
  Sound-selected (executing id variables todo alive) slot job new q h = λ x. absurd (cc x)

  Sound-shut :
      (p : Phase N) (slot : Bool) (job : Option RecipeId) → Sound p slot job → Sound p false job
  Sound-shut starting slot job h = (refl, h.1)
  Sound-shut stopped slot job h = (refl, h.1)
  Sound-shut idle slot job h = λ x. absurd (cc x)
  Sound-shut (executing id variables todo alive) slot job h = λ x. absurd (cc x)

  pub select-IsSound : (s : Runner N W) (id : RecipeId) → IsSound s → IsSound (select_recipe id s).0
  unfolding select_recipe
  select-IsSound s id h = elim (Bool-cases s.slot) [
    | inl t ↦
        rw (t, select_recipe)
          record {
            valid = h.valid;
            sound = Sound-selected s.phase s.slot s.job (some id) t h.sound;
          }
    | inr f ↦ rw (f, select_recipe) h
  ]

  pub shut_down-IsSound : (s : Runner N W) → IsSound s → IsSound (shut_down s)
  unfolding shut_down
  shut_down-IsSound s h = record {
    valid = h.valid;
    sound = Sound-shut s.phase s.slot s.job h.sound;
  }

  Step-IsSound : {s t : Runner N W} → Step out spawner s t → IsSound s → IsSound t
  Step-IsSound (own p) h = Own-IsSound p h
  Step-IsSound (selects s id) h = select-IsSound s id h
  Step-IsSound (shuts_down s) h = shut_down-IsSound s h

  pub Reach-IsSound : {s t : Runner N W} → Reach out spawner s t → IsSound s → IsSound t
  Reach-IsSound here h = h
  Reach-IsSound (next r p) h = Step-IsSound p (Reach-IsSound r h)

  pub executing_progress :
      (s : Runner N W) (recipe_id : RecipeId) (variables : Variables N)
      (todo : List (DeviceId × DeviceConfig N)) (alive : List DeviceId)
      → s.phase ≡ executing recipe_id variables todo alive
      → IsValid s.service.recipes
      → (t : Runner N W) × Own out spawner s t
  unfolding launch
  executing_progress s recipe_id variables [] [] p h = (_, finishes s recipe_id variables p)
  executing_progress s recipe_id variables [] (id ∷ alive) p h =
      (_, ends s recipe_id variables [] alive id p)
  executing_progress s recipe_id variables ((id, device) ∷ todo) alive p h =
      let (t, q, kept, phase) =
        spawned_lem s recipe_id variables id todo alive
          (spawner.spawn device.device_type
            (record { id = id; variables = variables; params_with_vars = device.params })
            s.service.world)
          h in
      (t, launches recipe_id variables id device todo alive p q)
