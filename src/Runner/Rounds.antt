-- ===== src/Runner/Rounds.antt =====
-- A round that takes no selection any more ends, in whatever order its devices do.
use pilatus.Base.{
  ℕ, zero, suc, ◌≡◌, ◌⊎◌, inl, inr, refl, sym, subst, ◌∙◌, Bool, true, false, Option, some, List,
  [], ◌∷◌, ◌++◌, length, PartialEq, nat_eq, list_eq, arith,
}
use pilatus.Base.Result.{Result}
use pilatus.Name.{RecipeId}
use pilatus.Variables.{Variables}
use pilatus.Recipe.{DeviceId, DeviceConfig, TransactionError}
use pilatus.Recipe.Active.{IsValid}
use pilatus.Service.{Outside}
use pilatus.Runner.Defs.{Spawner, Phase, starting, idle, stopped, executing, Runner, launch}
use pilatus.Runner.Steps.{Own, begins, launches, ends, finishes, continues, stops}
use pilatus.Runner.Progress.{Sound, spawned_lem, some_eq, executing_progress}

abbrev pub Answers : Type 0
Answers = List (RecipeId × Result TransactionError (Unit {0}))

module _ {N W : Type 0} where
  -- A state whose round no selection can enter any more.
  pub record Closing (job : Option RecipeId) (answers : Answers) (s : Runner N W) : Type 0 where
    pub valid : IsValid s.service.recipes
    pub slot : s.slot ≡ false
    pub job_of : s.job ≡ job
    pub answers_of : s.answers ≡ answers

  with_phase-Closing :
      (job : Option RecipeId) (answers : Answers) (s : Runner N W) (p : Phase N)
      → Closing job answers s
      → Closing job answers (record s { phase = p })
  with_phase-Closing job answers s p c = record {
    valid = c.valid;
    slot = c.slot;
    job_of = c.job_of;
    answers_of = c.answers_of;
  }

module _ {N W : Type 0} ⦃e : PartialEq N⦄ (out : Outside N W) (spawner : Spawner N W) where
  -- Whatever the runner does by itself, it reaches a state with `P`: it has a next step until then,
  -- and every order in which its devices end leads there.
  pub data Eventually (P : Runner N W → Type 0) : Runner N W → Type 0 where
    now : {s : Runner N W} → P s → Eventually P s
    later :
        {s : Runner N W} (t : Runner N W)
        → Own out spawner s t
        → ((u : Runner N W) → Own out spawner s u → Eventually P u)
        → Eventually P s

  module _ (job : Option RecipeId) (answers : Answers) where
    -- What a step of a round leads to, by the phase before it.
    abbrev After : Phase N → Runner N W → Type 0
    After starting t = Unit
    After idle t = Unit
    After stopped t = Unit
    After (executing recipe_id variables [] alive) t =
        Closing job answers t
        × ((t.phase ≡ idle)
            ⊎ ((l : List DeviceId) × (t.phase ≡ executing recipe_id variables [] l)
                × (length alive ≡ suc (length l))))
    After (executing recipe_id variables (d ∷ todo) alive) t =
        Closing job answers t
        × ((l : List DeviceId) × (t.phase ≡ executing recipe_id variables todo l))

    one_less :
        (before after : List DeviceId) (id : DeviceId)
        → length (before ++ id ∷ after) ≡ suc (length (before ++ after))
    one_less [] after id = refl
    one_less (x ∷ before) after id = rw (one_less before after id) refl

    launched-After :
        (s t : Runner N W) (recipe_id : RecipeId) (variables : Variables N) (id : DeviceId)
        (device : DeviceConfig N) (todo : List (DeviceId × DeviceConfig N)) (alive : List DeviceId)
        → launch out spawner s recipe_id variables id device todo alive ≡ some t
        → Closing job answers s
        → After (executing recipe_id variables ((id, device) ∷ todo) alive) t
    unfolding launch
    launched-After s t recipe_id variables id device todo alive q c =
        let (u, r, w, phase) =
          spawned_lem out spawner s recipe_id variables id todo alive _ c.valid in
        subst (After (executing recipe_id variables ((id, device) ∷ todo) alive))
          (some_eq out spawner (sym r ∙ q))
          (
            record {
              valid = w.valid;
              slot = w.slot ∙ c.slot;
              job_of = w.job ∙ c.job_of;
              answers_of = w.answers ∙ c.answers_of;
            },
            phase,
          )

    Own-After : {s t : Runner N W} → Own out spawner s t → Closing job answers s → After s.phase t
    Own-After {s} {t} (begins p q) c = subst (λ p. After p t) (sym p) tt
    Own-After {s} {t} (launches recipe_id variables id device todo alive p q) c =
        subst (λ p. After p t) (sym p)
          (launched-After s t recipe_id variables id device todo alive q c)
    Own-After (ends s recipe_id variables before after id p) c =
        let u = record s { phase = executing recipe_id variables [] (before ++ after) } in
        subst (λ p. After p u) (sym p)
          (
            with_phase-Closing job answers s _ c,
            inr (before ++ after, refl, one_less before after id),
          )
    Own-After (finishes s recipe_id variables p) c =
        let u = record s { phase = idle } in
        subst (λ p. After p u) (sym p) (with_phase-Closing job answers s idle c, inl refl)
    Own-After {s} {t} (continues id p j q) c = subst (λ p. After p t) (sym p) tt
    Own-After (stops s p j slot) c = subst (λ p. After p (record s { phase = stopped })) (sym p) tt

    module _ (P : Runner N W → Type 0)
        (at_idle : (s : Runner N W) → s.phase ≡ idle → Closing job answers s → Eventually P s)
        (recipe_id : RecipeId) (variables : Variables N) where
      ended :
          (alive : List DeviceId) (u : Runner N W)
          → After (executing recipe_id variables [] alive) u
          → ((l : List DeviceId)
              → length alive ≡ suc (length l)
              → u.phase ≡ executing recipe_id variables [] l
              → Closing job answers u
              → Eventually P u)
          → Eventually P u
      ended alive u (c, inl q) rest = at_idle u q c
      ended alive u (c, inr (l, q, size)) rest = rest l size q c

      -- The devices end, in whatever order.
      devices_end :
          (n : ℕ) (alive : List DeviceId) (s : Runner N W)
          → length alive ≡ n
          → s.phase ≡ executing recipe_id variables [] alive
          → Closing job answers s
          → Eventually P s
      devices_end zero alive s size p c =
          let (t, step) = executing_progress out spawner s recipe_id variables [] alive p c.valid in
          later t step (λ u own.
            ended alive u (subst (λ p. After p u) p (Own-After own c))
              (λ l less q c. absurd (omega (arith, size, less))))
      devices_end (suc n) alive s size p c =
          let (t, step) = executing_progress out spawner s recipe_id variables [] alive p c.valid in
          later t step (λ u own.
            ended alive u (subst (λ p. After p u) p (Own-After own c))
              (λ l less q c. devices_end n l u (omega (arith, size, less)) q c))

      devices_run :
          (todo : List (DeviceId × DeviceConfig N)) (alive : List DeviceId) (s : Runner N W)
          → s.phase ≡ executing recipe_id variables todo alive
          → Closing job answers s
          → Eventually P s
      devices_run [] alive s p c = devices_end (length alive) alive s refl p c
      devices_run (d ∷ todo) alive s p c =
          let (t, step) =
            executing_progress out spawner s recipe_id variables (d ∷ todo) alive p c.valid in
          later t step (λ u own.
            let (c', (l, q)) = subst (λ p. After p u) p (Own-After own c) in
            devices_run todo l u q c')

    module _ (P : Runner N W → Type 0)
        (at_idle : (s : Runner N W) → s.phase ≡ idle → Closing job answers s → Eventually P s) where
      -- A round that a selection could enter ends.
      pub round_ends :
          (p : Phase N) (s : Runner N W) (slot : Bool) (previous : Option RecipeId)
          → s.phase ≡ p
          → slot ≡ true
          → Sound p slot previous
          → Closing job answers s
          → Eventually P s
      round_ends starting s slot previous p ready sound c = absurd (cc (ready, sound.0))
      round_ends stopped s slot previous p ready sound c = absurd (cc (ready, sound.0))
      round_ends idle s slot previous p ready sound c = at_idle s p c
      round_ends (executing recipe_id variables todo alive) s slot previous p ready sound c =
          devices_run P at_idle recipe_id variables todo alive s p c
