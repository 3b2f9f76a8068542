-- ===== src/Runner/Ends.antt =====
-- How a round ends: a selection is activated and answered, and a shutdown stops the runner.
use pilatus.Base.{◌≡◌, refl, Bool, true, false, Option, none, some, ◌∷◌, PartialEq, nat_eq, list_eq}
use pilatus.Base.Result.{Result}
use pilatus.Name.{RecipeId}
use pilatus.Recipe.{TransactionError}
use pilatus.Service.{Outside, State}
use pilatus.Runner.Defs.{
  Spawner, Phase, starting, idle, stopped, executing, Runner, answered, activate_recipe_with,
  shut_down,
}
use pilatus.Runner.Steps.{Own, begins, launches, ends, finishes, continues, stops, Reach}
use pilatus.Runner.Progress.{Sound, IsSound, Reach-IsSound}
use pilatus.Runner.Rounds.{Answers, Closing, Eventually, now, later, round_ends}

module _ {N W : Type 0} where
  abbrev pub HasStopped : Runner N W → Type 0
  HasStopped s = s.phase ≡ stopped

module _ {N W : Type 0} ⦃e : PartialEq N⦄ (out : Outside N W) (spawner : Spawner N W) where
  -- The selected recipe has just been activated, and the selection was answered with the result.
  pub record Activated (id : RecipeId) (answers : Answers) (t : Runner N W) : Type 0 where
    pub before : State N W
    pub result : Result TransactionError (Unit {0})
    pub activated : activate_recipe_with out spawner id before ≡ some (t.service, result)
    pub answered : t.answers ≡ (id, result) ∷ answers
    pub phase : t.phase ≡ starting

  job_of_open :
      (p : Phase N) (slot : Bool) (job : Option RecipeId)
      → slot ≡ true
      → Sound p slot job
      → job ≡ none
  job_of_open starting slot job ready sound = sound.1
  job_of_open stopped slot job ready sound = sound.1
  job_of_open idle slot job ready sound = sound ready
  job_of_open (executing recipe_id variables todo alive) slot job ready sound = sound ready

  idle_stops :
      {s u : Runner N W} → Own out spawner s u → s.phase ≡ idle → s.job ≡ none → HasStopped u
  idle_stops (begins p q) i j = absurd (cc (p, i))
  idle_stops (launches recipe_id variables id device todo alive p q) i j = absurd (cc (p, i))
  idle_stops (ends s recipe_id variables before after id p) i j = absurd (cc (p, i))
  idle_stops (finishes s recipe_id variables p) i j = absurd (cc (p, i))
  idle_stops (continues id p some_job q) i j = absurd (cc (j, some_job))
  idle_stops (stops s p none_job slot) i j = refl

  closed_stops :
      (answers : Answers) (s : Runner N W)
      → s.phase ≡ idle
      → Closing none answers s
      → Eventually out spawner HasStopped s
  closed_stops answers s p c =
      later (record s { phase = stopped }) (stops s p c.job_of c.slot)
        (λ u own. now (idle_stops own p c.job_of))

  -- Take any state that the runner reaches from a sound one (such as the start with valid recipes),
  -- whatever was selected and shut down before, in which a selection is accepted. If the system
  -- then shuts down and no recipe is selected, the runner stops, in whatever order the devices end
  -- and whatever they and the file system answer. No step until then panics or is missing.
  pub shut_down-HasStopped :
      (start s : Runner N W)
      → IsSound start
      → Reach out spawner start s
      → s.slot ≡ true
      → Eventually out spawner HasStopped (shut_down s)
  unfolding shut_down
  shut_down-HasStopped start s sound reach ready =
      let h = Reach-IsSound out spawner reach sound in
      round_ends out spawner none s.answers HasStopped (closed_stops s.answers) s.phase
        (record s { slot = false }) s.slot s.job refl ready h.sound
        (record {
          valid = h.valid;
          slot = refl;
          job_of = job_of_open s.phase s.slot s.job ready h.sound;
          answers_of = refl;
        })
