-- ===== src/Actor/Execute.antt =====
-- pilatus/src/device/system/{mod,handler_result}.rs: a device that handles its messages. What a
-- handler does is a parameter; `State` is the device's own state and `R` the type of results.
use pilatus.Base.{ℕ, ◌≡◌, Option, none, some, List, [], ◌∷◌, ◌++◌, nat_eq, ◌+◌}
use pilatus.HashMap
use pilatus.HashMap.{HashMap}
use pilatus.Actor.Defs.{TypeId, ActorDevice}

-- What a handler leaves: a result, or (as `Step2` does) a task that will have it.
pub data HandlerResult (R : Type 0) : Type 0 where
  done : R → HandlerResult R
  step2 : R → HandlerResult R

-- What the asking side receives: a result, or that the channel for it was dropped.
pub data Response (R : Type 0) : Type 0 where
  sent : R → Response R
  canceled : Response R

-- `MessageWithResponse` in its box; a number stands for the channel of the response.
pub record BoxMessage (M : Type 0) : Type 0 where
  pub type_id : TypeId
  pub msg : M
  pub response_channel : ℕ

-- A device that runs: the messages in its channel, its state, the pending tasks, and the responses
-- so far, the latest first.
pub record Execution (S M R : Type 0) : Type 0 where
  pub receiver : List (BoxMessage M)
  pub state : S
  pub pending_tasks : List (ℕ × R)
  pub responses : List (ℕ × Response R)

module _ {S M R : Type 0} where
  abbrev pub handle_as_result : ℕ → HandlerResult R → Execution S M R → Execution S M R
  handle_as_result channel (done r) x = record x { responses = (channel, sent r) ∷ x.responses }
  handle_as_result channel (step2 r) x = record x { pending_tasks = (channel, r) ∷ x.pending_tasks }

  abbrev pub handled : ℕ → S × HandlerResult R → Execution S M R → Execution S M R
  handled channel (s, r) x = handle_as_result channel r (record x { state = s })

  -- A task that ends sends its result.
  abbrev pub task_ended : ℕ × R → List (ℕ × R) → Execution S M R → Execution S M R
  task_ended (channel, r) rest x = record x {
    pending_tasks = rest;
    responses = (channel, sent r) ∷ x.responses;
  }

  abbrev pub start : List (BoxMessage M) → S → Execution S M R
  start messages s = record { receiver = messages; state = s; pending_tasks = []; responses = [] }

  -- Both loops have ended.
  abbrev pub IsFinished : Execution S M R → Type 0
  IsFinished x = (x.receiver ≡ []) × (x.pending_tasks ≡ [])

  module _ {H : Type 0} (strategy : H → S → M → S × HandlerResult R) where
    abbrev pub receive_with : Option H → BoxMessage M → Execution S M R → Execution S M R
    receive_with none m x = record x { responses = (m.response_channel, canceled) ∷ x.responses }
    receive_with (some h) m x = handled m.response_channel (strategy h x.state m.msg) x

    -- The body of the loop over the messages. A message without a handler is dropped, with its
    -- channel.
    unfoldable pub receive : ActorDevice H → BoxMessage M → Execution S M R → Execution S M R
    receive device m x = receive_with (HashMap.get m.type_id device.handlers) m x

    -- `execute_with_strategy`: the messages in the order of the channel; a pending task ends at any
    -- time.
    pub data Step (device : ActorDevice H) : Execution S M R → Execution S M R → Type 0 where
      received :
          {x : Execution S M R} (m : BoxMessage M) (rest : List (BoxMessage M))
          → x.receiver ≡ m ∷ rest
          → Step device x (receive device m (record x { receiver = rest }))
      ended :
          {x : Execution S M R} (before : List (ℕ × R)) (task : ℕ × R) (after : List (ℕ × R))
          → x.pending_tasks ≡ before ++ task ∷ after
          → Step device x (task_ended task (before ++ after) x)

    -- A run with its number of steps.
    pub data Run (device : ActorDevice H) : ℕ → Execution S M R → Execution S M R → Type 0 where
      here : {x : Execution S M R} → Run device 0 x x
      next :
          {n : ℕ} {x y z : Execution S M R}
          → Step device x y
          → Run device n y z
          → Run device (n + 1) x z
