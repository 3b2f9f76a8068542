-- ===== src/Actor/Answers.antt =====
-- A device answers each message once, and ends.
use mathlib.Core.List.{Perm, perm_middle}
use mathlib.Core.List.Perm
use pilatus.Base.{
  ℕ, ◌≡◌, refl, ◌∙◌, ap, sym, subst, inl, inr, ◌⊎◌, Option, none, some, List, [], ◌∷◌, ◌++◌, map,
  nat_eq, length, ◌+◌, ◌*◌, ◌≤◌, arith, length-append, append-nil,
}
use pilatus.HashMap
use pilatus.HashMap.{HashMap}
use pilatus.Actor.Defs.{ActorDevice}
use pilatus.Actor.Execute.{
  HandlerResult, done, step2, Response, sent, canceled, BoxMessage, Execution, handle_as_result,
  handled, task_ended, start, IsFinished, receive_with, receive, Step, received, ended, Run, here,
  next,
}

module _ {R : Type 0} where
  abbrev pub result_of : HandlerResult R → R
  result_of (done r) = r
  result_of (step2 r) = r

  abbrev sending : ℕ × R → ℕ × Response R
  sending (channel, r) = (channel, sent r)

  moved :
      (x : ℕ × Response R) (as' ps qs : List (ℕ × Response R))
      → Perm (as' ++ (ps ++ x ∷ qs)) (x ∷ (as' ++ (ps ++ qs)))
  moved x as' ps qs =
      Perm.trans (Perm.append_left as' (perm_middle ps qs)) (perm_middle as' (ps ++ qs))

  ended_task :
      (t : ℕ × R) (before after : List (ℕ × R)) (qs : List (ℕ × Response R))
      → Perm
          (map sending (before ++ t ∷ after) ++ qs)
          (sending t ∷ (map sending (before ++ after) ++ qs))
  ended_task t [] after qs = Perm.rfl
  ended_task t (b ∷ before) after qs =
      Perm.trans (Perm.cons (sending b) (ended_task t before after qs))
        (Perm.swap (sending t) (sending b) (map sending (before ++ after) ++ qs))

module _ {S M R : Type 0} where
  abbrev pub weight : Execution S M R → ℕ
  weight x = 2 * length x.receiver + length x.pending_tasks

  weight-handle_as_result :
      (channel : ℕ) (r : HandlerResult R) (x : Execution S M R)
      → weight (handle_as_result channel r x) ≤ weight x + 1
  weight-handle_as_result channel (done r) x = omega arith
  weight-handle_as_result channel (step2 r) x = omega arith

module _ {S M R H : Type 0} (strategy : H → S → M → S × HandlerResult R) where
  -- The reference: the handlers one after the other, each with its result.
  abbrev pub handle : Option H → S → M → S × Response R
  handle none s m = (s, canceled)
  handle (some h) s m = ((strategy h s m).0, sent (result_of (strategy h s m).1))

  abbrev pub sequential : ActorDevice H → List (BoxMessage M) → S → S × List (ℕ × Response R)
  sequential device [] s = (s, [])
  sequential device (m ∷ rest) s =
      let (s', response) = handle (HashMap.get m.type_id device.handlers) s m.msg in
      let (last, responses) = sequential device rest s' in
      (last, (m.response_channel, response) ∷ responses)

  -- The responses that were sent, then those that the tasks and the messages will have.
  abbrev outcome : ActorDevice H → Execution S M R → List (ℕ × Response R)
  outcome device x =
      x.responses ++ (map sending x.pending_tasks ++ (sequential device x.receiver x.state).1)

  abbrev final : ActorDevice H → Execution S M R → S
  final device x = (sequential device x.receiver x.state).0

  -- Two executions that come to the same end.
  abbrev SameEnd : ActorDevice H → Execution S M R → Execution S M R → Type 0
  SameEnd device x y =
      (final device x ≡ final device y) × Perm (outcome device x) (outcome device y)

  received_result :
      (device : ActorDevice H) (channel : ℕ) (s : S) (r : HandlerResult R) (x : Execution S M R)
      → Perm
          (x.responses
            ++ (map sending x.pending_tasks
                ++ (channel, sent (result_of r)) ∷ (sequential device x.receiver s).1))
          (outcome device (handled channel (s, r) x))
  received_result device channel s (done r) x =
      moved (channel, sent r) x.responses (map sending x.pending_tasks) _
  received_result device channel s (step2 r) x =
      Perm.append_left x.responses (perm_middle (map sending x.pending_tasks) _)

  final-handled :
      (device : ActorDevice H) (channel : ℕ) (s : S) (r : HandlerResult R) (x : Execution S M R)
      → (sequential device x.receiver s).0 ≡ final device (handled channel (s, r) x)
  final-handled device channel s (done r) x = refl
  final-handled device channel s (step2 r) x = refl

  receive_with-SameEnd :
      (device : ActorDevice H) (o : Option H) (m : BoxMessage M) (rest : List (BoxMessage M))
      (x : Execution S M R)
      → HashMap.get m.type_id device.handlers ≡ o
      → SameEnd device
          (record x { receiver = m ∷ rest })
          (receive_with strategy o m (record x { receiver = rest }))
  receive_with-SameEnd device none m rest x e =
      rw e (refl, moved (m.response_channel, canceled) x.responses (map sending x.pending_tasks) _)
  receive_with-SameEnd device (some h) m rest x e =
      let (s, r) = strategy h x.state m.msg in
      let y : Execution S M R = record x { receiver = rest } in
      rw e (
        final-handled device m.response_channel s r y,
        received_result device m.response_channel s r y,
      )

  Step-SameEnd :
      (device : ActorDevice H) {x y : Execution S M R}
      → Step strategy device x y
      → SameEnd device x y
  unfolding receive
  Step-SameEnd device {x = x} (received m rest e) =
      subst
        (λ q.
          SameEnd device (record x { receiver = q })
            (receive strategy device m (record x { receiver = rest })))
        (sym e) (receive_with-SameEnd device (HashMap.get m.type_id device.handlers) m rest x refl)
  Step-SameEnd device {x = x} (ended before task after e) =
      subst
        (λ ts.
          SameEnd device (record x { pending_tasks = ts }) (task_ended task (before ++ after) x))
        (sym e)
        (
          refl,
          Perm.trans
              (Perm.append_left x.responses
                (ended_task task before after (sequential device x.receiver x.state).1))
              (perm_middle x.responses _),
        )

  Run-SameEnd :
      (device : ActorDevice H) {n : ℕ} {x y : Execution S M R}
      → Run strategy device n x y
      → SameEnd device x y
  Run-SameEnd device here = (refl, Perm.rfl)
  Run-SameEnd device (next step run) =
      let (e, p) = Step-SameEnd device step in
      let (e', p') = Run-SameEnd device run in (e ∙ e', Perm.trans p p')

  weight-receive_with :
      (o : Option H) (m : BoxMessage M) (x : Execution S M R)
      → weight (receive_with strategy o m x) ≤ weight x + 1
  weight-receive_with none m x = omega arith
  weight-receive_with (some h) m x =
      let (s, r) = strategy h x.state m.msg in
      weight-handle_as_result m.response_channel r (record x { state = s })

  weight-Step :
      (device : ActorDevice H) {x y : Execution S M R}
      → Step strategy device x y
      → weight y + 1 ≤ weight x
  unfolding receive
  weight-Step device {x = x} (received m rest e) =
      let y : Execution S M R = record x { receiver = rest } in
      let o = HashMap.get m.type_id device.handlers in
      omega (arith, weight-receive_with o m y, ap length e)
  weight-Step device {x = x} (ended before task after e) =
      omega (arith, ap length e, length-append before (task ∷ after), length-append before after)

  weight-Run :
      (device : ActorDevice H) {n : ℕ} {x y : Execution S M R}
      → Run strategy device n x y
      → n + weight y ≤ weight x
  weight-Run device here = omega arith
  weight-Run device (next step run) = omega (arith, weight-Step device step, weight-Run device run)

  -- An execution is finished or has a step.
  progress :
      (device : ActorDevice H) (x : Execution S M R)
      → IsFinished x ⊎ ((y : Execution S M R) × Step strategy device x y)
  progress device x = go x.receiver x.pending_tasks refl refl
    where
      go :
          (q : List (BoxMessage M)) (ts : List (ℕ × R))
          → x.receiver ≡ q
          → x.pending_tasks ≡ ts
          → IsFinished x ⊎ ((y : Execution S M R) × Step strategy device x y)
      go (m ∷ rest) ts e f = inr (_, received m rest e)
      go [] (t ∷ ts) e f = inr (_, ended [] t ts f)
      go [] [] e f = inl (e, f)

  finished_outcome :
      (device : ActorDevice H) (x : Execution S M R)
      → IsFinished x
      → (outcome device x ≡ x.responses) × (final device x ≡ x.state)
  finished_outcome device x (e, f) = (
    ap (λ ts. x.responses ++ (map sending ts ++ (sequential device x.receiver x.state).1)) f
        ∙ ap (λ q. x.responses ++ (sequential device q x.state).1) e
        ∙ append-nil x.responses,
    ap (λ q. (sequential device q x.state).0) e,
  )

  -- In whatever order the handlers and the tasks run that they leave: once the messages are handled
  -- and the tasks have ended, the state is that of the handlers one after the other, and the
  -- responses are those of the handlers one after the other, in some order. A message without a
  -- handler has its response canceled.
  pub execute_lem :
      {n : ℕ} {x : Execution S M R} (device : ActorDevice H) (messages : List (BoxMessage M))
      (s : S)
      → Run strategy device n (start messages s) x
      → IsFinished x
      → (x.state ≡ (sequential device messages s).0)
        × Perm x.responses (sequential device messages s).1
  execute_lem {x = x} device messages s run finished =
      let (e, p) = Run-SameEnd device run in
      let (all_sent, last) = finished_outcome device x finished in
      (sym (e ∙ last), Perm.symm (subst (Perm (sequential device messages s).1) all_sent p))

  -- With tasks that end and a queue that gets no more messages, an execution has at most two steps for
  -- each message, and as long as it is not finished it has a next step.
  pub execute_ends :
      {n : ℕ} {x : Execution S M R} (device : ActorDevice H) (messages : List (BoxMessage M))
      (s : S)
      → Run strategy device n (start messages s) x
      → (n ≤ 2 * length messages)
        × (IsFinished x ⊎ ((y : Execution S M R) × Step strategy device x y))
  execute_ends {x = x} device messages s run =
      (omega (arith, weight-Run device run), progress device x)
