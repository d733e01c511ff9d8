-- ===== src/Pipeline/Runner/Interrupted.antt =====
-- pipeline/runner.py: what an exception that interrupts the coordinator leaves behind.
use file_automation.Base.{
  String, true, false, Option, none, some, List, [], ◌∷◌, ◌++◌, elem, ◌≡◌, refl, arith, sym, ap,
  ◌∙◌,
}
use file_automation.Pipeline.Model.{RunStatus, TaskRun, cancelled, is_final}
use file_automation.Pipeline.Worker.{Flight, Signal}
use file_automation.Pipeline.Runner.{Plan, Engine, ids, aborted, Control, ended}
use file_automation.Pipeline.Runner.Moves.{abort}
use file_automation.Pipeline.Runner.Steps.{
  Step, coordinator, thread, cancel_run, interrupted, thread_step, interrupt_at, step, run, prepare,
}
use file_automation.Pipeline.Runner.Width.{is_ended}
use file_automation.Pipeline.Runner.Consistent.{IsWorkable}
use file_automation.Pipeline.Runner.Final.{IsFresh, run-final}

module _ {V : Type 0} where
  -- a run that an exception has ended, where `earlier` is what it was before
  pub record IsAborted (plan : Plan) (text : String) (earlier e : Engine V) : Type 0 where
    pub control : e.control ≡ ended
    pub status : e.status ≡ RunStatus.failed
    pub error : e.error ≡ some (aborted text)
    pub unfinished :
        (id : String)
        → elem id (ids plan.tasks) ≡ true
        → is_final (earlier.states id).status ≡ false
        → e.states id ≡ record (earlier.states id) { status = cancelled }
    pub finished :
        (id : String) → is_final (earlier.states id).status ≡ true → e.states id ≡ earlier.states id

  interrupt_at-IsAborted :
      (plan : Plan) (text : String) (c : Control) (e : Engine V)
      → is_ended c ≡ false
      → IsAborted plan text e (interrupt_at plan text c e)
  unfolding interrupt_at abort
  interrupt_at-IsAborted plan text ended e n = absurd (ground arith)
  interrupt_at-IsAborted plan text _ e n = record {
    control = refl;
    status = refl;
    error = refl;
    unfinished = λ id m f. rw (m, f) refl;
    finished = λ id f. ground (arith, f);
  }

  -- the two engines agree in what the end of a run has set
  record SameEnd (e f : Engine V) : Type 0 where
    control : f.control ≡ e.control
    status : f.status ≡ e.status
    error : f.error ≡ e.error

  thread_step-SameEnd :
      (id : String) (s : Signal V) (o : Option Flight) (e : Engine V)
      → SameEnd e (thread_step id s o e)
  thread_step-SameEnd id s none e = record { control = refl; status = refl; error = refl }
  thread_step-SameEnd id s (some f) e = record { control = refl; status = refl; error = refl }

  step-SameEnd :
      (plan : Plan) (s : Step V) (e : Engine V) → e.control ≡ ended → SameEnd e (step plan s e)
  unfolding step interrupt_at
  step-SameEnd plan (coordinator world now) e h =
      rw h (record { control = refl; status = refl; error = refl })
  step-SameEnd plan (thread id s) e h = thread_step-SameEnd id s (e.threads id) e
  step-SameEnd plan cancel_run e h = record { control = refl; status = refl; error = refl }
  step-SameEnd plan (interrupted text) e h =
      rw h (record { control = refl; status = refl; error = refl })

  run-SameEnd :
      (plan : Plan) (ss : List (Step V)) (e : Engine V)
      → e.control ≡ ended
      → SameEnd e (run plan ss e)
  unfolding run
  run-SameEnd plan [] e h = record { control = refl; status = refl; error = refl }
  run-SameEnd plan (s ∷ ss) e h =
      let once = step-SameEnd plan s e h in
      let rest = run-SameEnd plan ss (step plan s e) (once.control ∙ h) in
      record {
        control = rest.control ∙ once.control;
        status = rest.status ∙ once.status;
        error = rest.error ∙ once.error;
      }

  run-append :
      (plan : Plan) (before after : List (Step V)) (e : Engine V)
      → run plan (before ++ after) e ≡ run plan after (run plan before e)
  unfolding run
  run-append plan [] after e = refl
  run-append plan (s ∷ before) after e = run-append plan before after (step plan s e)

  run-interrupted :
      (plan : Plan) (text : String) (before : List (Step V)) (e : Engine V)
      → run plan (before ++ interrupted text ∷ []) e
        ≡ interrupt_at plan text (run plan before e).control (run plan before e)
  unfolding run step
  run-interrupted plan text [] e = refl
  run-interrupted plan text (s ∷ before) e = run-interrupted plan text before (step plan s e)

  run-after_interrupted :
      (plan : Plan) (text : String) (before after : List (Step V)) (e : Engine V)
      → run plan (before ++ interrupted text ∷ after) e
        ≡ run plan after (run plan (before ++ interrupted text ∷ []) e)
  unfolding run step
  run-after_interrupted plan text before after e =
      run-append plan before (interrupted text ∷ after) e
      ∙ ap (run plan after) (sym (run-interrupted plan text before e))

  -- When an exception interrupts a coordinator that has not ended its run, between two of its steps,
  -- the run has ended as failed with the exception's text. A task of the plan that was not final is
  -- cancelled and its record is otherwise what it was; a task that was final keeps its record. All of
  -- this stays so whatever the threads, the caller and the coordinator do afterwards, in whatever
  -- order. The tasks of the plan have different IDs and policies that allow an attempt, and the run
  -- starts from records that are final or untried.
  pub run-IsAborted :
      (plan : Plan) (states : String → TaskRun V) (before after : List (Step V)) (text : String)
      → IsWorkable plan
      → IsFresh states
      → is_ended (run plan before (prepare plan states)).control ≡ false
      → IsAborted plan text
          (run plan before (prepare plan states))
          (run plan (before ++ interrupted text ∷ after) (prepare plan states))
  run-IsAborted plan states before after text w fresh n =
      let e = run plan before (prepare plan states) in
      let through = before ++ interrupted text ∷ [] in
      let a : IsAborted plan text e (run plan through (prepare plan states)) =
        rw (run-interrupted plan text before (prepare plan states))
          (interrupt_at-IsAborted plan text e.control e n) in
      let same = run-SameEnd plan after (run plan through (prepare plan states)) a.control in
      rw (run-after_interrupted plan text before after (prepare plan states)) (record {
        control = same.control ∙ a.control;
        status = same.status ∙ a.status;
        error = same.error ∙ a.error;
        unfinished = λ id m f.
            run-final plan states through after id w fresh (rw (a.unfinished id m f) refl)
            ∙ a.unfinished id m f;
        finished = λ id f.
            run-final plan states through after id w fresh (rw (a.finished id f) f)
            ∙ a.finished id f;
      })
