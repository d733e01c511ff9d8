-- ===== src/Pipeline/Runner/Steady.antt =====
-- The invariant of a whole run in pipeline/runner.py, kept by every step.
use file_automation.Base.{String, true, false, Option, none, some, ◌≡◌, refl}
use file_automation.Pipeline.Worker.{Flight, Signal}
use file_automation.Pipeline.Runner.{Plan, Engine, Control, expiring, ended}
use file_automation.Pipeline.Runner.Moves.{abort}
use file_automation.Pipeline.Runner.Steps.{
  thread_step, Step, coordinator, thread, cancel_run, interrupted, step, interrupt_at,
}
use file_automation.Pipeline.Runner.Threads.{IsThreaded, worked-IsThreaded, abort-IsThreaded}
use file_automation.Pipeline.Runner.Live.{IsLive, Queued-same, worked-IsLive}
use file_automation.Pipeline.Runner.Consistent.{
  IsWorkable, IsConsistent, IsConsistent-at, coordinate-IsConsistent,
}

module _ {V : Type 0} where
  -- a step that is not the coordinator's leaves it where it stands
  beside-IsConsistent :
      (plan : Plan) (c : Control) (e e' : Engine V)
      → (IsLive plan e → IsLive plan e')
      → (IsThreaded false e → IsThreaded false e')
      → e'.flights ≡ e.flights
      → IsConsistent plan c e
      → IsConsistent plan c e'
  beside-IsConsistent plan ended e e' live over same h = over h
  beside-IsConsistent plan (expiring at xs) e e' live over same (l, d, m) =
      (live l, d, λ x i. rw same (m x i))
  beside-IsConsistent plan _ e e' live over same h = live h

  thread-IsConsistent :
      (plan : Plan) (id : String) (s : Signal V) (o : Option Flight) (e : Engine V)
      → e.threads id ≡ o
      → IsConsistent plan e.control e
      → IsConsistent plan e.control (thread_step id s o e)
  thread-IsConsistent plan id s none e t h = h
  thread-IsConsistent plan id s (some f) e t h =
      beside-IsConsistent plan e.control e _ (worked-IsLive plan id s f e t)
        (worked-IsThreaded id s f e false t) refl h

  thread_control :
      (id : String) (s : Signal V) (o : Option Flight) (e : Engine V)
      → (thread_step id s o e).control ≡ e.control
  thread_control id s none e = refl
  thread_control id s (some f) e = refl

  cancel_run-IsLive :
      (plan : Plan) (e : Engine V) → IsLive plan e → IsLive plan (record e { cancel_token = true })
  cancel_run-IsLive plan e l = record {
    threaded = l.threaded;
    queued = Queued-same e _ refl refl refl refl l.queued;
    unstarted = l.unstarted;
    listed = l.listed;
    flights_distinct = l.flights_distinct;
  }

  abort-IsConsistent :
      (plan : Plan) (text : String) (e : Engine V)
      → IsLive plan e
      → IsConsistent plan (abort plan text e).control (abort plan text e)
  unfolding abort
  abort-IsConsistent plan text e l = abort-IsThreaded plan text e l.listed l.threaded

  interrupt-IsConsistent :
      (plan : Plan) (text : String) (c : Control) (e : Engine V)
      → e.control ≡ c
      → IsConsistent plan c e
      → IsConsistent plan (interrupt_at plan text c e).control (interrupt_at plan text c e)
  unfolding interrupt_at
  interrupt-IsConsistent plan text ended e q h = rw q h
  interrupt-IsConsistent plan text (expiring at xs) e q (l, d, m) = abort-IsConsistent plan text e l
  interrupt-IsConsistent plan text _ e q l = abort-IsConsistent plan text e l

  -- Every step of a run keeps it in order, whoever makes it.
  pub step-IsConsistent :
      (plan : Plan) (s : Step V) (e : Engine V)
      → IsWorkable plan
      → IsConsistent plan e.control e
      → IsConsistent plan (step plan s e).control (step plan s e)
  unfolding step
  step-IsConsistent plan (coordinator world now) e w l =
      coordinate-IsConsistent plan world now e.control e refl w l
  step-IsConsistent plan (thread id s) e w l =
      IsConsistent-at plan e.control _ _ (thread_control id s (e.threads id) e)
        (thread-IsConsistent plan id s (e.threads id) e refl l)
  step-IsConsistent plan cancel_run e w l =
      beside-IsConsistent plan e.control e _ (cancel_run-IsLive plan e) (λ t. t) refl l
  step-IsConsistent plan (interrupted text) e w l =
      interrupt-IsConsistent plan text e.control e refl l
