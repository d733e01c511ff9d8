-- ===== src/Pipeline/Runner/Width.antt =====
-- pipeline/runner.py: how many tasks are in the air.
use file_automation.Base.{
  ℕ, ◌≤◌, String, str_eq, Bool, true, false, not, ◌&&◌, Option, none, some, List, [], ◌∷◌, elem,
  elem_self, filter, ◌≡◌, refl, arith, inl, inr, Bool-cases, All, ◌<◌, length-append, any, ltb,
  length,
}
use file_automation.Pipeline.Model.{TaskRun, Task}
use file_automation.Pipeline.Worker.{Flight, Signal}
use file_automation.Pipeline.Runner.{
  Plan, World, Engine, Verdict, ids, is_cancelled, task_named, Control, looping, observing,
  admitting, launching, awaiting, expiring, concluding, ended,
}
use file_automation.Pipeline.Runner.Moves.{
  release, launch_one, observe_cancel, abort, take_landing, landed, expired, is_due, admitted,
  admit_one, conclude, concluded, expire_one,
}
use file_automation.Pipeline.Runner.Steps.{
  thread_step, Step, coordinator, thread, cancel_run, interrupted, step, run, coordinate,
  interrupt_at, admit_next, admit_round, launch_next, launch_round, prepare,
}
use file_automation.Pipeline.Runner.Live.{release_kept}

pub length-filter : (p : String → Bool) (xs : List String) → length (filter p xs) ≤ length xs
length-filter p [] = ground arith
length-filter p (x ∷ xs) = elim (Bool-cases (p x)) [
  | inl keep ↦ ground (arith, length-filter p xs)
  | inr drop ↦ ground (arith, length-filter p xs)
]

pub All-ids :
    (P : String → Type 0) (xs : List String) → ((x : String) → elem x xs ≡ true → P x) → All P xs
All-ids P [] h = tt
All-ids P (x ∷ xs) h = (h x (elem_self x xs), All-ids P xs (λ y m. h y (ground arith)))

abbrev pub is_ended : Control → Bool
is_ended ended = true
is_ended _ = false

module _ {V : Type 0} where
  abbrev pub IsWithin : Plan → Engine V → Type 0
  IsWithin plan e = length e.flights ≤ plan.max_workers

  pub release-IsWithin :
      (plan : Plan) (id : String) (e : Engine V)
      → IsWithin plan e
      → IsWithin plan (release plan id e)
  release-IsWithin plan id e h = rw (release_kept plan id e).1 h

  pub admitted-IsWithin :
      (plan : Plan) (id : String) (r : TaskRun V) (o : Option Verdict) (e : Engine V)
      → IsWithin plan e
      → IsWithin plan (admitted plan id (r, o) e)
  admitted-IsWithin plan id r none e h = h
  admitted-IsWithin plan id r (some v) e h = release-IsWithin plan id _ h

  pub admit_next-IsWithin :
      (plan : Plan) (world : World V) (id : String) (rest : List String) (o : Option Task)
      (e : Engine V)
      → IsWithin plan e
      → IsWithin plan (admit_next plan world id rest o e)
  unfolding admit_one
  admit_next-IsWithin plan world id rest none e h = h
  admit_next-IsWithin plan world id rest (some task) e h =
      admitted-IsWithin plan task.task_id _ _ _ h

  pub admit-IsWithin :
      (plan : Plan) (world : World V) (ready : List String) (e : Engine V)
      → IsWithin plan e
      → IsWithin plan (admit_round plan world ready e)
  admit-IsWithin plan world [] e h = h
  admit-IsWithin plan world (id ∷ rest) e h =
      admit_next-IsWithin plan world id rest (task_named plan.tasks id) e h

  pub launch_next-IsWithin :
      (plan : Plan) (id : String) (rest : List String) (o : Option Task) (e : Engine V)
      → length e.flights < plan.max_workers
      → IsWithin plan (launch_next id rest o e)
  unfolding launch_one
  launch_next-IsWithin plan id rest none e h = ground arith
  launch_next-IsWithin plan id rest (some task) e h =
      ground (arith, length-append e.flights (task.task_id ∷ []))

  pub launch-IsWithin :
      (plan : Plan) (waiting : List String) (e : Engine V)
      → IsWithin plan e
      → IsWithin plan (launch_round plan waiting e)
  launch-IsWithin plan [] e h = h
  launch-IsWithin plan (id ∷ rest) e h =
      elim (Bool-cases (ltb (length e.flights) plan.max_workers)) [
        | inl free ↦
            rw free (launch_next-IsWithin plan id rest (task_named plan.tasks id) e (ground arith))
        | inr full ↦ rw full h
      ]

  pub landed-IsWithin :
      (plan : Plan) (inbox : List String) (e : Engine V)
      → IsWithin plan e
      → IsWithin plan (landed plan inbox e)
  landed-IsWithin plan [] e h = h
  landed-IsWithin plan (id ∷ rest) e h = elim (Bool-cases (elem id e.flights)) [
    | inl flying ↦ rw flying (
        release-IsWithin plan id _
          (ground (arith, length-filter (λ other. not (str_eq other id)) e.flights)))
    | inr dropped ↦ rw dropped h
  ]

  pub expired-IsWithin :
      (plan : Plan) (now : ℕ) (id : String) (o : Option Flight) (e : Engine V)
      → IsWithin plan e
      → IsWithin plan (expired plan now id o e)
  expired-IsWithin plan now id none e h = h
  expired-IsWithin plan now id (some f) e h =
      elim (Bool-cases (is_due now f.deadline && not f.settled)) [
        | inl late ↦ rw late (
            release-IsWithin plan id _
              (ground (arith, length-filter (λ other. not (str_eq other id)) e.flights)))
        | inr early ↦ rw early h
      ]

  pub observe_cancel_flights :
      (plan : Plan) (e : Engine V) → (observe_cancel plan e).flights ≡ e.flights
  unfolding observe_cancel
  observe_cancel_flights plan e = ground arith

  pub concluded_flights :
      (broken : List String) (e : Engine V) → (concluded broken e).flights ≡ e.flights
  concluded_flights [] e = refl
  concluded_flights (id ∷ more) e = refl

  pub conclude_flights : (plan : Plan) (e : Engine V) → (conclude plan e).flights ≡ e.flights
  unfolding conclude
  conclude_flights plan e =
      let stopped = any (λ id. is_cancelled (e.states id).status) (ids plan.tasks) in
      elim (Bool-cases (e.cancel_seen && stopped)) [
        | inl halt ↦ rw halt refl
        | inr done ↦ rw done (concluded_flights _ e)
      ]

  pub coordinate-IsWithin :
      (plan : Plan) (world : World V) (now : ℕ) (c : Control) (e : Engine V)
      → IsWithin plan e
      → IsWithin plan (coordinate plan world now c e)
  unfolding coordinate take_landing expire_one
  coordinate-IsWithin plan world now looping e h = h
  coordinate-IsWithin plan world now observing e h = rw (observe_cancel_flights plan e) h
  coordinate-IsWithin plan world now admitting e h = admit-IsWithin plan world e.ready e h
  coordinate-IsWithin plan world now launching e h = launch-IsWithin plan e.waiting e h
  coordinate-IsWithin plan world now awaiting e h = landed-IsWithin plan e.inbox e h
  coordinate-IsWithin plan world now (expiring at []) e h = h
  coordinate-IsWithin plan world now (expiring at (id ∷ rest)) e h =
      expired-IsWithin plan at id (e.threads id) e h
  coordinate-IsWithin plan world now concluding e h = rw (conclude_flights plan e) h
  coordinate-IsWithin plan world now ended e h = h

  pub thread-IsWithin :
      (plan : Plan) (id : String) (s : Signal V) (o : Option Flight) (e : Engine V)
      → IsWithin plan e
      → IsWithin plan (thread_step id s o e)
  thread-IsWithin plan id s none e h = h
  thread-IsWithin plan id s (some f) e h = h

  pub interrupt-IsWithin :
      (plan : Plan) (text : String) (c : Control) (e : Engine V)
      → IsWithin plan e
      → IsWithin plan (interrupt_at plan text c e)
  unfolding interrupt_at abort
  interrupt-IsWithin plan text ended e h = h
  interrupt-IsWithin plan text _ e h = h

  pub step-IsWithin :
      (plan : Plan) (s : Step V) (e : Engine V) → IsWithin plan e → IsWithin plan (step plan s e)
  unfolding step
  step-IsWithin plan (coordinator world now) e h = coordinate-IsWithin plan world now e.control e h
  step-IsWithin plan (thread id s) e h = thread-IsWithin plan id s (e.threads id) e h
  step-IsWithin plan cancel_run e h = h
  step-IsWithin plan (interrupted text) e h = interrupt-IsWithin plan text e.control e h

  pub steps-IsWithin :
      (plan : Plan) (ss : List (Step V)) (e : Engine V)
      → IsWithin plan e
      → IsWithin plan (run plan ss e)
  unfolding run
  steps-IsWithin plan [] e h = h
  steps-IsWithin plan (s ∷ ss) e h =
      steps-IsWithin plan ss (step plan s e) (step-IsWithin plan s e h)

  -- A run never counts more flights in the air than the plan has workers, after any sequence of
  -- steps from the start of a run.
  pub run-IsWithin :
      (plan : Plan) (states : String → TaskRun V) (ss : List (Step V))
      → length (run plan ss (prepare plan states)).flights ≤ plan.max_workers
  unfolding prepare
  run-IsWithin plan states ss = steps-IsWithin plan ss (prepare plan states) (ground arith)
