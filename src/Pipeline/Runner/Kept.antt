-- ===== src/Pipeline/Runner/Kept.antt =====
-- pipeline/runner.py: no step changes a final record.
use file_automation.Base.{
  ℕ, String, eq_iff, Bool, true, false, not, ◌&&◌, Option, none, some, List, [], ◌∷◌, elem,
  elem_self, update, ◌≡◌, refl, arith, inl, inr, Bool-cases, any, ltb, length,
}
use file_automation.Pipeline.Model.{TaskRun, Task, is_final}
use file_automation.Pipeline.Worker.{Flight, Signal}
use file_automation.Pipeline.Runner.{
  Plan, World, Engine, Verdict, end_unstarted, ids, is_cancelled, task_named, Control, looping,
  observing, admitting, launching, awaiting, expiring, concluding, ended,
}
use file_automation.Pipeline.Runner.Moves.{
  release, launch_one, observe_cancel, abort, take_landing, landed, expired, is_due, admitted,
  admit_one, conclude, concluded, expire_one,
}
use file_automation.Pipeline.Runner.Steps.{
  thread_step, Step, coordinator, thread, cancel_run, interrupted, step, run, coordinate,
  interrupt_at, admit_next, admit_round, launch_next, launch_round,
}
use file_automation.Pipeline.Runner.Threads.{IsThreaded, worked_final}
use file_automation.Pipeline.Runner.Live.{IsLive, release_kept}
use file_automation.Pipeline.Runner.Consistent.{IsWorkable, IsConsistent, task_named-found}
use file_automation.Pipeline.Runner.Steady.{step-IsConsistent}

module _ {V : Type 0} where
  -- the final records of a run stay as they are
  abbrev pub Keeps : Engine V → Engine V → Type 0
  Keeps e e' = (x : String) → is_final (e.states x).status ≡ true → e'.states x ≡ e.states x

  pub Keeps-release :
      (plan : Plan) (id : String) (e e' : Engine V) → Keeps e e' → Keeps e (release plan id e')
  Keeps-release plan id e e' k x f = rw (release_kept plan id e').0 (k x f)

  -- the record of a task that is not final changes
  pub Keeps-update :
      (e : Engine V) (id : String) (r : TaskRun V)
      → is_final (e.states id).status ≡ false
      → (x : String) → is_final (e.states x).status ≡ true
      → update e.states id r x ≡ e.states x
  Keeps-update e id r n x f = ground (arith, eq_iff id x)

  pub admitted-Keeps :
      (plan : Plan) (id : String) (r : TaskRun V) (o : Option Verdict) (e : Engine V)
      → is_final (e.states id).status ≡ false
      → Keeps e (admitted plan id (r, o) e)
  admitted-Keeps plan id r none e n = Keeps-update e id r n
  admitted-Keeps plan id r (some v) e n =
      Keeps-release plan id e _ (Keeps-update e id (end_unstarted v r) n)

  pub next-Keeps :
      (plan : Plan) (world : World V) (id : String) (rest : List String) (o : Option Task)
      (e : Engine V)
      → task_named plan.tasks id ≡ o
      → e.ready ≡ id ∷ rest
      → IsWorkable plan
      → IsLive plan e
      → Keeps e (admit_next plan world id rest o e)
  unfolding admit_one
  next-Keeps plan world id rest none e t q w l = λ x f. refl
  next-Keeps plan world id rest (some task) e t q w l =
      let (same, known, most) = task_named-found plan.tasks id task w.attempts t in
      let first : elem id e.ready ≡ true = rw q (elem_self id rest) in
      admitted-Keeps plan task.task_id _ _ (record e { ready = rest })
        (ground (arith, l.queued.ready_pending id first, same))

  pub admit-Keeps :
      (plan : Plan) (world : World V) (ready : List String) (e : Engine V)
      → e.ready ≡ ready
      → IsWorkable plan
      → IsLive plan e
      → Keeps e (admit_round plan world ready e)
  admit-Keeps plan world [] e q w l = λ x f. refl
  admit-Keeps plan world (id ∷ rest) e q w l =
      next-Keeps plan world id rest (task_named plan.tasks id) e refl q w l

  pub launch_next-Keeps :
      (plan : Plan) (id : String) (rest : List String) (o : Option Task) (e : Engine V)
      → task_named plan.tasks id ≡ o
      → e.waiting ≡ id ∷ rest
      → IsWorkable plan
      → IsLive plan e
      → Keeps e (launch_next id rest o e)
  unfolding launch_one
  launch_next-Keeps plan id rest none e t q w l = λ x f. refl
  launch_next-Keeps plan id rest (some task) e t q w l =
      let (same, known, most) = task_named-found plan.tasks id task w.attempts t in
      let first : elem id e.waiting ≡ true = rw q (elem_self id rest) in
      Keeps-update e task.task_id _ (ground (arith, l.queued.waiting_pending id first, same))

  pub launch-Keeps :
      (plan : Plan) (waiting : List String) (e : Engine V)
      → e.waiting ≡ waiting
      → IsWorkable plan
      → IsLive plan e
      → Keeps e (launch_round plan waiting e)
  launch-Keeps plan [] e q w l = λ x f. refl
  launch-Keeps plan (id ∷ rest) e q w l =
      elim (Bool-cases (ltb (length e.flights) plan.max_workers)) [
        | inl free ↦
            rw free (launch_next-Keeps plan id rest (task_named plan.tasks id) e refl q w l)
        | inr full ↦ rw full (λ x f. refl)
      ]

  pub observe_cancel-Keeps : (plan : Plan) (e : Engine V) → Keeps e (observe_cancel plan e)
  unfolding observe_cancel
  observe_cancel-Keeps plan e x f = ground (arith, f)

  pub landed-Keeps :
      (plan : Plan) (inbox : List String) (e : Engine V) → Keeps e (landed plan inbox e)
  landed-Keeps plan [] e = λ x f. refl
  landed-Keeps plan (id ∷ rest) e = elim (Bool-cases (elem id e.flights)) [
    | inl flying ↦ rw flying (Keeps-release plan id e _ (λ x f. refl))
    | inr dropped ↦ rw dropped (λ x f. refl)
  ]

  pub expired-Keeps :
      (plan : Plan) (now : ℕ) (id : String) (o : Option Flight) (e : Engine V)
      → e.threads id ≡ o
      → elem id e.flights ≡ true
      → IsLive plan e
      → Keeps e (expired plan now id o e)
  expired-Keeps plan now id none e t m l = λ x f. refl
  expired-Keeps plan now id (some f) e t m l =
      elim (Bool-cases (is_due now f.deadline && not f.settled)) [
        | inl late ↦ rw late (
            Keeps-release plan id e _ (
              Keeps-update e id _ (
                let (g, t', a) = l.threaded.in_air id refl m in
                ground (arith, (l.threaded.sound id f t).open_running))))
        | inr early ↦ rw early (λ x i. refl)
      ]

  pub concluded-Keeps : (broken : List String) (e : Engine V) → Keeps e (concluded broken e)
  concluded-Keeps [] e x f = refl
  concluded-Keeps (id ∷ more) e x f = refl

  pub conclude-Keeps : (plan : Plan) (e : Engine V) → Keeps e (conclude plan e)
  unfolding conclude
  conclude-Keeps plan e =
      let stopped = any (λ id. is_cancelled (e.states id).status) (ids plan.tasks) in
      elim (Bool-cases (e.cancel_seen && stopped)) [
        | inl halt ↦ rw halt (λ x f. refl)
        | inr done ↦ rw done (concluded-Keeps _ e)
      ]

  pub IsConsistent-IsThreaded :
      (plan : Plan) (c : Control) (e : Engine V)
      → IsConsistent plan c e
      → (live : Bool) × IsThreaded live e
  IsConsistent-IsThreaded plan ended e h = (false, h)
  IsConsistent-IsThreaded plan (expiring at xs) e (l, d, m) = (true, l.threaded)
  IsConsistent-IsThreaded plan _ e l = (true, l.threaded)

  pub thread-Keeps :
      (plan : Plan) (id : String) (s : Signal V) (o : Option Flight) (c : Control) (e : Engine V)
      → e.threads id ≡ o
      → IsConsistent plan c e
      → Keeps e (thread_step id s o e)
  thread-Keeps plan id s none c e t h x f = refl
  thread-Keeps plan id s (some g) c e t h x f =
      let (live, l) = IsConsistent-IsThreaded plan c e h in worked_final id s g e x live t l f

  pub abort-Keeps : (plan : Plan) (text : String) (e : Engine V) → Keeps e (abort plan text e)
  unfolding abort
  abort-Keeps plan text e x f = ground (arith, f)

  pub interrupt-Keeps :
      (plan : Plan) (text : String) (c : Control) (e : Engine V)
      → Keeps e (interrupt_at plan text c e)
  unfolding interrupt_at
  interrupt-Keeps plan text ended e = λ x f. refl
  interrupt-Keeps plan text _ e = abort-Keeps plan text e

  pub coordinate-Keeps :
      (plan : Plan) (world : World V) (now : ℕ) (c : Control) (e : Engine V)
      → IsWorkable plan
      → IsConsistent plan c e
      → Keeps e (coordinate plan world now c e)
  unfolding coordinate take_landing expire_one
  coordinate-Keeps plan world now looping e w l = λ x f. refl
  coordinate-Keeps plan world now observing e w l = observe_cancel-Keeps plan e
  coordinate-Keeps plan world now admitting e w l = admit-Keeps plan world e.ready e refl w l
  coordinate-Keeps plan world now launching e w l = launch-Keeps plan e.waiting e refl w l
  coordinate-Keeps plan world now awaiting e w l = landed-Keeps plan e.inbox e
  coordinate-Keeps plan world now (expiring at []) e w l = λ x f. refl
  coordinate-Keeps plan world now (expiring at (id ∷ rest)) e w (l, d, m) =
      expired-Keeps plan at id (e.threads id) e refl (m id (elem_self id rest)) l
  coordinate-Keeps plan world now concluding e w l = conclude-Keeps plan e
  coordinate-Keeps plan world now ended e w l = λ x f. refl

  pub step-Keeps :
      (plan : Plan) (s : Step V) (e : Engine V)
      → IsWorkable plan
      → IsConsistent plan e.control e
      → Keeps e (step plan s e)
  unfolding step
  step-Keeps plan (coordinator world now) e w l = coordinate-Keeps plan world now e.control e w l
  step-Keeps plan (thread id s) e w l = thread-Keeps plan id s (e.threads id) e.control e refl l
  step-Keeps plan cancel_run e w l = λ x f. refl
  step-Keeps plan (interrupted text) e w l = interrupt-Keeps plan text e.control e

  pub run-Keeps :
      (plan : Plan) (ss : List (Step V)) (e : Engine V)
      → IsWorkable plan
      → IsConsistent plan e.control e
      → Keeps e (run plan ss e)
  unfolding run
  run-Keeps plan [] e w c x f = refl
  run-Keeps plan (s ∷ ss) e w c x f =
      let k = step-Keeps plan s e w c x f in
      rw⁻¹ k (run-Keeps plan ss (step plan s e) w (step-IsConsistent plan s e w c) x (rw k f))

  pub run-IsConsistent :
      (plan : Plan) (ss : List (Step V)) (e : Engine V)
      → IsWorkable plan
      → IsConsistent plan e.control e
      → IsConsistent plan (run plan ss e).control (run plan ss e)
  unfolding run
  run-IsConsistent plan [] e w c = c
  run-IsConsistent plan (s ∷ ss) e w c =
      run-IsConsistent plan ss (step plan s e) w (step-IsConsistent plan s e w c)
