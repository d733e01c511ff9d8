-- ===== src/Pipeline/Runner/Consistent.antt =====
-- The invariant of a whole run in pipeline/runner.py, kept by the coordinator's rounds.
use file_automation.Base.{
  ℕ, ◌≤◌, String, str_eq, eq_iff, true, false, not, ◌&&◌, Option, none, some, List, [], ◌∷◌, elem,
  elem_self, elem-filter_intro, ◌≡◌, refl, arith, inl, inr, Bool-cases, IsDistinct, All, any, ltb,
  length,
}
use file_automation.Pipeline.Model.{TaskRun, Task}
use file_automation.Pipeline.Worker.{Flight}
use file_automation.Pipeline.Runner.{
  Plan, World, Engine, Verdict, ids, is_cancelled, task_named, Control, looping, observing,
  admitting, launching, awaiting, expiring, concluding, ended,
}
use file_automation.Pipeline.Runner.Moves.{
  launch_one, take_landing, expired, is_due, admitted, admit_one, conclude, concluded, expire_one,
}
use file_automation.Pipeline.Runner.Steps.{
  coordinate, admit_next, admit_round, launch_next, launch_round, after_launches, is_empty,
}
use file_automation.Pipeline.Runner.Threads.{IsThreaded}
use file_automation.Pipeline.Runner.Live.{IsLive, release_kept, at_control-IsLive}
use file_automation.Pipeline.Runner.Starts.{
  admitted-IsLive, launch_one-IsLive, drop_ready-IsLive, drop_waiting-IsLive,
}
use file_automation.Pipeline.Runner.Ends.{landed-IsLive, expired-IsLive, observe_cancel-IsLive}
use file_automation.Pipeline.Runner.Gate.{gate}
use file_automation.Pipeline.Runner.Gate.Verdicts.{gate-GateKeeps}

-- the policies of a plan's tasks allow an attempt, and no two tasks share an ID
pub record IsWorkable (plan : Plan) : Type 0 where
  pub distinct : IsDistinct (ids plan.tasks)
  pub attempts : All (λ task. 1 ≤ task.retry.max_attempts) plan.tasks

-- what holds of a run, by where its coordinator stands
abbrev pub IsConsistent : {V : Type 0} → Plan → Control → Engine V → Type 0
IsConsistent plan ended e = IsThreaded false e
IsConsistent plan (expiring now xs) e =
    IsLive plan e × IsDistinct xs × ((x : String) → elem x xs ≡ true → elem x e.flights ≡ true)
IsConsistent plan _ e = IsLive plan e

pub task_named-found :
    (ts : List Task) (id : String) (task : Task)
    → All (λ t. 1 ≤ t.retry.max_attempts) ts
    → task_named ts id ≡ some task
    → (task.task_id ≡ id) × (elem id (ids ts) ≡ true) × (1 ≤ task.retry.max_attempts)
task_named-found [] id task a h = absurd (ground arith)
task_named-found (t ∷ ts) id task a h = elim (Bool-cases (str_eq t.task_id id)) [
  | inl same ↦ ground (arith, a.0, eq_iff t.task_id id)
  | inr other ↦ ground (arith, task_named-found ts id task a.1, eq_iff t.task_id id)
]

module _ {V : Type 0} where
  pub admit-IsLive :
      (plan : Plan) (world : World V) (id : String) (rest : List String) (o : Option Task)
      (e : Engine V)
      → task_named plan.tasks id ≡ o
      → IsWorkable plan
      → e.ready ≡ id ∷ rest
      → IsLive plan e
      → IsLive plan (admit_next plan world id rest o e)
  unfolding admit_one
  admit-IsLive plan world id rest none e q w r l = drop_ready-IsLive plan id rest e r l
  admit-IsLive plan world id rest (some task) e q w r l =
      let (same, known, most) = task_named-found plan.tasks id task w.attempts q in
      let (st, at, v) =
        gate-GateKeeps plan world (record e { ready = rest }) task (e.states task.task_id) in
      admitted-IsLive plan task.task_id rest
        (gate plan world (record e { ready = rest }) task (e.states task.task_id)).0
        (gate plan world (record e { ready = rest }) task (e.states task.task_id)).1 e (rw same r)
        st at v l

  pub launch-IsLive :
      (plan : Plan) (id : String) (rest : List String) (o : Option Task) (e : Engine V)
      → task_named plan.tasks id ≡ o
      → IsWorkable plan
      → e.waiting ≡ id ∷ rest
      → IsLive plan e
      → IsLive plan (launch_next id rest o e)
  launch-IsLive plan id rest none e q w r l = drop_waiting-IsLive plan id rest e r l
  launch-IsLive plan id rest (some task) e q w r l =
      let (same, known, most) = task_named-found plan.tasks id task w.attempts q in
      launch_one-IsLive plan task rest e (rw same r) (rw same known) most l

  pub admitted_control :
      (plan : Plan) (id : String) (r : TaskRun V) (o : Option Verdict) (e : Engine V)
      → (admitted plan id (r, o) e).control ≡ e.control
  admitted_control plan id r none e = refl
  admitted_control plan id r (some v) e = (release_kept plan id _).2

  pub admit_control :
      (plan : Plan) (world : World V) (id : String) (rest : List String) (o : Option Task)
      (e : Engine V)
      → (admit_next plan world id rest o e).control ≡ e.control
  unfolding admit_one
  admit_control plan world id rest none e = refl
  admit_control plan world id rest (some task) e = admitted_control plan task.task_id _ _ _

  pub launch_control :
      (id : String) (rest : List String) (o : Option Task) (e : Engine V)
      → (launch_next id rest o e).control ≡ e.control
  unfolding launch_one
  launch_control id rest none e = refl
  launch_control id rest (some task) e = refl

  pub IsConsistent-at :
      (plan : Plan) (c c' : Control) (e : Engine V)
      → c' ≡ c
      → IsConsistent plan c e
      → IsConsistent plan c' e
  IsConsistent-at plan c c' e same h = rw same h

  pub admit_round-IsConsistent :
      (plan : Plan) (world : World V) (ready : List String) (e : Engine V)
      → e.control ≡ admitting
      → e.ready ≡ ready
      → IsWorkable plan
      → IsLive plan e
      → IsConsistent plan (admit_round plan world ready e).control (admit_round plan world ready e)
  admit_round-IsConsistent plan world [] e c q w l = at_control-IsLive plan launching e l
  admit_round-IsConsistent plan world (id ∷ rest) e c q w l =
      IsConsistent-at plan admitting _ _
        (rw (admit_control plan world id rest (task_named plan.tasks id) e) c)
        (admit-IsLive plan world id rest (task_named plan.tasks id) e refl w q l)

  pub after_launches-IsConsistent :
      (plan : Plan) (e : Engine V)
      → IsLive plan e
      → IsConsistent plan (after_launches e).control (after_launches e)
  after_launches-IsConsistent plan e l = elim (Bool-cases (is_empty e.flights)) [
    | inl none_left ↦ rw none_left (at_control-IsLive plan looping e l)
    | inr some_left ↦ rw some_left (at_control-IsLive plan awaiting e l)
  ]

  pub launch_round-IsConsistent :
      (plan : Plan) (waiting : List String) (e : Engine V)
      → e.control ≡ launching
      → e.waiting ≡ waiting
      → IsWorkable plan
      → IsLive plan e
      → IsConsistent plan (launch_round plan waiting e).control (launch_round plan waiting e)
  launch_round-IsConsistent plan [] e c q w l = after_launches-IsConsistent plan e l
  launch_round-IsConsistent plan (id ∷ rest) e c q w l =
      elim (Bool-cases (ltb (length e.flights) plan.max_workers)) [
        | inl free ↦ rw free (
            IsConsistent-at plan launching _ _
              (rw (launch_control id rest (task_named plan.tasks id) e) c)
              (launch-IsLive plan id rest (task_named plan.tasks id) e refl w q l))
        | inr full ↦ rw full (after_launches-IsConsistent plan e l)
      ]

  pub expired_flights :
      (plan : Plan) (now : ℕ) (id x : String) (o : Option Flight) (e : Engine V)
      → str_eq id x ≡ false
      → elem x e.flights ≡ true
      → elem x (expired plan now id o e).flights ≡ true
  expired_flights plan now id x none e n m = m
  expired_flights plan now id x (some f) e n m =
      let kept = λ (other : String). not (str_eq other id) in
      elim (Bool-cases (is_due now f.deadline && not f.settled)) [
        | inl late ↦
            rw (late, (release_kept plan id _).1)
              (elem-filter_intro x kept e.flights m (ground (arith, eq_iff x id, eq_iff id x)))
        | inr early ↦ rw early m
      ]

  pub ended-IsThreaded : (e : Engine V) → IsThreaded true e → IsThreaded false e
  ended-IsThreaded e t = record {
    sound = t.sound;
    closed_final = t.closed_final;
    grounded = t.grounded;
    in_air = λ x on m. absurd (ground arith);
    posted = t.posted;
  }

  pub concluded-IsConsistent :
      (plan : Plan) (broken : List String) (e : Engine V)
      → IsThreaded true e
      → IsConsistent plan (concluded broken e).control (concluded broken e)
  concluded-IsConsistent plan [] e t = ended-IsThreaded e t
  concluded-IsConsistent plan (id ∷ more) e t = ended-IsThreaded e t

  pub conclude-IsConsistent :
      (plan : Plan) (e : Engine V)
      → IsThreaded true e
      → IsConsistent plan (conclude plan e).control (conclude plan e)
  unfolding conclude
  conclude-IsConsistent plan e t =
      elim (Bool-cases
        (e.cancel_seen && any (λ id. is_cancelled (e.states id).status) (ids plan.tasks))) [
          | inl stopped ↦ rw stopped (ended-IsThreaded e t)
          | inr done ↦ rw done (concluded-IsConsistent plan _ e t)
        ]

  pub coordinate-IsConsistent :
      (plan : Plan) (world : World V) (now : ℕ) (c : Control) (e : Engine V)
      → e.control ≡ c
      → IsWorkable plan
      → IsConsistent plan c e
      → IsConsistent plan (coordinate plan world now c e).control (coordinate plan world now c e)
  unfolding coordinate take_landing expire_one
  coordinate-IsConsistent plan world now looping e q w l =
      elim (Bool-cases (is_empty e.ready && is_empty e.waiting && is_empty e.flights)) [
        | inl idle ↦ rw idle (at_control-IsLive plan concluding e l)
        | inr busy ↦ rw busy (at_control-IsLive plan observing e l)
      ]
  coordinate-IsConsistent plan world now observing e q w l =
      at_control-IsLive plan admitting _ (observe_cancel-IsLive plan e l)
  coordinate-IsConsistent plan world now admitting e q w l =
      admit_round-IsConsistent plan world e.ready e q refl w l
  coordinate-IsConsistent plan world now launching e q w l =
      launch_round-IsConsistent plan e.waiting e q refl w l
  coordinate-IsConsistent plan world now awaiting e q w l =
      let l' = landed-IsLive plan e.inbox e refl l in
      (at_control-IsLive plan _ _ l', l'.flights_distinct, λ x m. m)
  coordinate-IsConsistent plan world now (expiring at []) e q w (l, d, m) =
      at_control-IsLive plan looping e l
  coordinate-IsConsistent plan world now (expiring at (id ∷ rest)) e q w (l, d, m) = (
    at_control-IsLive plan _ _
        (expired-IsLive plan at id (e.threads id) e refl (m id (elem_self id rest)) l),
    d.1,
    λ x i.
        expired_flights plan at id x (e.threads id) e (ground (arith, d.0, eq_iff id x))
          (m x (ground arith)),
  )
  coordinate-IsConsistent plan world now concluding e q w l =
      conclude-IsConsistent plan e l.threaded
  coordinate-IsConsistent plan world now ended e q w t = rw q t
