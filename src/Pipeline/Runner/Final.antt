-- ===== src/Pipeline/Runner/Final.antt =====
-- pipeline/runner.py: what has become of a task is final.
use file_automation.Base.{
  String, eq_iff, true, false, not, ◌&&◌, some, List, [], ◌∷◌, elem, ◌==◌, ◌≡◌, refl, arith, inl,
  inr, Bool-cases, IsDistinct, length,
}
use file_automation.Pipeline.Model.{TaskRun, Task, is_final}
use file_automation.Pipeline.Worker.{Flight}
use file_automation.Pipeline.Worker.Lock.{IsSound}
use file_automation.Pipeline.Runner.{Plan, is_pending, ids, task_named}
use file_automation.Pipeline.Runner.Steps.{
  Step, run, prepare, first_ready, open_dependencies, open_count,
}
use file_automation.Pipeline.Runner.Live.{IsLive}
use file_automation.Pipeline.Runner.Consistent.{IsWorkable, IsConsistent}
use file_automation.Pipeline.Runner.Kept.{IsConsistent-IsThreaded, run-Keeps, run-IsConsistent}

module _ {V : Type 0} where
  -- the records that a run starts from: what is not final has not been tried
  abbrev pub IsFresh : (String → TaskRun V) → Type 0
  IsFresh states =
      (x : String)
      → is_final (states x).status ≡ false
      → (is_pending (states x).status ≡ true) × ((states x).attempts ≡ 0)

  first_ready-open :
      (states : String → TaskRun V) (ts : List Task) (x : String)
      → IsDistinct (ids ts)
      → elem x (first_ready states ts) ≡ true
      → (is_final (states x).status ≡ false)
        × (elem x (ids ts) ≡ true)
        × (open_count states (task_named ts x) ≡ 0)
  unfolding first_ready
  first_ready-open states [] x d m = absurd (ground arith)
  first_ready-open states (t ∷ ts) x d m =
      ground (arith, first_ready-open states ts x d.1, d.0, eq_iff t.task_id x)

  first_ready-IsDistinct :
      (states : String → TaskRun V) (ts : List Task)
      → IsDistinct (ids ts)
      → IsDistinct (first_ready states ts)
  unfolding first_ready
  first_ready-IsDistinct states [] d = tt
  first_ready-IsDistinct states (t ∷ ts) d =
      let rest = first_ready-IsDistinct states ts d.1 in
      let listed = first_ready-open states ts t.task_id d.1 in
      elim (Bool-cases
        (length (open_dependencies states t) == 0 && not (is_final (states t.task_id).status))) [
          | inl first ↦ rw first (ground (arith, d.0, listed), rest)
          | inr later ↦ rw later rest
        ]

  start_of :
      (plan : Plan) (states : String → TaskRun V)
      → IsLive plan (prepare plan states)
      → IsConsistent plan (prepare plan states).control (prepare plan states)
  unfolding prepare
  start_of plan states l = l

  -- what a run starts from, whether it is a new one or goes on with an older one
  prepare-IsLive :
      (plan : Plan) (states : String → TaskRun V)
      → IsDistinct (ids plan.tasks)
      → IsFresh states
      → IsLive plan (prepare plan states)
  unfolding prepare
  prepare-IsLive plan states d fresh = record {
    threaded = record {
      sound = λ x f e. absurd (ground arith);
      closed_final = λ x f e. absurd (ground arith);
      grounded = λ x f e. absurd (ground arith);
      in_air = λ x on m. absurd (ground arith);
      posted = λ x m. absurd (ground arith);
    };
    queued = record {
      ready_pending = λ x m. (fresh x (first_ready-open states plan.tasks x d m).0).0;
      ready_free = λ x m. (first_ready-open states plan.tasks x d m).2;
      waiting_pending = λ x m. absurd (ground arith);
      waiting_free = λ x m. absurd (ground arith);
      ready_distinct = first_ready-IsDistinct states plan.tasks d;
      waiting_distinct = tt;
      disjoint = λ x m. refl;
    };
    unstarted = λ x p. ground (arith, fresh x);
    listed = λ x m. absurd (ground arith);
    flights_distinct = tt;
  }

  -- Once a task of a run is final, its record stays as it is: whatever the coordinator, the threads
  -- of the tasks and the caller still do, in whatever order they do it, and whatever interrupts the
  -- coordinator between two rounds, neither the status nor the result, the error or the number of
  -- attempts changes. The tasks of the plan have different IDs and policies that allow an attempt,
  -- and the run starts from records that are final or untried.
  pub run-final :
      (plan : Plan) (states : String → TaskRun V) (before after : List (Step V)) (id : String)
      → IsWorkable plan
      → IsFresh states
      → is_final ((run plan before (prepare plan states)).states id).status ≡ true
      → (run plan after (run plan before (prepare plan states))).states id
        ≡ (run plan before (prepare plan states)).states id
  run-final plan states before after id w fresh =
      let start = prepare-IsLive plan states w.distinct fresh in
      run-Keeps plan after (run plan before (prepare plan states)) w
        (run-IsConsistent plan before (prepare plan states) w (start_of plan states start)) id

  -- A task's flight and record agree throughout a run: no task is tried more often than its policy
  -- allows, and while its thread is neither settled nor given up the task is running.
  pub run-IsSound :
      (plan : Plan) (states : String → TaskRun V) (ss : List (Step V)) (id : String) (f : Flight)
      → IsWorkable plan
      → IsFresh states
      → (run plan ss (prepare plan states)).threads id ≡ some f
      → IsSound f ((run plan ss (prepare plan states)).states id)
  run-IsSound plan states ss id f w fresh t =
      let start = prepare-IsLive plan states w.distinct fresh in
      let e = run plan ss (prepare plan states) in
      let (live, l) =
        IsConsistent-IsThreaded plan e.control e
          (run-IsConsistent plan ss (prepare plan states) w (start_of plan states start)) in
      l.sound id f t
