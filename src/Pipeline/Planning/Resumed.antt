-- ===== src/Pipeline/Planning/Resumed.antt =====
-- pipeline/pipeline.py: a run that is resumed keeps what has succeeded.
use file_automation.Base.{
  ℕ, String, str_eq, eq_iff, true, false, Option, none, some, List, [], ◌∷◌, elem, Dict, lookup,
  has_key, lookup_of_has_key, keys, elem-keys, Result, ok, err, ◌≡◌, refl, sym, arith, inl, inr,
  Bool-cases, subst, if◌then◌else◌, ◌∙◌,
}
use file_automation.Pipeline.Model.{succeeded, Task, TaskRun, is_final}
use file_automation.Pipeline.Runner.{ids, is_pending}
use file_automation.Pipeline.Runner.Final.{run-final}
use file_automation.Pipeline.Runner.Steps.{Step, run, prepare}
use file_automation.Pipeline.Substitution.{Value}
use file_automation.Pipeline.Planning.{Pipeline, dependencies}
use file_automation.Pipeline.Graph.{task_levels}
use file_automation.Pipeline.Planning.Runs.{
  PlanError, LevelPlan, PipelineRun, Prepared, goes_on, make_plan, or_zero, new_task_run,
  blank_tasks, blank_run, is_succeeded, is_done, carried_over, carry_all, continued, going_on,
  resume, or_new, record_at, engine_of,
}
use file_automation.Pipeline.Planning.Built.{Builds, Builds-IsBuilt}
use file_automation.Pipeline.Planning.Workable.{Drawn, make_plan-Drawn, Covers, Drawn-Covers}

module _ {V : Type 0} where
  lookup-blank_tasks :
      (levels : Dict ℕ) (ts : List Task) (id : String)
      → elem id (ids ts) ≡ true
      → lookup id (blank_tasks {V = V} levels ts)
        ≡ some (new_task_run id (or_zero (lookup id levels)))
  unfolding blank_tasks lookup
  lookup-blank_tasks levels [] id m = absurd (ground arith)
  lookup-blank_tasks levels (t ∷ ts) id m = elim (Bool-cases (str_eq t.task_id id)) [
    | inl same ↦
        subst
          (λ x.
            (if str_eq t.task_id id
              then some (new_task_run {V = V} x (or_zero (lookup x levels)))
              else lookup id (blank_tasks levels ts))
            ≡ some (new_task_run id (or_zero (lookup id levels))))
          (sym ((eq_iff t.task_id id).0 same)) (rw same refl)
    | inr differs ↦ rw differs (lookup-blank_tasks levels ts id (ground arith))
  ]

  lookup-carry_all :
      (earlier d : Dict (TaskRun (Value V))) (id : String) (s : TaskRun (Value V))
      → lookup id d ≡ some s
      → lookup id (carry_all earlier d) ≡ some (carried_over (lookup id earlier) s)
  unfolding carry_all lookup
  lookup-carry_all earlier [] id s h = absurd (ground arith)
  lookup-carry_all earlier ((j, r) ∷ d) id s h = elim (Bool-cases (str_eq j id)) [
    | inl same ↦
        let here : r ≡ s = ground arith in
        let key : j ≡ id = ground (arith, eq_iff j id) in rw same (rw (key, here) refl)
    | inr differs ↦ rw differs (lookup-carry_all earlier d id s (ground arith))
  ]

  -- a record that is final or untried
  abbrev IsUntried : TaskRun (Value V) → Type 0
  IsUntried r = is_final r.status ≡ false → (is_pending r.status ≡ true) × (r.attempts ≡ 0)

  carried_over-IsUntried :
      (o : Option (TaskRun (Value V))) (r : TaskRun (Value V))
      → IsUntried r
      → IsUntried (carried_over o r)
  unfolding carried_over
  carried_over-IsUntried none r h = h
  carried_over-IsUntried (some earlier) r h = elim (Bool-cases (is_succeeded earlier.status)) [
    | inl done ↦ rw done (λ f. absurd (ground arith))
    | inr undone ↦ rw undone h
  ]

  carry_all-IsFresh :
      (earlier : Dict (TaskRun (Value V))) (levels : Dict ℕ) (ts : List Task) (id : String)
      → IsUntried (or_new id (lookup id (carry_all earlier (blank_tasks levels ts))))
  unfolding carry_all blank_tasks lookup
  carry_all-IsFresh earlier levels [] id = λ f. (refl, refl)
  carry_all-IsFresh earlier levels (t ∷ ts) id = elim (Bool-cases (str_eq t.task_id id)) [
    | inl same ↦
        rw (or_new, same)
          (carried_over-IsUntried (lookup t.task_id earlier)
            (new_task_run t.task_id (or_zero (lookup t.task_id levels))) (λ f. (refl, refl)))
    | inr differs ↦ rw (or_new, differs) (carry_all-IsFresh earlier levels ts id)
  ]

  -- how a run that goes on has come about
  record Continues (p : Pipeline V) (earlier : PipelineRun V) (r : Prepared V) : Type 0 where
    levels : LevelPlan
    drawn : Drawn p levels
    same : continued p earlier levels ≡ r

  going_on-Continues :
      (p : Pipeline V) (earlier : PipelineRun V) (q : Result PlanError LevelPlan) (r : Prepared V)
      → make_plan false p earlier.params ≡ q
      → going_on p earlier q ≡ ok (goes_on r)
      → Continues p earlier r
  going_on-Continues p earlier (err e) r k h = absurd (ground arith)
  going_on-Continues p earlier (ok lp) r k h = record {
    levels = lp;
    drawn = make_plan-Drawn false p earlier.params lp k;
    same = cc;
  }

  resume-Continues :
      (p : Pipeline V) (earlier : PipelineRun V) (r : Prepared V)
      → resume p (some earlier) ≡ ok (goes_on r)
      → Continues p earlier r
  unfolding resume
  resume-Continues p earlier r h = elim (Bool-cases (str_eq earlier.pipeline p.name)) [
    | inl own ↦ elim (Bool-cases (is_done earlier.status)) [
      | inl done ↦ absurd (ground arith)
      | inr open_run ↦ going_on-Continues p earlier _ r refl (ground arith)
    ]
    | inr foreign ↦ absurd (ground arith)
  ]

  carried_over-succeeded :
      (earlier fresh : TaskRun (Value V))
      → earlier.status ≡ succeeded
      → carried_over (some earlier) fresh ≡ record earlier { level = fresh.level }
  unfolding carried_over
  carried_over-succeeded earlier fresh h = rw h refl

  continued-keeps :
      (p : Pipeline V) (earlier : PipelineRun V) (lp : LevelPlan) (ss : List (Step (Value V)))
      (id : String) (t : TaskRun (Value V))
      → Covers p lp
      → lookup id earlier.tasks ≡ some t
      → t.status ≡ succeeded
      → has_key id p.tasks ≡ true
      → (run lp.plan ss (engine_of (continued p earlier lp))).states id
        ≡ record t { level = or_zero (lookup id lp.levels) }
  unfolding continued engine_of prepare blank_run run
  continued-keeps p earlier lp ss id t c e s m =
      let blank = new_task_run {V = V} id (or_zero (lookup id lp.levels)) in
      let states = record_at (carry_all earlier.tasks (blank_tasks lp.levels lp.plan.tasks)) in
      let stored =
        lookup-carry_all earlier.tasks (blank_tasks lp.levels lp.plan.tasks) id blank
          (lookup-blank_tasks lp.levels lp.plan.tasks id (ground (arith, c.all id, m))) in
      let kept : carried_over (lookup id earlier.tasks) blank
          ≡ record t { level = or_zero (lookup id lp.levels) } =
        rw e (carried_over-succeeded t blank s) in
      let starts : states id ≡ record t { level = or_zero (lookup id lp.levels) } =
        rw (record_at, stored) kept in
      let ends : is_final (states id).status ≡ true = rw (starts, s) refl in
      run-final lp.plan states [] ss id c.workable
        (carry_all-IsFresh earlier.tasks lp.levels lp.plan.tasks) ends
      ∙ starts

  levelled :
      (p : Pipeline V) (lp : LevelPlan) (id : String)
      → Covers p lp
      → has_key id p.tasks ≡ true
      → has_key id lp.levels ≡ true
  levelled p lp id c m =
      let inside : elem id (keys lp.levels) ≡ true = rw (← c.named, ← c.all id) m in
      rw (← elem-keys id lp.levels) inside

  -- A run that goes on after `resume` keeps every task that has succeeded: whatever the coordinator,
  -- the threads and the caller do from then on, in whatever order, the task's record stays the stored
  -- one, with only its level set to the one that `task_levels` gives the task in the pipeline as it
  -- is now, so it is not run again. The pipeline is built by its methods and still has the task.
  pub resume-keeps :
      (p : Pipeline V) (earlier : PipelineRun V) (r : Prepared V) (ss : List (Step (Value V)))
      (id : String) (t : TaskRun (Value V))
      → Builds p
      → resume p (some earlier) ≡ ok (goes_on r)
      → lookup id earlier.tasks ≡ some t
      → t.status ≡ succeeded
      → has_key id p.tasks ≡ true
      → (levels : Dict ℕ) × (level : ℕ) × (task_levels (dependencies p.tasks) ≡ ok levels)
        × (lookup id levels ≡ some level)
        × ((run r.plan ss (engine_of r)).states id ≡ record t { level = level })
  unfolding continued
  resume-keeps p earlier r ss id t b h e s m =
      let c = resume-Continues p earlier r h in
      let covers = Drawn-Covers p c.levels (Builds-IsBuilt p b) c.drawn in
      let (level, found) = lookup_of_has_key id c.levels.levels (levelled p c.levels id covers m) in
      let kept : (run r.plan ss (engine_of r)).states id
          ≡ record t { level = or_zero (lookup id c.levels.levels) } =
        subst
          (λ q.
            (run q.plan ss (engine_of q)).states id
            ≡ record t { level = or_zero (lookup id c.levels.levels) })
          c.same (continued-keeps p earlier c.levels ss id t covers e s m) in
      (c.levels.levels, level, c.drawn.ordered, found, rw found at kept)
