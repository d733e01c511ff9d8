-- ===== src/Pipeline/Runner/Gate/Verdicts.antt =====
-- What the gate of pipeline/runner.py lets through, and what it leaves of a task's record.
use file_automation.Base.{
  String, Bool, true, false, Option, none, some, any, all, ◌≡◌, refl, arith, Result, ok, err,
}
use file_automation.Pipeline.Model.{
  is_failure, Error, When, on_success, on_failure, always, asks, Task, TaskRun, satisfied,
}
use file_automation.Pipeline.Runner.{Plan, World, Engine, Verdict, is_pending}
use file_automation.Pipeline.Runner.Gate.{
  asked, results_for, gate_condition, with_lookup, with_key, seen_before, keyed, gate,
}

asked-none : (a : Result Error Bool) → asked a ≡ none → a ≡ ok true
asked-none (ok true) h = refl
asked-none (ok false) h = absurd (ground arith)
asked-none (err error) h = absurd (ground arith)

module _ {V : Type 0} where
  -- the status and the attempts of a record stay as they were, and no verdict leaves a task pending
  abbrev pub GateKeeps : TaskRun V → TaskRun V × Option Verdict → Type 0
  GateKeeps r (r', o) =
      (r'.status ≡ r.status)
      × (r'.attempts ≡ r.attempts)
      × ((v : Verdict) → o ≡ some v → is_pending v.status ≡ false)

  condition-ends :
      (plan : Plan) (world : World V) (e : Engine V) (task : Task) (v : Verdict)
      → gate_condition plan world e task ≡ some v
      → is_pending v.status ≡ false
  unfolding gate_condition
  condition-ends plan world e task v h = ground (arith, h)

  with_lookup-GateKeeps :
      (key : String) (found : Result Error (Option (TaskRun V))) (r : TaskRun V)
      → GateKeeps r (with_lookup key found r)
  with_lookup-GateKeeps key (err error) r = (refl, refl, λ v h. ground (arith, h))
  with_lookup-GateKeeps key (ok none) r = (refl, refl, λ v h. absurd (ground arith))
  with_lookup-GateKeeps key (ok (some earlier)) r = (refl, refl, λ v h. ground (arith, h))

  with_key-GateKeeps :
      (world : World V) (id : String) (key : Result Error String) (r : TaskRun V)
      → GateKeeps r (with_key world id key r)
  with_key-GateKeeps world id (err error) r = (refl, refl, λ v h. ground (arith, h))
  with_key-GateKeeps world id (ok key) r =
      with_lookup-GateKeeps key (world.find_idempotent id key) r

  seen_before-GateKeeps :
      (world : World V) (task : Task) (template : String) (r : TaskRun V)
      → GateKeeps r (seen_before world task template r)
  unfolding seen_before
  seen_before-GateKeeps world task template r =
      with_key-GateKeeps world task.task_id (world.render_key template) r

  keyed-GateKeeps :
      (world : World V) (task : Task) (key : Option String) (o : Option Verdict) (r : TaskRun V)
      → ((v : Verdict) → o ≡ some v → is_pending v.status ≡ false)
      → GateKeeps r (keyed world task key o r)
  keyed-GateKeeps world task key (some v) r h = (refl, refl, h)
  keyed-GateKeeps world task none none r h = (refl, refl, h)
  keyed-GateKeeps world task (some template) none r h = seen_before-GateKeeps world task template r

  pub gate-GateKeeps :
      (plan : Plan) (world : World V) (e : Engine V) (task : Task) (r : TaskRun V)
      → GateKeeps r (gate plan world e task r)
  unfolding gate
  gate-GateKeeps plan world e task r =
      keyed-GateKeeps world task task.idempotency_key (gate_condition plan world e task) r
        (condition-ends plan world e task)

  -- why the gate lets a task run, by its condition
  abbrev pub IsWanted : Plan → World V → Engine V → Task → When → Type 0
  IsWanted plan world e task on_success = all (λ d. satisfied (e.states d)) task.depends_on ≡ true
  IsWanted plan world e task on_failure =
      any (λ d. is_failure (e.states d).status) task.depends_on ≡ true
  IsWanted plan world e task always = Unit
  IsWanted plan world e task asks =
      world.ask task.task_id (results_for plan e task.task_id) ≡ ok true

  -- why no earlier run stands in for the task
  abbrev pub IsNew : World V → String → Option String → Type 0
  IsNew world id none = Unit
  IsNew world id (some template) =
      (key : String) × (world.render_key template ≡ ok key)
      × (world.find_idempotent id key ≡ ok none)

  gate_condition-IsWanted :
      (plan : Plan) (world : World V) (e : Engine V) (task : Task) (w : When)
      → task.when ≡ w
      → gate_condition plan world e task ≡ none
      → IsWanted plan world e task w
  unfolding gate_condition
  gate_condition-IsWanted plan world e task on_success q h = ground (arith, h)
  gate_condition-IsWanted plan world e task on_failure q h = ground (arith, h)
  gate_condition-IsWanted plan world e task always q h = tt
  gate_condition-IsWanted plan world e task asks q h =
      asked-none (world.ask task.task_id (results_for plan e task.task_id)) (rw q at h)

  with_lookup-none :
      (key : String) (found : Result Error (Option (TaskRun V))) (r : TaskRun V)
      → (with_lookup key found r).1 ≡ none
      → found ≡ ok none
  with_lookup-none key (err error) r h = absurd (ground arith)
  with_lookup-none key (ok none) r h = refl
  with_lookup-none key (ok (some earlier)) r h = absurd (ground arith)

  with_key-IsNew :
      (world : World V) (id template : String) (found : Result Error String) (r : TaskRun V)
      → world.render_key template ≡ found
      → (with_key world id found r).1 ≡ none
      → IsNew world id (some template)
  with_key-IsNew world id template (err error) r q h = absurd (ground arith)
  with_key-IsNew world id template (ok key) r q h =
      (key, q, with_lookup-none key (world.find_idempotent id key) r h)

  keyed-IsNew :
      (world : World V) (task : Task) (key : Option String) (o : Option Verdict) (r : TaskRun V)
      → (keyed world task key o r).1 ≡ none
      → (o ≡ none) × IsNew world task.task_id key
  unfolding seen_before
  keyed-IsNew world task key (some v) r h = absurd (ground arith)
  keyed-IsNew world task none none r h = (refl, tt)
  keyed-IsNew world task (some template) none r h =
      (refl, with_key-IsNew world task.task_id template (world.render_key template) r refl h)

  -- The gate lets a task run only if the task is wanted and new: with `on_success` every dependency
  -- is satisfied, with `on_failure` one of them has failed, a callable `when` has answered true, and
  -- for a task with an idempotency key the key could be filled in and the store, asked for it, knows
  -- no earlier success.
  pub gate-admits :
      (plan : Plan) (world : World V) (e : Engine V) (task : Task) (r : TaskRun V)
      → (gate plan world e task r).1 ≡ none
      → IsWanted plan world e task task.when × IsNew world task.task_id task.idempotency_key
  unfolding gate
  gate-admits plan world e task r h =
      let (c, n) =
        keyed-IsNew world task task.idempotency_key (gate_condition plan world e task) r h in
      (gate_condition-IsWanted plan world e task task.when refl c, n)
