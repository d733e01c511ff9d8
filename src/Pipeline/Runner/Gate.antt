-- ===== src/Pipeline/Runner/Gate.antt =====
-- pipeline/runner.py: whether a task runs, by its condition and then by its idempotency key.
pub mod Verdicts
use Prim.Native.String.{◌++◌ as text_append}
use file_automation.Base.{
  ℕ, ◌-◌, String, str_eq, Bool, true, false, not, ◌&&◌, ◌||◌, Option, none, some, List, [], ◌∷◌,
  ◌++◌, map, length, any, all, filter, elem, ltb, leb, ◌==◌, if◌then◌else◌, update, Result, ok, err,
}
use file_automation.Pipeline.Model.{
  TaskStatus, pending, running, succeeded, failed, skipped, timeout, cancelled, is_final,
  is_failure, RunStatus, Reason, idempotent, condition, upstream_failed, upstream_skipped, Error,
  describe_error, When, on_success, on_failure, always, asks, Task, TaskRun, satisfied,
}
use file_automation.Pipeline.Runner.{Plan, World, Engine, Verdict, skip, fail}

-- `_ask`
abbrev pub asked : Result Error Bool → Option Verdict
asked (ok true) = none
asked (ok false) = some (skip condition)
asked (err error) = some (fail (text_append "when: " (describe_error error)))

module _ {V : Type 0} where
  -- `_results_for`
  unfoldable pub results_for : Plan → Engine V → String → List (String × Option V)
  results_for plan e id =
      map (λ other. (other, (e.states other).result))
        (filter (λ other. satisfied (e.states other)) (plan.upstream id))

  -- `_condition`
  unfoldable pub gate_condition : Plan → World V → Engine V → Task → Option Verdict
  unfolding results_for
  gate_condition plan world e task =
      let any_failed = any (λ d. is_failure (e.states d).status) task.depends_on in
      elim task.when [
        | asks ↦ asked (world.ask task.task_id (results_for plan e task.task_id))
        | always ↦ none
        | on_failure ↦ if any_failed then none else some (skip condition)
        | on_success ↦
            if all (λ d. satisfied (e.states d)) task.depends_on
            then none
            else some (skip (if any_failed then upstream_failed else upstream_skipped))
      ]

  -- `_seen_before`: the verdict, and the record with what it notes in it
  abbrev pub with_earlier : String → Option (TaskRun V) → TaskRun V → TaskRun V × Option Verdict
  with_earlier key none r = (record r { idempotency_key = some key }, none)
  with_earlier key (some earlier) r = (
    record r {
      idempotency_key = some key;
      result = earlier.result;
      result_is_repr = earlier.result_is_repr;
    },
    some (skip idempotent),
  )

  abbrev pub with_lookup :
      String → Result Error (Option (TaskRun V)) → TaskRun V → TaskRun V × Option Verdict
  with_lookup key (err error) r = (r, some (fail (describe_error error)))
  with_lookup key (ok earlier) r = with_earlier key earlier r

  abbrev pub with_key :
      World V → String → Result Error String → TaskRun V → TaskRun V × Option Verdict
  with_key world id (err error) r = (r, some (fail (describe_error error)))
  with_key world id (ok key) r = with_lookup key (world.find_idempotent id key) r

  unfoldable pub seen_before : World V → Task → String → TaskRun V → TaskRun V × Option Verdict
  seen_before world task template r = with_key world task.task_id (world.render_key template) r

  abbrev pub keyed :
      World V → Task → Option String → Option Verdict → TaskRun V → TaskRun V × Option Verdict
  keyed world task key (some v) r = (r, some v)
  keyed world task none none r = (r, none)
  keyed world task (some template) none r = seen_before world task template r

  -- `_gate`
  unfoldable pub gate : Plan → World V → Engine V → Task → TaskRun V → TaskRun V × Option Verdict
  unfolding gate_condition seen_before
  gate plan world e task r =
      keyed world task task.idempotency_key (gate_condition plan world e task) r
