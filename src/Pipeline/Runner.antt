-- ===== src/Pipeline/Runner.antt =====
-- pipeline/runner.py: the engine of one run. The coordinator is a transition system: `control` says
-- where it stands in `execute`, and each of its steps is one round of a loop or one call that has no
-- loop. The threads' steps (`work`) and the caller's cancellation come in between in any order.
-- The mappings by task ID are functions; `threads` keeps the flight of every task that was
-- launched, also when the coordinator has dropped it from `_flights`, because its thread goes on.
-- Checkpoints, events and time stamps are left out.
pub mod Gate
pub mod Moves
pub mod Steps
pub mod Queues
pub mod Invariant
pub mod Threads
pub mod Landings
pub mod Live
pub mod Starts
pub mod Ends
pub mod Consistent
pub mod Steady
pub mod Kept
pub mod Final
pub mod Width
pub mod Conclusion
pub mod Interrupted
mod Tests
use mathlib.Core.Option
use file_automation.Base.{
  ℕ, ◌+◌, ◌-◌, String, str_eq, Bool, true, false, not, ◌&&◌, ◌||◌, Option, none, some, List, [],
  ◌∷◌, ◌++◌, map, length, any, all, filter, elem, ltb, leb, ◌==◌, if◌then◌else◌, update, Result, ok,
  err,
}
use file_automation.Pipeline.Model.{
  TaskStatus, pending, running, succeeded, failed, skipped, timeout, cancelled, is_final,
  is_failure, RunStatus, Reason, idempotent, condition, upstream_failed, upstream_skipped, Error,
  describe_error, When, on_success, on_failure, always, asks, Task, TaskRun, satisfied,
}
use file_automation.Pipeline.Worker
use file_automation.Pipeline.Worker.{
  Flight, Phase, checking, gone, Signal, work, cancel, abandon, at_phase,
}

pub record Plan : Type 0 where
  pub tasks : List Task
  pub upstream : String → List String
  pub max_workers : ℕ

-- what the gate asks of the run's surroundings: the answer of a callable `when`, an idempotency key
-- with its placeholders filled, and the store's record of an earlier success under it. The errors of
-- the last two are PipelineExceptions; any other one interrupts the coordinator.
pub record World (V : Type 0) : Type 0 where
  pub ask : String → List (String × Option V) → Result Error Bool
  pub render_key : String → Result Error String
  pub find_idempotent : String → String → Result Error (Option (TaskRun V))

pub data RunError : Type 0 where
  was_cancelled : RunError
  did_not_succeed : List String → RunError
  aborted : String → RunError

pub data Control : Type 0 where
  looping observing admitting launching awaiting : Control
  expiring : ℕ → List String → Control
  concluding ended : Control

pub record Engine (V : Type 0) : Type 0 where
  pub states : String → TaskRun V
  pub blocked : String → ℕ
  pub ready : List String
  pub waiting : List String
  pub flights : List String
  pub threads : String → Option Flight
  pub inbox : List String
  pub cancel_token : Bool
  pub cancel_seen : Bool
  pub control : Control
  pub status : RunStatus
  pub error : Option RunError

abbrev pub is_pending : TaskStatus → Bool
is_pending pending = true
is_pending _ = false

abbrev pub is_cancelled : TaskStatus → Bool
is_cancelled cancelled = true
is_cancelled _ = false

abbrev pub ids : List Task → List String
ids [] = []
ids (t ∷ ts) = t.task_id ∷ ids ts

-- `self._tasks[task_id]`
abbrev pub task_named : List Task → String → Option Task
task_named [] id = none
task_named (t ∷ ts) id = if str_eq t.task_id id then some t else task_named ts id

-- `self._dependents[task_id]`: one entry for each time that a task names it
abbrev pub mentions : String → String → List String → List String
mentions id user [] = []
mentions id user (d ∷ ds) =
    let rest = mentions id user ds in if str_eq d id then user ∷ rest else rest

unfoldable pub dependents : List Task → String → List String
dependents [] id = []
dependents (t ∷ ts) id = mentions id t.task_id t.depends_on ++ dependents ts id

-- why a task ends without running
pub record Verdict : Type 0 where
  pub status : TaskStatus
  pub reason : Option Reason
  pub error : Option String

abbrev pub skip : Reason → Verdict
skip reason = record { status = skipped; reason = some reason; error = none }

abbrev pub fail : String → Verdict
fail text = record { status = failed; reason = none; error = some text }

module _ {V : Type 0} where
  abbrev pub end_unstarted : Verdict → TaskRun V → TaskRun V
  end_unstarted v r = record r { status = v.status; reason = v.reason; error = v.error }
