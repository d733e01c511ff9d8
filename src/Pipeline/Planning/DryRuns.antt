-- ===== src/Pipeline/Planning/DryRuns.antt =====
-- pipeline/pipeline.py: the dry run, and what it says about a real one. The text of an error is the
-- list of its findings; the empty list stands for None.
pub mod Notes
pub mod Predicted
pub mod Agreement
use file_automation.Base.{
  ℕ, String, str_eq, Bool, true, false, not, Option, none, some, List, [], ◌∷◌, ◌++◌, map,
  if◌then◌else◌, Dict, lookup, Result, ok, err,
}
use file_automation.Pipeline.Model.{TaskStatus, planned, RunStatus, succeeded, failed, Task}
use file_automation.Pipeline.Substitution.{Value, Values, text, no_values, value}
use file_automation.Pipeline.Planning.{
  Work, callable, action, TaskSpec, Pipeline, DefinitionProblem, input_problems,
}
use file_automation.Pipeline.Planning.Runs.{
  PlanError, LevelPlan, PipelineRun, make_plan, or_zero, merge,
}

pub data Note : Type 0 where
  finding : DefinitionProblem → Note
  unknown_action : String → Note

pub record DryTask : Type 0 where
  pub task : String
  pub status : TaskStatus
  pub level : ℕ
  pub error : List Note

pub record DryRun : Type 0 where
  pub status : RunStatus
  pub tasks : List DryTask
  pub flagged : List String

abbrev pub or_nothing : Option (List DefinitionProblem) → List DefinitionProblem
or_nothing none = []
or_nothing (some notes) = notes

abbrev pub name_flagged : List Note → String → List String → List String
name_flagged [] id rest = rest
name_flagged (n ∷ ns) id rest = id ∷ rest

-- [state.task for state in run.tasks.values() if state.error is not None]
unfoldable pub flagged_in : List DryTask → List String
flagged_in [] = []
flagged_in (t ∷ ts) = name_flagged t.error t.task (flagged_in ts)

abbrev pub status_of : List String → RunStatus
status_of [] = RunStatus.succeeded
status_of (id ∷ ids) = RunStatus.failed

unfoldable pub concluded : List DryTask → DryRun
unfolding flagged_in
concluded ts = record { status = status_of (flagged_in ts); tasks = ts; flagged = flagged_in ts }

-- `str` of the name of an action; whether the registry resolves a name
module _ {V : Type 0} (str : Value V → String) (resolves : String → Bool) where
  -- `action_name`; an action without a name is not accepted by `task`
  abbrev pub action_name : Work V → Option String
  action_name callable = none
  action_name (action no_values) = none
  action_name (action (value (text name) vs)) = some name
  action_name (action (value v vs)) = some (str v)

  abbrev pub unresolved : Option String → List Note
  unresolved none = []
  unresolved (some name) = if not (resolves name) then unknown_action name ∷ [] else []

  abbrev pub action_notes : Option (TaskSpec V) → List Note
  action_notes none = []
  action_notes (some spec) = unresolved (action_name spec.work)

  -- what the loop finds for one task
  unfoldable pub found_for : Pipeline V → Dict (Value V) → String → List Note
  found_for p params id =
      map finding (or_nothing (lookup id (input_problems p params)))
      ++ action_notes (lookup id p.tasks)

  unfoldable pub dry_tasks : Pipeline V → Dict (Value V) → Dict ℕ → List Task → List DryTask
  unfolding found_for
  dry_tasks p params levels [] = []
  dry_tasks p params levels (t ∷ ts) =
      record {
        task = t.task_id;
        status = TaskStatus.planned;
        level = or_zero (lookup t.task_id levels);
        error = found_for p params t.task_id;
      }
      ∷ dry_tasks p params levels ts

  abbrev pub dried :
      Pipeline V → Dict (Value V) → Result PlanError LevelPlan → Result PlanError DryRun
  dried p params (err e) = err e
  dried p params (ok lp) = ok (concluded (dry_tasks p params lp.levels lp.plan.tasks))

  -- `run` with `dry_run=True`: `_dry_run` on the merged parameters
  unfoldable pub dry_run : Pipeline V → Dict (Value V) → Result PlanError DryRun
  unfolding make_plan merge
  dry_run p params = dried p (merge p.params params) (make_plan true p (merge p.params params))
