-- ===== src/Pipeline/Planning/Runs.antt =====
-- pipeline/pipeline.py: the plan of a run, the records that it starts from, and the dry run. What the
-- store holds under the ID of a run to resume is an argument, and so is a new run's ID.
use file_automation.Base.{
  ℕ, String, str_eq, Bool, true, false, not, Option, none, some, List, [], ◌∷◌, if◌then◌else◌, Dict,
  lookup, insert, keys, Result, ok, err,
}
use file_automation.Pipeline.Model.{TaskStatus, succeeded, RunStatus, Task, TaskRun}
use file_automation.Pipeline.Graph.{LevelError, task_levels}
use file_automation.Pipeline.Runner.{Plan, Engine}
use file_automation.Pipeline.Runner.Steps.{prepare}
use file_automation.Pipeline.Substitution.{Value}
use file_automation.Pipeline.Planning.{
  TaskSpec, Pipeline, DefinitionProblem, dependencies, upstream_at, problems, input_problems,
  all_notes,
}

pub data PlanError : Type 0 where
  invalid : List DefinitionProblem → PlanError
  unordered : LevelError → PlanError

-- a runner's plan with the level of each task
pub record LevelPlan : Type 0 where
  pub plan : Plan
  pub levels : Dict ℕ

pub record PipelineRun (V : Type 0) : Type 0 where
  pub run_id : String
  pub pipeline : String
  pub status : RunStatus
  pub params : Dict (Value V)
  pub dry_run : Bool
  pub tasks : Dict (TaskRun (Value V))

-- a run that an engine is to execute
pub record Prepared (V : Type 0) : Type 0 where
  pub plan : Plan
  pub run : PipelineRun V

pub data ResumeError : Type 0 where
  unknown_run : ResumeError
  other_pipeline : String → ResumeError
  not_planned : PlanError → ResumeError

-- what `resume` returns: a run as it is stored, or one that goes on
pub data Resumed (V : Type 0) : Type 0 where
  as_stored : PipelineRun V → Resumed V
  goes_on : Prepared V → Resumed V

abbrev pub or_zero : Option ℕ → ℕ
or_zero none = 0
or_zero (some n) = n

abbrev pub is_succeeded : TaskStatus → Bool
is_succeeded succeeded = true
is_succeeded _ = false

abbrev pub is_done : RunStatus → Bool
is_done RunStatus.succeeded = true
is_done _ = false

module _ {V : Type 0} where
  abbrev pub add_found : Option (TaskSpec V) → List Task → List Task
  add_found none rest = rest
  add_found (some spec) rest = spec.task ∷ rest

  -- tuple(self._tasks[task_id] for task_id in levels), where every ID is there
  unfoldable pub tasks_at : Dict (TaskSpec V) → List String → List Task
  tasks_at tasks [] = []
  tasks_at tasks (id ∷ ids) = add_found (lookup id tasks) (tasks_at tasks ids)

  abbrev pub laid_out : Pipeline V → Dict ℕ → LevelPlan
  laid_out p levels = record {
    plan = record {
      tasks = tasks_at p.tasks (keys levels);
      upstream = upstream_at (dependencies p.tasks);
      max_workers = p.max_workers;
    };
    levels = levels;
  }

  abbrev pub level_plan : Pipeline V → Result LevelError (Dict ℕ) → Result PlanError LevelPlan
  level_plan p (err e) = err (unordered e)
  level_plan p (ok levels) = ok (laid_out p levels)

  abbrev pub plan_checked : Pipeline V → List DefinitionProblem → Result PlanError LevelPlan
  plan_checked p [] = level_plan p (task_levels (dependencies p.tasks))
  plan_checked p (x ∷ xs) = err (invalid (x ∷ xs))

  abbrev pub or_inputs :
      Bool → Pipeline V → Dict (Value V) → List DefinitionProblem → List DefinitionProblem
  or_inputs true p params found = found
  or_inputs false p params [] = all_notes (input_problems p params)
  or_inputs false p params (x ∷ xs) = x ∷ xs

  -- `_plan`
  unfoldable pub make_plan : Bool → Pipeline V → Dict (Value V) → Result PlanError LevelPlan
  make_plan lenient p params = plan_checked p (or_inputs lenient p params (problems p))

  -- TaskRun(task=task_id, level=level)
  abbrev pub new_task_run : String → ℕ → TaskRun (Value V)
  new_task_run id level = record {
    task = id;
    status = TaskStatus.pending;
    level = level;
    attempts = 0;
    result = none;
    error = none;
    reason = none;
    idempotency_key = none;
    result_is_repr = false;
  }

  unfoldable pub blank_tasks : Dict ℕ → List Task → Dict (TaskRun (Value V))
  blank_tasks levels [] = []
  blank_tasks levels (t ∷ ts) =
      (t.task_id, new_task_run t.task_id (or_zero (lookup t.task_id levels)))
      ∷ blank_tasks levels ts

  -- `_blank_run`
  unfoldable pub blank_run : String → Pipeline V → LevelPlan → Dict (Value V) → PipelineRun V
  unfolding blank_tasks
  blank_run run_id p lp params = record {
    run_id = run_id;
    pipeline = p.name;
    status = RunStatus.running;
    params = params;
    dry_run = false;
    tasks = blank_tasks lp.levels lp.plan.tasks;
  }

  -- {**self.params, **params}
  unfoldable pub merge : Dict (Value V) → Dict (Value V) → Dict (Value V)
  merge base [] = base
  merge base ((name, v) ∷ rest) = merge (insert name v base) rest

  abbrev pub started :
      String
      → Pipeline V
      → Dict (Value V)
      → Result PlanError LevelPlan
      → Result PlanError (Prepared V)
  started run_id p params (err e) = err e
  started run_id p params (ok lp) =
      ok (record { plan = lp.plan; run = blank_run run_id p lp params })

  -- `run` up to the start of the engine, and `start`
  unfoldable pub start : String → Pipeline V → Dict (Value V) → Result PlanError (Prepared V)
  unfolding make_plan merge
  start run_id p params =
      started run_id p (merge p.params params) (make_plan false p (merge p.params params))

  -- `_carried_over`
  unfoldable pub carried_over : Option (TaskRun (Value V)) → TaskRun (Value V) → TaskRun (Value V)
  carried_over none fresh = fresh
  carried_over (some earlier) fresh =
      if not (is_succeeded earlier.status) then fresh else record earlier { level = fresh.level }

  unfoldable pub carry_all :
      Dict (TaskRun (Value V)) → Dict (TaskRun (Value V)) → Dict (TaskRun (Value V))
  unfolding carried_over
  carry_all earlier [] = []
  carry_all earlier ((id, state) ∷ rest) =
      (id, carried_over (lookup id earlier) state) ∷ carry_all earlier rest

  unfoldable pub continued : Pipeline V → PipelineRun V → LevelPlan → Prepared V
  unfolding carry_all blank_run
  continued p earlier lp =
      let run = blank_run earlier.run_id p lp earlier.params in
      record { plan = lp.plan; run = record run { tasks = carry_all earlier.tasks run.tasks } }

  abbrev pub going_on :
      Pipeline V → PipelineRun V → Result PlanError LevelPlan → Result ResumeError (Resumed V)
  going_on p earlier (err e) = err (not_planned e)
  going_on p earlier (ok lp) = ok (goes_on (continued p earlier lp))

  -- `resume` up to the start of the engine
  unfoldable pub resume : Pipeline V → Option (PipelineRun V) → Result ResumeError (Resumed V)
  unfolding make_plan
  resume p none = err unknown_run
  resume p (some earlier) =
      if not (str_eq earlier.pipeline p.name)
      then err (other_pipeline earlier.pipeline)
      else if is_done earlier.status
      then ok (as_stored earlier)
      else going_on p earlier (make_plan false p earlier.params)

  abbrev pub or_new : String → Option (TaskRun (Value V)) → TaskRun (Value V)
  or_new id none = new_task_run id 0
  or_new id (some r) = r

  -- `run.tasks[id]`, which the engine reads at the IDs of the plan only
  abbrev pub record_at : Dict (TaskRun (Value V)) → String → TaskRun (Value V)
  record_at tasks id = or_new id (lookup id tasks)

  -- Engine(plan, run, services)
  unfoldable pub engine_of : Prepared V → Engine (Value V)
  engine_of r = prepare r.plan (record_at r.run.tasks)
