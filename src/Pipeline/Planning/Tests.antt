-- ===== src/Pipeline/Planning/Tests.antt =====
-- A pipeline of two actions at work: its dry run, its start, and its second run after a failure.
use native.Mathlib.Omega.{arith}
use file_automation.Base.{
  has_key, insert, lookup, keys, ℕ, String, str_eq, Bool, false, ◌||◌, none, some, List, [], ◌∷◌,
  Dict, ok, ◌≡◌, refl, ◌↔◌,
}
use file_automation.Pipeline.Model.{
  TaskStatus, succeeded, failed, on_success, RetryPolicy, Task, TaskRun, RunStatus,
}
use file_automation.Pipeline.Graph.{dependency_problems, upstream_of, task_levels}
use file_automation.Pipeline.Substitution.Render.{action_reference_problems}
use file_automation.Pipeline.Runner.Steps.{Step, cancel_run, interrupted, run}
use file_automation.Pipeline.Substitution.{
  is_name, references, Value, text, list, mapping, no_values, value, no_entries, entry,
}
use file_automation.Pipeline.Planning.{
  problems, problems_of, input_problems, dependencies, upstream_at, action, TaskSpec, Pipeline,
  create, add_task,
}
use file_automation.Pipeline.Planning.Runs.{
  blank_run, merge, tasks_at, LevelPlan, PipelineRun, Prepared, goes_on, make_plan, continued,
  start, resume, engine_of,
}
use file_automation.Pipeline.Planning.Built.{Builds}
use file_automation.Pipeline.Planning.Rendered.{WorkIsOk, KeyIsOk, start-IsOk}
use file_automation.Pipeline.Planning.Resumed.{resume-keeps}
use file_automation.Pipeline.Planning.DryRuns.{DryRun, dry_run}
use file_automation.Pipeline.Planning.DryRuns.Agreement.{KnowsActions, dry_run-start}

abbrev once : RetryPolicy
once = record { max_attempts = 1; backoff_base = 0; backoff_cap = 60; retry_on = [] }

abbrev task_of : String → List String → Task
task_of id needs = record {
  task_id = id;
  depends_on = needs;
  retry = once;
  timeout = none;
  when = on_success;
  idempotency_key = none;
}

abbrev fetch : TaskSpec ℕ
fetch = record {
  task = task_of "fetch" [];
  work = action (
      value (text "FA_get")
        (value (mapping (entry "url" (text "${params.url}") no_entries)) no_values));
}

abbrev report : TaskSpec ℕ
report = record {
  task = task_of "report" ("fetch" ∷ []);
  work = action (
      value (text "FA_put")
        (value (list (value (text "${tasks.fetch.result}") no_values)) no_values));
}

abbrev empty : Pipeline ℕ
empty = record { name = "daily"; max_workers = 4; params = []; tasks = [] }

-- the task that depends on the other is added first
abbrev half : Pipeline ℕ
half = record { name = "daily"; max_workers = 4; params = []; tasks = ("report", report) ∷ [] }

abbrev daily : Pipeline ℕ
daily = record {
  name = "daily";
  max_workers = 4;
  params = [];
  tasks = ("report", report) ∷ ("fetch", fetch) ∷ [];
}

empty_created : create "daily" 4 [] ≡ ok empty
unfolding create
empty_created = refl

report_added : add_task report empty ≡ ok half
unfolding add_task is_name has_key insert
report_added = refl

fetch_added : add_task fetch half ≡ ok daily
unfolding add_task is_name has_key insert
fetch_added = refl

daily_built : Builds daily
daily_built =
    Builds.added fetch half daily
      (Builds.added report empty half (Builds.created "daily" 4 [] empty empty_created)
        (omega arith) report_added)
      (omega arith) fetch_added

abbrev url : Dict (Value ℕ)
url = ("url", text "https://example.org") ∷ []

abbrev known : String → Bool
known name = str_eq name "FA_get" || str_eq name "FA_put"

abbrev shown : Value ℕ → String
shown v = "value"

abbrev record_of : String → TaskStatus → ℕ → TaskRun (Value ℕ)
record_of id status level = record {
  task = id;
  status = status;
  level = level;
  attempts = 1;
  result = none;
  error = none;
  reason = none;
  idempotency_key = none;
  result_is_repr = false;
}

abbrev stored : PipelineRun ℕ
stored = record {
  run_id = "r1";
  pipeline = "daily";
  status = RunStatus.failed;
  params = url;
  dry_run = false;
  tasks = ("fetch", record_of "fetch" succeeded 5) ∷ ("report", record_of "report" failed 6) ∷ [];
}

abbrev laid : LevelPlan
laid = record {
  plan = record {
    tasks = fetch.task ∷ report.task ∷ [];
    upstream = upstream_at (dependencies daily.tasks);
    max_workers = 4;
  };
  levels = ("fetch", 0) ∷ ("report", 1) ∷ [];
}

daily_planned : make_plan false daily url ≡ ok laid
unfolding make_plan problems problems_of dependency_problems has_key keys lookup insert
    action_reference_problems upstream_of input_problems task_levels tasks_at
daily_planned = refl

daily_resumed : resume daily (some stored) ≡ ok (goes_on (continued daily stored laid))
unfolding resume
daily_resumed = rw daily_planned refl

-- the caller cancels the run, and an exception ends it
abbrev stopped : List (Step (Value ℕ))
stopped = cancel_run ∷ interrupted "KeyboardInterrupt" ∷ []

resume-keeps_example :
    (levels : Dict ℕ) × (level : ℕ) × (task_levels (dependencies daily.tasks) ≡ ok levels)
    × (lookup "fetch" levels ≡ some level)
    × ((run laid.plan stopped (engine_of (continued daily stored laid))).states "fetch"
        ≡ record (record_of "fetch" succeeded 5) { level = level })
unfolding lookup has_key continued
resume-keeps_example =
    resume-keeps daily stored (continued daily stored laid) stopped "fetch"
      (record_of "fetch" succeeded 5) daily_built daily_resumed refl refl refl

dry_run-start_example :
    ((d : DryRun) × (dry_run shown known daily url ≡ ok d) × (d.status ≡ RunStatus.succeeded))
    ↔ (((r : Prepared ℕ) × (start "r2" daily url ≡ ok r)) × KnowsActions shown known daily)
dry_run-start_example = dry_run-start shown known daily "r2" url daily_built

abbrev launched : Prepared ℕ
launched = record { plan = laid.plan; run = blank_run "r2" daily laid url }

daily_started : start "r2" daily url ≡ ok launched
unfolding start merge insert
daily_started = rw daily_planned refl

start-IsOk_example :
    WorkIsOk shown (text "None") url [] fetch.work
    × KeyIsOk shown (text "None") url [] fetch.task.idempotency_key
unfolding lookup blank_run references
start-IsOk_example =
    start-IsOk shown (text "None") [] "r2" daily url launched "fetch" fetch daily_started refl (
      "FA_get",
      value (mapping (entry "url" (text "${params.url}") no_entries)) no_values,
      refl,
      refl,
    )
