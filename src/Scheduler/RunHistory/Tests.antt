-- ===== src/Scheduler/RunHistory/Tests.antt =====
-- A history of two records that four firings go through.
use file_automation.Base.{◌≤◌, String, none, some, List, [], ◌∷◌, length, ok, ◌≡◌, refl}
use file_automation.Base.Json.{no_fields}
use file_automation.Scheduler.RunHistory.{
  RunState, JobRun, TriggerKind, RunHistory, create, add, as_run_state, query, Op, adding, clearing,
  steps,
}
use file_automation.Scheduler.RunHistory.Latest.{recorded, latest, query-latest}
use file_automation.Scheduler.RunHistory.Newest.{Newest}

abbrev firing : String → RunState → JobRun
firing id state = record {
  run_id = id;
  job = "backup";
  trigger = TriggerKind.cron;
  scheduled_at = 0;
  target = "actions";
  pipeline = none;
  state = state;
  started_at = none;
  finished_at = none;
  error = none;
  reason = none;
  correlation_id = id;
  detail = no_fields;
}

abbrev calls : List Op
calls =
    adding (firing "r1" RunState.completed)
    ∷ clearing
    ∷ adding (firing "r2" RunState.completed)
    ∷ adding (firing "r3" RunState.failed)
    ∷ adding (firing "r4" RunState.completed)
    ∷ []

abbrev history : RunHistory
history = record { limit = 2; runs = [] }

history_created : create 2 ≡ ok history
unfolding create
history_created = refl

query_completed :
    query (some "backup") (some "completed") 50 (steps calls history)
    ≡ ok (firing "r4" RunState.completed ∷ [])
unfolding query steps add as_run_state
query_completed = refl

query-latest_example :
    (length ((steps calls history).runs) ≤ 2)
    × ((found : List JobRun) × (query (some "backup") (some "completed") 50 (steps calls history)
          ≡ ok found)
        × Newest (some "backup") (some RunState.completed) 50 (latest 2 (recorded calls [])) found)
query-latest_example =
    query-latest 2 history calls (some "backup") (some RunState.completed) 50 history_created
