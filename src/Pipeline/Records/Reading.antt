-- ===== src/Pipeline/Records/Reading.antt =====
-- pipeline/model.py: what `from_dict` makes of the dictionary of `to_dict`, field by field.
use file_automation.Base.{String, ◌||◌, Option, none, some, [], ◌∷◌, Dict, ok, ◌≡◌, refl}
use file_automation.Base.Json.{Json}
use file_automation.Pipeline.Model.{
  TaskStatus, pending, running, succeeded, failed, skipped, timeout, cancelled, planned, RunStatus,
  Reason, idempotent, condition, upstream_failed, upstream_skipped,
}
use file_automation.Pipeline.Records.{
  TimedTask, TimedRun, status_text, status_named, run_status_text, run_status_named, reason_text,
  text_json, reason_json, get, optional_text, result_of, optional_reason, read_values,
}
use file_automation.Pipeline.Records.Stored.{
  iso_json, moment, json_safe, result_json, task_fields, params_fields, tasks_fields, run_fields,
  read_task, read_tasks, read_run,
}

status_named-status_text : (s : TaskStatus) → status_named (status_text s) ≡ ok s
status_named-status_text pending = refl
status_named-status_text running = refl
status_named-status_text succeeded = refl
status_named-status_text failed = refl
status_named-status_text skipped = refl
status_named-status_text timeout = refl
status_named-status_text cancelled = refl
status_named-status_text planned = refl

run_status_named-text : (s : RunStatus) → run_status_named (run_status_text s) ≡ ok s
run_status_named-text RunStatus.running = refl
run_status_named-text RunStatus.succeeded = refl
run_status_named-text RunStatus.failed = refl
run_status_named-text RunStatus.cancelled = refl

abbrev words : Option Reason → Option String
words none = none
words (some r) = some (reason_text r)

optional_reason-words : (r : Option Reason) → optional_reason (words r) ≡ ok r
optional_reason-words none = refl
optional_reason-words (some idempotent) = refl
optional_reason-words (some condition) = refl
optional_reason-words (some upstream_failed) = refl
optional_reason-words (some upstream_skipped) = refl

optional_text-reason_json :
    (key : String) (r : Option Reason) → optional_text key (some (reason_json r)) ≡ ok (words r)
optional_text-reason_json key none = refl
optional_text-reason_json key (some r) = refl

optional_text-text_json :
    (key : String) (o : Option String) → optional_text key (some (text_json o)) ≡ ok o
optional_text-text_json key none = refl
optional_text-text_json key (some s) = refl

module _ {M V : Type 0} (iso : M → String) (from_iso : String → Option M) (between : M → M → Json)
    (plain : V → Option Json) (repr : V → String) where
  abbrev stamp : Option M → Option String
  stamp none = none
  stamp (some t) = some (iso t)

  optional_text-iso_json :
      (key : String) (o : Option M)
      → optional_text key (some (iso_json iso from_iso between o)) ≡ ok (stamp o)
  optional_text-iso_json key none = refl
  optional_text-iso_json key (some t) = refl

  moment-stamp :
      (o : Option M)
      → ((t : M) → from_iso (iso t) ≡ some t)
      → moment iso from_iso between (stamp o) ≡ ok o
  moment-stamp none h = refl
  moment-stamp (some t) h = rw (h t) refl

  -- what a store keeps of a task: all of it, but the result as JSON data
  abbrev pub kept_task : TimedTask M V → TimedTask M Json
  kept_task t = record {
    run = record {
      task = t.run.task;
      status = t.run.status;
      level = t.run.level;
      attempts = t.run.attempts;
      result = result_of (some (result_json iso from_iso between plain repr t.run.result).0);
      error = t.run.error;
      reason = t.run.reason;
      idempotency_key = t.run.idempotency_key;
      result_is_repr =
          t.run.result_is_repr || (result_json iso from_iso between plain repr t.run.result).1;
    };
    started_at = t.started_at;
    finished_at = t.finished_at;
  }

  abbrev pub kept_tasks : Dict (TimedTask M V) → Dict (TimedTask M Json)
  kept_tasks [] = []
  kept_tasks ((id, t) ∷ d) = (id, kept_task t) ∷ kept_tasks d

  abbrev pub kept_params : Dict V → Dict Json
  kept_params [] = []
  kept_params ((name, v) ∷ d) =
      (name, (json_safe iso from_iso between plain repr v).0) ∷ kept_params d

  -- and of a run: all of it, but the results and the parameters as JSON data
  abbrev pub kept_run : TimedRun M V → TimedRun M Json
  kept_run r = record {
    run_id = r.run_id;
    pipeline = r.pipeline;
    status = r.status;
    params = kept_params r.params;
    dry_run = r.dry_run;
    tasks = kept_tasks r.tasks;
    started_at = r.started_at;
    finished_at = r.finished_at;
    error = r.error;
  }

  read_values-params_fields :
      (d : Dict V) → read_values (params_fields iso from_iso between plain repr d) ≡ kept_params d
  read_values-params_fields [] = refl
  read_values-params_fields ((name, v) ∷ d) = rw (read_values-params_fields d) refl

  module _ (reads : (t : M) → from_iso (iso t) ≡ some t) where
    read_task-task_fields :
        (t : TimedTask M V)
        → read_task iso from_iso between (task_fields iso from_iso between plain repr t)
          ≡ ok (kept_task t)
    unfolding read_task task_fields get
    read_task-task_fields t =
        rw
          (
            status_named-status_text t.run.status,
            optional_text-text_json "error" t.run.error,
            optional_text-reason_json "reason" t.run.reason,
            optional_reason-words t.run.reason,
            optional_text-text_json "idempotency_key" t.run.idempotency_key,
            optional_text-iso_json "started_at" t.started_at,
            moment-stamp t.started_at reads,
            optional_text-iso_json "finished_at" t.finished_at,
            moment-stamp t.finished_at reads,
          )
          refl

    read_tasks-tasks_fields :
        (d : Dict (TimedTask M V))
        → read_tasks iso from_iso between (tasks_fields iso from_iso between plain repr d)
          ≡ ok (kept_tasks d)
    unfolding read_tasks tasks_fields
    read_tasks-tasks_fields [] = refl
    read_tasks-tasks_fields ((id, t) ∷ d) =
        rw (read_task-task_fields t, read_tasks-tasks_fields d) refl

    -- what `from_dict` makes of the fields that `to_dict` writes
    pub read_run-kept_run :
        (r : TimedRun M V)
        → read_run iso from_iso between (run_fields iso from_iso between plain repr r)
          ≡ ok (kept_run r)
    unfolding read_run run_fields get
    read_run-kept_run r =
        rw
          (
            run_status_named-text r.status,
            read_tasks-tasks_fields r.tasks,
            optional_text-iso_json "started_at" r.started_at,
            moment-stamp r.started_at reads,
            optional_text-iso_json "finished_at" r.finished_at,
            moment-stamp r.finished_at reads,
            optional_text-text_json "error" r.error,
            read_values-params_fields r.params,
          )
          refl
