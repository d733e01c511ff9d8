-- ===== src/Pipeline/Records/Stored.antt =====
-- pipeline/model.py: `to_dict` and `from_dict` of TaskRun and PipelineRun.
use file_automation.Base.{
  String, Bool, true, false, ◌||◌, Option, none, some, [], ◌∷◌, Dict, Result, ok, err, ◌>>=◌,
}
use file_automation.Base.Json.{Json, Fields, null, bool, number, text, object, no_fields, field}
use file_automation.Pipeline.Records.{
  TimedTask, TimedRun, RecordError, bad_moment, other_type, status_text, status_named,
  run_status_text, run_status_named, text_json, reason_json, get, required_text, optional_text,
  number_or_zero, flag, result_of, optional_reason, mapping_of, read_values,
}

-- what `isoformat` and `fromisoformat` do, and the milliseconds between two moments
module _ {M : Type 0} (iso : M → String) (from_iso : String → Option M)
    (between : M → M → Json) where
  -- `_iso`, as JSON
  abbrev pub iso_json : Option M → Json
  iso_json none = null
  iso_json (some t) = text (iso t)

  abbrev pub parsed : String → Option M → Result RecordError (Option M)
  parsed s none = err (bad_moment s)
  parsed s (some t) = ok (some t)

  -- `_moment`
  abbrev pub moment : Option String → Result RecordError (Option M)
  moment none = ok none
  moment (some s) = parsed s (from_iso s)

  -- `duration_ms`
  abbrev pub duration_ms : Option M → Option M → Json
  duration_ms (some s) (some f) = between s f
  duration_ms _ _ = null

  module _ {V : Type 0} (plain : V → Option Json) (repr : V → String) where
    abbrev pub safe_value : V → Option Json → Json × Bool
    safe_value v (some j) = (j, false)
    safe_value v none = (text (repr v), true)

    -- `plain` is json.loads(json.dumps(value)), where that raises nothing
    abbrev pub json_safe : V → Json × Bool
    json_safe v = safe_value v (plain v)

    abbrev pub result_json : Option V → Json × Bool
    result_json none = (null, false)
    result_json (some v) = json_safe v

    -- `TaskRun.to_dict`
    unfoldable pub task_fields : TimedTask M V → Fields
    task_fields t = field "task" (text t.run.task) (
        field "status" (text (status_text t.run.status)) (
          field "level" (number t.run.level) (
            field "attempts" (number t.run.attempts) (
              field "result" (result_json t.run.result).0 (
                field "result_is_repr" (bool (t.run.result_is_repr || (result_json t.run.result).1))
                  (field "error" (text_json t.run.error) (
                    field "reason" (reason_json t.run.reason) (
                      field "idempotency_key" (text_json t.run.idempotency_key) (
                        field "started_at" (iso_json t.started_at) (
                          field "finished_at" (iso_json t.finished_at) (
                            field "duration_ms" (duration_ms t.started_at t.finished_at)
                              no_fields)))))))))))

    abbrev pub params_fields : Dict V → Fields
    params_fields [] = no_fields
    params_fields ((name, v) ∷ d) = field name (json_safe v).0 (params_fields d)

    unfoldable pub tasks_fields : Dict (TimedTask M V) → Fields
    unfolding task_fields
    tasks_fields [] = no_fields
    tasks_fields ((id, t) ∷ d) = field id (object (task_fields t)) (tasks_fields d)

    -- `PipelineRun.to_dict`
    unfoldable pub run_fields : TimedRun M V → Fields
    unfolding tasks_fields
    run_fields r = field "run_id" (text r.run_id) (
        field "pipeline" (text r.pipeline) (
          field "status" (text (run_status_text r.status)) (
            field "dry_run" (bool r.dry_run) (
              field "params" (object (params_fields r.params)) (
                field "started_at" (iso_json r.started_at) (
                  field "finished_at" (iso_json r.finished_at) (
                    field "error" (text_json r.error)
                      (field "tasks" (object (tasks_fields r.tasks)) no_fields))))))))

  -- `TaskRun.from_dict`
  unfoldable pub read_task : Fields → Result RecordError (TimedTask M Json)
  unfolding get
  read_task fs = required_text "task" (get "task" fs) >>= λ task.
      required_text "status" (get "status" fs) >>= λ word. status_named word >>= λ status.
      number_or_zero "level" (get "level" fs) >>= λ level.
      number_or_zero "attempts" (get "attempts" fs) >>= λ attempts.
      optional_text "error" (get "error" fs) >>= λ error.
      optional_text "reason" (get "reason" fs) >>= λ reason_word.
      optional_reason reason_word >>= λ reason.
      optional_text "idempotency_key" (get "idempotency_key" fs) >>= λ key.
      optional_text "started_at" (get "started_at" fs) >>= λ started.
      moment started >>= λ started_at.
      optional_text "finished_at" (get "finished_at" fs) >>= λ finished.
      moment finished >>= λ finished_at. ok (record {
        run = record {
          task = task;
          status = status;
          level = level;
          attempts = attempts;
          result = result_of (get "result" fs);
          error = error;
          reason = reason;
          idempotency_key = key;
          result_is_repr = flag (get "result_is_repr" fs);
        };
        started_at = started_at;
        finished_at = finished_at;
      })

  abbrev pub read_task_value : String → Json → Result RecordError (TimedTask M Json)
  read_task_value id (object fs) = read_task fs
  read_task_value id _ = err (other_type id)

  unfoldable pub read_tasks : Fields → Result RecordError (Dict (TimedTask M Json))
  unfolding read_task
  read_tasks no_fields = ok []
  read_tasks (field id j fs) =
      read_task_value id j >>= λ t. read_tasks fs >>= λ rest. ok ((id, t) ∷ rest)

  -- `PipelineRun.from_dict`
  unfoldable pub read_run : Fields → Result RecordError (TimedRun M Json)
  unfolding get read_tasks
  read_run fs = required_text "run_id" (get "run_id" fs) >>= λ run_id.
      required_text "pipeline" (get "pipeline" fs) >>= λ pipeline.
      required_text "status" (get "status" fs) >>= λ word. run_status_named word >>= λ status.
      mapping_of "params" (get "params" fs) >>= λ params.
      mapping_of "tasks" (get "tasks" fs) >>= λ states. read_tasks states >>= λ tasks.
      optional_text "started_at" (get "started_at" fs) >>= λ started.
      moment started >>= λ started_at.
      optional_text "finished_at" (get "finished_at" fs) >>= λ finished.
      moment finished >>= λ finished_at. optional_text "error" (get "error" fs) >>= λ error.
      ok (record {
        run_id = run_id;
        pipeline = pipeline;
        status = status;
        params = read_values params;
        dry_run = flag (get "dry_run" fs);
        tasks = tasks;
        started_at = started_at;
        finished_at = finished_at;
        error = error;
      })
