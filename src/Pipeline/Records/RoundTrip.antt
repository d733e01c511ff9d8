-- ===== src/Pipeline/Records/RoundTrip.antt =====
-- pipeline/model.py: what comes back from a store is what went in.
use file_automation.Base.{
  String, Bool, true, false, ◌||◌, Option, none, some, [], ◌∷◌, Dict, ok, ◌≡◌, refl, arith,
}
use file_automation.Base.Json.{Json, null, bool, number, text, array, object}
use file_automation.Pipeline.Records.{TimedTask, TimedRun, result_of}
use file_automation.Pipeline.Records.Stored.{run_fields, read_run, safe_value, result_json}
use file_automation.Pipeline.Records.Reading.{
  kept_task, kept_tasks, kept_params, kept_run, read_run-kept_run,
}

module _ {V : Type 0} (plain : V → Option Json) (repr : V → String) where
  -- a value as it stands in a store: its JSON form, or a text where there is none
  pub data KeepsValue (v : V) : Json → Type 0 where
    held : (j : Json) → plain v ≡ some j → KeepsValue v j
    shown : plain v ≡ none → KeepsValue v (text (repr v))

  -- A task's result and its flag `result_is_repr`, before and after. A result whose JSON form is
  -- null is read as no result; a result that JSON cannot hold is a text and is flagged.
  pub data KeepsResult (flagged : Bool) : Option V → Option Json → Bool → Type 0 where
    no_result : KeepsResult flagged none none flagged
    null_result : (v : V) → plain v ≡ some null → KeepsResult flagged (some v) none flagged
    result :
        (v : V) (j : Json)
        → plain v ≡ some j
        → ¬ (j ≡ null)
        → KeepsResult flagged (some v) (some j) flagged
    shown_result :
        (v : V) → plain v ≡ none → KeepsResult flagged (some v) (some (text (repr v))) true

  pub data KeepsParams : Dict V → Dict Json → Type 0 where
    no_params : KeepsParams [] []
    param :
        (name : String) (v : V) (j : Json) (d : Dict V) (e : Dict Json)
        → KeepsValue v j
        → KeepsParams d e
        → KeepsParams ((name, v) ∷ d) ((name, j) ∷ e)

module _ {M V : Type 0} (plain : V → Option Json) (repr : V → String) where
  pub record KeepsTask (t : TimedTask M V) (k : TimedTask M Json) : Type 0 where
    pub task : k.run.task ≡ t.run.task
    pub status : k.run.status ≡ t.run.status
    pub level : k.run.level ≡ t.run.level
    pub attempts : k.run.attempts ≡ t.run.attempts
    pub result :
        KeepsResult plain repr t.run.result_is_repr t.run.result k.run.result k.run.result_is_repr
    pub error : k.run.error ≡ t.run.error
    pub reason : k.run.reason ≡ t.run.reason
    pub idempotency_key : k.run.idempotency_key ≡ t.run.idempotency_key
    pub started_at : k.started_at ≡ t.started_at
    pub finished_at : k.finished_at ≡ t.finished_at

  pub data KeepsTasks : Dict (TimedTask M V) → Dict (TimedTask M Json) → Type 0 where
    no_tasks : KeepsTasks [] []
    task :
        (id : String) (t : TimedTask M V) (k : TimedTask M Json) (d : Dict (TimedTask M V))
        (e : Dict (TimedTask M Json))
        → KeepsTask t k
        → KeepsTasks d e
        → KeepsTasks ((id, t) ∷ d) ((id, k) ∷ e)

  -- what a store keeps of a run
  pub record KeepsRun (r : TimedRun M V) (k : TimedRun M Json) : Type 0 where
    pub run_id : k.run_id ≡ r.run_id
    pub pipeline : k.pipeline ≡ r.pipeline
    pub status : k.status ≡ r.status
    pub params : KeepsParams plain repr r.params k.params
    pub dry_run : k.dry_run ≡ r.dry_run
    pub tasks : KeepsTasks r.tasks k.tasks
    pub started_at : k.started_at ≡ r.started_at
    pub finished_at : k.finished_at ≡ r.finished_at
    pub error : k.error ≡ r.error

or_false : (b : Bool) → (b || false) ≡ b
or_false true = refl
or_false false = refl

or_true : (b : Bool) → (b || true) ≡ true
or_true true = refl
or_true false = refl

module _ {M V : Type 0} (iso : M → String) (from_iso : String → Option M) (between : M → M → Json)
    (plain : V → Option Json) (repr : V → String) where
  value-KeepsValue :
      (v : V) (o : Option Json)
      → plain v ≡ o
      → KeepsValue plain repr v (safe_value iso from_iso between plain repr v o).0
  value-KeepsValue v none h = KeepsValue.shown h
  value-KeepsValue v (some j) h = KeepsValue.held j h

  params-KeepsParams :
      (d : Dict V) → KeepsParams plain repr d (kept_params iso from_iso between plain repr d)
  params-KeepsParams [] = KeepsParams.no_params
  params-KeepsParams ((name, v) ∷ d) =
      KeepsParams.param name v _ d _ (value-KeepsValue v (plain v) refl) (params-KeepsParams d)

  held-KeepsResult :
      (flagged : Bool) (v : V) (j : Json)
      → plain v ≡ some j
      → KeepsResult plain repr flagged (some v) (result_of (some j)) flagged
  held-KeepsResult flagged v null h = KeepsResult.null_result v h
  held-KeepsResult flagged v (bool b) h =
      KeepsResult.result v (bool b) h (λ e. absurd (ground arith))
  held-KeepsResult flagged v (number n) h =
      KeepsResult.result v (number n) h (λ e. absurd (ground arith))
  held-KeepsResult flagged v (text s) h =
      KeepsResult.result v (text s) h (λ e. absurd (ground arith))
  held-KeepsResult flagged v (array xs) h =
      KeepsResult.result v (array xs) h (λ e. absurd (ground arith))
  held-KeepsResult flagged v (object fs) h =
      KeepsResult.result v (object fs) h (λ e. absurd (ground arith))

  safe-KeepsResult :
      (flagged : Bool) (v : V) (o : Option Json)
      → plain v ≡ o
      → KeepsResult plain repr flagged
          (some v)
          (result_of (some (safe_value iso from_iso between plain repr v o).0))
          (flagged || (safe_value iso from_iso between plain repr v o).1)
  safe-KeepsResult flagged v none h = rw (or_true flagged) (KeepsResult.shown_result v h)
  safe-KeepsResult flagged v (some j) h = rw (or_false flagged) (held-KeepsResult flagged v j h)

  result-KeepsResult :
      (flagged : Bool) (o : Option V)
      → KeepsResult plain repr flagged o
          (result_of (some (result_json iso from_iso between plain repr o).0))
          (flagged || (result_json iso from_iso between plain repr o).1)
  result-KeepsResult flagged none = rw (or_false flagged) KeepsResult.no_result
  result-KeepsResult flagged (some v) = safe-KeepsResult flagged v (plain v) refl

  task-KeepsTask :
      (t : TimedTask M V) → KeepsTask plain repr t (kept_task iso from_iso between plain repr t)
  task-KeepsTask t = record {
    task = refl;
    status = refl;
    level = refl;
    attempts = refl;
    result = result-KeepsResult t.run.result_is_repr t.run.result;
    error = refl;
    reason = refl;
    idempotency_key = refl;
    started_at = refl;
    finished_at = refl;
  }

  tasks-KeepsTasks :
      (d : Dict (TimedTask M V))
      → KeepsTasks plain repr d (kept_tasks iso from_iso between plain repr d)
  tasks-KeepsTasks [] = KeepsTasks.no_tasks
  tasks-KeepsTasks ((id, t) ∷ d) =
      KeepsTasks.task id t _ d _ (task-KeepsTask t) (tasks-KeepsTasks d)

  run-KeepsRun :
      (r : TimedRun M V) → KeepsRun plain repr r (kept_run iso from_iso between plain repr r)
  run-KeepsRun r = record {
    run_id = refl;
    pipeline = refl;
    status = refl;
    params = params-KeepsParams r.params;
    dry_run = refl;
    tasks = tasks-KeepsTasks r.tasks;
    started_at = refl;
    finished_at = refl;
    error = refl;
  }

  -- A run that is written by `to_dict` is read back by `from_dict` without an error, and everything
  -- is what it was but the results and the parameters: the tasks in their order with their records,
  -- the statuses and the time stamps. A parameter is its JSON form, or the text that `repr` gives
  -- where JSON cannot hold it. A result is its JSON form, with null as no result and with the flag
  -- `result_is_repr` as it was; where JSON cannot hold it, it is the text and the flag is set.
  -- `fromisoformat` reads what `isoformat` writes.
  pub read_run-run_fields :
      (r : TimedRun M V)
      → ((t : M) → from_iso (iso t) ≡ some t)
      → (k : TimedRun M Json) × (read_run iso from_iso between
            (run_fields iso from_iso between plain repr r)
          ≡ ok k)
        × KeepsRun plain repr r k
  read_run-run_fields r reads = (
    kept_run iso from_iso between plain repr r,
    read_run-kept_run iso from_iso between plain repr reads r,
    run-KeepsRun r,
  )
