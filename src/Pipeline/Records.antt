-- ===== src/Pipeline/Records.antt =====
-- pipeline/model.py: the records of a run as they go to a store and come back, `to_dict` and
-- `from_dict`. Where a stored field has another type than it is written with, the model has an error.
pub mod Stored
mod Reading
pub mod RoundTrip
mod Tests
use file_automation.Base.{
  ℕ, String, str_eq, Bool, true, false, not, ◌&&◌, ◌||◌, Option, none, some, List, [], ◌∷◌, Dict,
  ◌==◌, if◌then◌else◌, Result, ok, err, ◌>>=◌,
}
use file_automation.Base.Json.{
  Json, Items, Fields, null, bool, number, text, array, object, no_items, item, no_fields, field,
}
use file_automation.Pipeline.Model.{
  TaskStatus, pending, running, succeeded, failed, skipped, timeout, cancelled, planned, RunStatus,
  Reason, idempotent, condition, upstream_failed, upstream_skipped, TaskRun,
}

-- a task's record with its time stamps, which are of type `M`
pub record TimedTask (M V : Type 0) : Type 0 where
  pub run : TaskRun V
  pub started_at : Option M
  pub finished_at : Option M

pub record TimedRun (M V : Type 0) : Type 0 where
  pub run_id : String
  pub pipeline : String
  pub status : RunStatus
  pub params : Dict V
  pub dry_run : Bool
  pub tasks : Dict (TimedTask M V)
  pub started_at : Option M
  pub finished_at : Option M
  pub error : Option String

pub data RecordError : Type 0 where
  missing : String → RecordError
  unknown_word : String → RecordError
  bad_moment : String → RecordError
  other_type : String → RecordError

abbrev pub status_text : TaskStatus → String
status_text pending = "pending"
status_text running = "running"
status_text succeeded = "succeeded"
status_text failed = "failed"
status_text skipped = "skipped"
status_text timeout = "timeout"
status_text cancelled = "cancelled"
status_text planned = "planned"

-- TaskStatus(word)
abbrev pub status_named : String → Result RecordError TaskStatus
status_named s =
    if str_eq s "pending"
    then ok pending
    else if str_eq s "running"
    then ok running
    else if str_eq s "succeeded"
    then ok succeeded
    else if str_eq s "failed"
    then ok failed
    else if str_eq s "skipped"
    then ok skipped
    else if str_eq s "timeout"
    then ok timeout
    else if str_eq s "cancelled"
    then ok cancelled
    else if str_eq s "planned"
    then ok planned
    else err (unknown_word s)

abbrev pub run_status_text : RunStatus → String
run_status_text RunStatus.running = "running"
run_status_text RunStatus.succeeded = "succeeded"
run_status_text RunStatus.failed = "failed"
run_status_text RunStatus.cancelled = "cancelled"

-- RunStatus(word)
abbrev pub run_status_named : String → Result RecordError RunStatus
run_status_named s =
    if str_eq s "running"
    then ok RunStatus.running
    else if str_eq s "succeeded"
    then ok RunStatus.succeeded
    else if str_eq s "failed"
    then ok RunStatus.failed
    else if str_eq s "cancelled"
    then ok RunStatus.cancelled
    else err (unknown_word s)

abbrev pub reason_text : Reason → String
reason_text idempotent = "idempotent"
reason_text condition = "condition"
reason_text upstream_failed = "upstream_failed"
reason_text upstream_skipped = "upstream_skipped"

abbrev pub reason_named : String → Result RecordError (Option Reason)
reason_named s =
    if str_eq s "idempotent"
    then ok (some idempotent)
    else if str_eq s "condition"
    then ok (some condition)
    else if str_eq s "upstream_failed"
    then ok (some upstream_failed)
    else if str_eq s "upstream_skipped"
    then ok (some upstream_skipped)
    else err (unknown_word s)

-- a text or None, as JSON
abbrev pub text_json : Option String → Json
text_json none = null
text_json (some s) = text s

abbrev pub reason_json : Option Reason → Json
reason_json none = null
reason_json (some r) = text (reason_text r)

-- record.get(key)
unfoldable pub get : String → Fields → Option Json
get key no_fields = none
get key (field k j fs) = if str_eq k key then some j else get key fs

-- record[key], where a text is expected
abbrev pub required_text : String → Option Json → Result RecordError String
required_text key none = err (missing key)
required_text key (some (text s)) = ok s
required_text key (some _) = err (other_type key)

abbrev pub optional_text : String → Option Json → Result RecordError (Option String)
optional_text key none = ok none
optional_text key (some (null)) = ok none
optional_text key (some (text s)) = ok (some s)
optional_text key (some _) = err (other_type key)

-- int(record.get(key, 0))
abbrev pub number_or_zero : String → Option Json → Result RecordError ℕ
number_or_zero key none = ok 0
number_or_zero key (some (number n)) = ok n
number_or_zero key (some _) = err (other_type key)

-- bool(value)
abbrev pub truthy : Json → Bool
truthy (null) = false
truthy (bool b) = b
truthy (number n) = not (n == 0)
truthy (text s) = not (str_eq s "")
truthy (array no_items) = false
truthy (array (item j js)) = true
truthy (object no_fields) = false
truthy (object (field k j fs)) = true

-- bool(record.get(key, False))
abbrev pub flag : Option Json → Bool
flag none = false
flag (some j) = truthy j

-- None and a missing key are the same to `get`
abbrev pub result_of : Option Json → Option Json
result_of none = none
result_of (some (null)) = none
result_of (some j) = some j

abbrev pub optional_reason : Option String → Result RecordError (Option Reason)
optional_reason none = ok none
optional_reason (some s) = reason_named s

-- dict(record.get(key) or {})
abbrev pub mapping_of : String → Option Json → Result RecordError Fields
mapping_of key none = ok no_fields
mapping_of key (some (object fs)) = ok fs
mapping_of key (some j) = if truthy j then err (other_type key) else ok no_fields

abbrev pub read_values : Fields → Dict Json
read_values no_fields = []
read_values (field k j fs) = (k, j) ∷ read_values fs
