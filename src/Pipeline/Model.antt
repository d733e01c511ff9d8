-- ===== src/Pipeline/Model.antt =====
-- pipeline/model.py: the statuses, the retry policy, the tasks and what is recorded of them. `V` is
-- the type of a task's result. The time stamps and the forms that go to a store are not modelled.
pub mod Policy
mod Tests
use Prim.Native.String.{◌++◌ as text_append}
use file_automation.Base.{
  ℕ, ◌-◌, ◌*◌, ◌^◌, min, String, str_eq, Bool, true, false, ◌&&◌, Option, none, some, List, [], ◌∷◌,
  any, elem, ltb, if◌then◌else◌, Result, ok, err,
}

pub data TaskStatus : Type 0 where
  pending running succeeded failed skipped timeout cancelled planned : TaskStatus

abbrev pub is_final : TaskStatus → Bool
is_final pending = false
is_final running = false
is_final _ = true

abbrev pub is_failure : TaskStatus → Bool
is_failure failed = true
is_failure timeout = true
is_failure cancelled = true
is_failure _ = false

pub data RunStatus : Type 0 where
  running succeeded failed cancelled : RunStatus

-- the `reason` of a skipped task
pub data Reason : Type 0 where
  idempotent condition upstream_failed upstream_skipped : Reason

-- An exception: the names of its class and of that class's bases, the class first, and its text.
pub record Error : Type 0 where
  pub kind : String
  pub bases : List String
  pub message : String

unfoldable pub describe_error : Error → String
describe_error e =
    if str_eq e.message "" then e.kind else text_append e.kind (text_append ": " e.message)

-- The waits are whole numbers of a unit of time, so that the two tests on their signs hold.
pub record RetryPolicy : Type 0 where
  pub max_attempts : ℕ
  pub backoff_base : ℕ
  pub backoff_cap : ℕ
  pub retry_on : List String

pub data PolicyError : Type 0 where
  bad_max_attempts : PolicyError

-- `__post_init__`, for values of the types that the fields are declared with
pub checked : RetryPolicy → Result PolicyError RetryPolicy
checked p = if ltb p.max_attempts 1 then err bad_max_attempts else ok p

abbrev pub max_backoff_exponent : ℕ
max_backoff_exponent = 62

unfoldable pub delay : RetryPolicy → ℕ → ℕ
delay p attempt = min p.backoff_cap (p.backoff_base * 2 ^ min (attempt - 1) max_backoff_exponent)

-- isinstance(error, self.retry_on)
unfoldable pub retries : RetryPolicy → Error → Bool
retries p e = any (λ kind. elem kind (e.kind ∷ e.bases)) p.retry_on

-- A `when`: one of the three words, or a callable, whose answers the run's surroundings give.
pub data When : Type 0 where
  on_success on_failure always asks : When

pub record Task : Type 0 where
  pub task_id : String
  pub depends_on : List String
  pub retry : RetryPolicy
  pub timeout : Option ℕ
  pub when : When
  pub idempotency_key : Option String

pub record TaskRun (V : Type 0) : Type 0 where
  pub task : String
  pub status : TaskStatus
  pub level : ℕ
  pub attempts : ℕ
  pub result : Option V
  pub error : Option String
  pub reason : Option Reason
  pub idempotency_key : Option String
  pub result_is_repr : Bool

abbrev pub by_idempotency : Option Reason → Bool
by_idempotency (some idempotent) = true
by_idempotency _ = false

abbrev pub counts : TaskStatus → Option Reason → Bool
counts succeeded reason = true
counts skipped reason = by_idempotency reason
counts _ reason = false

-- the property `satisfied`
abbrev pub satisfied : {V : Type 0} → TaskRun V → Bool
satisfied r = counts r.status r.reason
