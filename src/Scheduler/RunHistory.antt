-- ===== src/Scheduler/RunHistory.antt =====
-- scheduler/runs.py: the record of one firing of a job, and the latest records of a scheduler. A moment
-- is a number of the clock's units. `wait` and `settle` are about threads that wait and are left out.
mod Newest
pub mod Latest
mod Tests
use file_automation.Base.{
  ℕ, zero, suc, ◌-◌, String, str_eq, Bool, true, false, not, ◌&&◌, ◌||◌, Option, none, some, List,
  [], ◌∷◌, ◌++◌, length, filter, reverse, ltb, if◌then◌else◌, Result, ok, err,
}
use file_automation.Base.Json.{Fields}

pub data RunState : Type 0 where
  scheduled started completed failed skipped timeout cancelled : RunState

abbrev pub is_final : RunState → Bool
is_final scheduled = false
is_final started = false
is_final _ = true

pub data TriggerKind : Type 0 where
  cron manual file event pipeline : TriggerKind

pub record JobRun : Type 0 where
  pub run_id : String
  pub job : String
  pub trigger : TriggerKind
  pub scheduled_at : ℕ
  pub target : String
  pub pipeline : Option String
  pub state : RunState
  pub started_at : Option ℕ
  pub finished_at : Option ℕ
  pub error : Option String
  pub reason : Option String
  pub correlation_id : String
  pub detail : Fields

-- `__post_init__`
abbrev pub with_correlation : JobRun → JobRun
with_correlation r = record r {
  correlation_id = (if str_eq r.correlation_id "" then r.run_id else r.correlation_id);
}

abbrev pub done : JobRun → Bool
done r = is_final r.state

abbrev pub close : RunState → ℕ → Option String → Option String → JobRun → JobRun
close state moment error reason r = record r {
  finished_at = some moment;
  error = error;
  reason = reason;
  state = state;
}

pub data HistoryError : Type 0 where
  bad_limit : HistoryError
  unknown_state : String → HistoryError

-- `as_run_state`, of a word
unfoldable pub as_run_state : String → Result HistoryError RunState
as_run_state s =
    if str_eq s "scheduled"
    then ok scheduled
    else if str_eq s "started"
    then ok started
    else if str_eq s "completed"
    then ok completed
    else if str_eq s "failed"
    then ok failed
    else if str_eq s "skipped"
    then ok skipped
    else if str_eq s "timeout"
    then ok timeout
    else if str_eq s "cancelled"
    then ok cancelled
    else err (unknown_state s)

abbrev pub same_state : RunState → RunState → Bool
same_state scheduled scheduled = true
same_state started started = true
same_state completed completed = true
same_state failed failed = true
same_state skipped skipped = true
same_state timeout timeout = true
same_state cancelled cancelled = true
same_state _ _ = false

-- the oldest record comes first
pub record RunHistory : Type 0 where
  pub limit : ℕ
  pub runs : List JobRun

unfoldable pub create : ℕ → Result HistoryError RunHistory
create limit = if ltb limit 1 then err bad_limit else ok (record { limit = limit; runs = [] })

abbrev pub drop : ℕ → List JobRun → List JobRun
drop zero rs = rs
drop (suc n) [] = []
drop (suc n) (r ∷ rs) = drop n rs

-- runs[:n]
abbrev pub take : ℕ → List JobRun → List JobRun
take zero rs = []
take (suc n) [] = []
take (suc n) (r ∷ rs) = r ∷ take n rs

-- append to a deque with `maxlen`
unfoldable pub add : JobRun → RunHistory → RunHistory
add r h = let grown = h.runs ++ r ∷ [] in record h { runs = drop (length grown - h.limit) grown }

abbrev pub clear : RunHistory → RunHistory
clear h = record h { runs = [] }

abbrev pub of_job : Option String → JobRun → Bool
of_job none r = true
of_job (some job) r = str_eq r.job job

abbrev pub in_state : Option RunState → JobRun → Bool
in_state none r = true
in_state (some state) r = same_state r.state state

abbrev pub matching : Option String → Option RunState → ℕ → List JobRun → List JobRun
matching job wanted limit runs =
    take limit (filter (λ r. of_job job r && in_state wanted r) (reverse runs))

-- the state that is asked for, as a word
abbrev pub wanted_state : Option String → Result HistoryError (Option RunState)
wanted_state none = ok none
wanted_state (some word) = elim (as_run_state word) [ err e ↦ err e | ok s ↦ ok (some s) ]

abbrev pub answered :
    Option String
    → Result HistoryError (Option RunState)
    → ℕ
    → RunHistory
    → Result HistoryError (List JobRun)
answered job (err e) limit h = err e
answered job (ok wanted) limit h = ok (matching job wanted limit h.runs)

-- a negative limit counts as 0
unfoldable pub query :
    Option String → Option String → ℕ → RunHistory → Result HistoryError (List JobRun)
query job state limit h = answered job (wanted_state state) limit h

-- the calls that change a history
pub data Op : Type 0 where
  adding : JobRun → Op
  clearing : Op

abbrev pub step : Op → RunHistory → RunHistory
step (adding r) h = add r h
step clearing h = clear h

unfoldable pub steps : List Op → RunHistory → RunHistory
unfolding add
steps [] h = h
steps (op ∷ ops) h = steps ops (step op h)
