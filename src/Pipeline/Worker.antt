-- ===== src/Pipeline/Worker.antt =====
-- pipeline/worker.py: a task on a thread of its own. A thread is a phase, and `work` makes its next
-- step: a block under the flight's lock is one step, and so is each reading of the cancellation
-- token outside it, so the coordinator's steps come in between. `flight.state` is the run's own
-- record of the task, so it is passed along. Events, checkpoints and time stamps are left out.
pub mod Lock
pub mod Landing
mod Tests
use file_automation.Base.{
  ℕ, ◌+◌, String, Bool, true, false, not, ◌||◌, Option, none, some, leb, if◌then◌else◌,
}
use file_automation.Pipeline.Model.{
  TaskStatus, succeeded, failed, cancelled, Error, describe_error, retries, Task, TaskRun,
}

-- where a thread stands: before `_begin` and inside it, in the task's own work, in `_try_again`
-- before and inside its locked block, in the back-off, and behind `_attempts`
pub data Phase : Type 0 where
  checking announcing invoking : ℕ → Phase
  failing recording : ℕ → Error → Phase
  pausing : ℕ → Phase
  ending landing gone : Phase

pub record Flight : Type 0 where
  pub task : Task
  pub token : Bool
  pub deadline : Option ℕ
  pub settled : Bool
  pub abandoned : Bool
  pub phase : Phase

-- how the task's own work ends
pub data Outcome (V : Type 0) : Type 0 where
  returned : V → Outcome V
  cancelled_by raised exited : Error → Outcome V

-- What makes a thread go on: its next statement, at a reading of the clock; the end of the work;
-- a failure of the runtime under the statement, such as a store that raises.
pub data Signal (V : Type 0) : Type 0 where
  go : ℕ → Signal V
  ends : Outcome V → Signal V
  breaks : ℕ → Signal V

abbrev pub no_outcome : String
no_outcome = "PipelineException: the task ended without an outcome"

abbrev pub first_deadline : ℕ → Option ℕ → Option ℕ → Option ℕ
first_deadline now none (some timeout) = some (now + timeout)
first_deadline now deadline timeout = deadline

abbrev pub at_phase : Phase → Flight → Flight
at_phase p f = record f { phase = p }

module _ {V : Type 0} where
  -- a settled or abandoned flight is left alone
  unfoldable pub settle :
      TaskStatus → Option V → Option String → Flight → TaskRun V → Flight × TaskRun V
  settle status result error f r = if f.settled || f.abandoned then (f, r) else (
    record f { settled = true },
    record r { status = status; result = result; error = error },
  )

  abbrev pub then_phase : Phase → Flight × TaskRun V → Flight × TaskRun V
  then_phase p (f, r) = (at_phase p f, r)

  -- the next statement of the thread
  unfoldable pub advance : ℕ → Phase → Flight → TaskRun V → Flight × TaskRun V
  unfolding settle
  advance now (checking attempt) f r =
      if f.token
      then then_phase ending (settle cancelled none r.error f r)
      else (at_phase (announcing attempt) f, r)
  advance now (announcing attempt) f r = if f.abandoned then (at_phase ending f, r) else (
    record f { deadline = first_deadline now f.deadline f.task.timeout; phase = invoking attempt },
    record r { attempts = attempt },
  )
  advance now (invoking attempt) f r = (f, r)
  advance now (failing attempt error) f r =
      if leb f.task.retry.max_attempts attempt || not (retries f.task.retry error)
      then then_phase ending (settle failed none (some (describe_error error)) f r)
      else if f.token
      then then_phase ending (settle cancelled none (some (describe_error error)) f r)
      else (at_phase (recording attempt error) f, r)
  advance now (recording attempt error) f r =
      if f.abandoned
      then (at_phase ending f, r)
      else (at_phase (pausing attempt) f, record r { error = some (describe_error error) })
  advance now (pausing attempt) f r = (at_phase (checking (attempt + 1)) f, r)
  advance now ending f r = then_phase landing (settle failed none (some no_outcome) f r)
  advance now landing f r = (at_phase gone f, r)
  advance now gone f r = (f, r)

  -- the end of the work that `_invoke` does in an attempt
  unfoldable pub finish : Outcome V → Phase → Flight → TaskRun V → Flight × TaskRun V
  unfolding settle
  finish (returned v) (invoking attempt) f r =
      then_phase ending (settle succeeded (some v) none f r)
  finish (cancelled_by e) (invoking attempt) f r =
      then_phase ending (settle cancelled none (some (describe_error e)) f r)
  finish (raised e) (invoking attempt) f r = (at_phase (failing attempt e) f, r)
  finish (exited e) (invoking attempt) f r =
      then_phase ending (settle failed none (some (describe_error e)) f r)
  finish _ _ f r = (f, r)

  -- the handler of `_fly`: what is left is the last call of `_settle`
  abbrev pub broken : Flight × TaskRun V → Flight × TaskRun V
  broken (f, r) = elim f.phase [ landing ↦ (f, r) | gone ↦ (f, r) | _ ↦ (at_phase ending f, r) ]

  unfoldable pub work : Signal V → Flight → TaskRun V → Flight × TaskRun V
  unfolding advance finish
  work (go now) f r = advance now f.phase f r
  work (ends o) f r = finish o f.phase f r
  work (breaks now) f r = broken (advance now f.phase f r)

-- what the coordinator makes of a flight: the token is set, or the flight is given up
unfoldable pub cancel : Flight → Flight
cancel f = record f { token = true }

-- the locked block of `_expire`: a flight that has settled is on its way and is kept
unfoldable pub abandon : Flight → Flight
abandon f = if f.settled then f else record f { abandoned = true; token = true }
