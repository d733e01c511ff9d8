-- ===== src/Pipeline/Runner/Moves.antt =====
-- pipeline/runner.py: what the coordinator does in one round of each of its loops.
use mathlib.Core.Option
use file_automation.Base.{
  ℕ, ◌-◌, String, str_eq, Bool, true, false, not, ◌&&◌, ◌||◌, Option, none, some, List, [], ◌∷◌,
  ◌++◌, any, filter, elem, leb, ◌==◌, if◌then◌else◌, update,
}
use file_automation.Pipeline.Model.{
  running, timeout, cancelled, is_final, is_failure, RunStatus, Task, TaskRun,
}
use file_automation.Pipeline.Worker.{Flight, checking, cancel, abandon}
use file_automation.Pipeline.Runner.{
  Plan, World, Engine, Verdict, Control, ended, RunError, was_cancelled, did_not_succeed, aborted,
  is_pending, is_cancelled, ids, dependents, end_unstarted,
}
use file_automation.Pipeline.Runner.Gate.{gate}

abbrev pub is_due : ℕ → Option ℕ → Bool
is_due now none = false
is_due now (some deadline) = leb deadline now

module _ {V : Type 0} where
  -- one round of `_release`: `blocked` falls by one, and at zero a pending task is ready
  unfoldable pub release_one : String → Engine V → Engine V
  release_one dependent e =
      let b = e.blocked dependent in
      record e {
        blocked = update e.blocked dependent (b - 1);
        ready =
            (if b == 1 && is_pending (e.states dependent).status
              then e.ready ++ dependent ∷ []
              else e.ready);
      }

  unfoldable pub release_all : List String → Engine V → Engine V
  unfolding release_one
  release_all [] e = e
  release_all (d ∷ ds) e = release_all ds (release_one d e)

  unfoldable pub release : Plan → String → Engine V → Engine V
  unfolding release_all dependents
  release plan id e = release_all (dependents plan.tasks id) e

  abbrev pub at_control : Control → Engine V → Engine V
  at_control c e = record e { control = c }

  -- `_observe_cancel`: what is not started is cancelled, what is in the air is told
  unfoldable pub observe_cancel : Plan → Engine V → Engine V
  unfolding cancel
  observe_cancel plan e = if e.cancel_seen || not e.cancel_token then e else record e {
    states = λ id.
        if elem id (ids plan.tasks) && is_pending (e.states id).status
        then end_unstarted (record { status = cancelled; reason = none; error = none })
            (e.states id)
        else e.states id;
    ready = [];
    waiting = [];
    threads = λ id. if elem id e.flights then Option.map cancel (e.threads id) else e.threads id;
    cancel_seen = true;
  }

  -- one round of `_admit`, for the task at the head of `ready`
  abbrev pub admitted : Plan → String → TaskRun V × Option Verdict → Engine V → Engine V
  admitted plan id (r, none) e = record e {
    states = update e.states id r;
    waiting = e.waiting ++ id ∷ [];
  }
  admitted plan id (r, some v) e =
      release plan id (record e { states = update e.states id (end_unstarted v r) })

  unfoldable pub admit_one : Plan → World V → Task → List String → Engine V → Engine V
  unfolding release gate
  admit_one plan world task rest e =
      admitted plan task.task_id (gate plan world e task (e.states task.task_id))
        (record e { ready = rest })

  -- one round of `_launch`, for the task at the head of `waiting`
  unfoldable pub launch_one : Task → List String → Engine V → Engine V
  launch_one task rest e = record e {
    waiting = rest;
    states = update e.states task.task_id (record (e.states task.task_id) { status = running });
    threads = update e.threads task.task_id (
        some (record {
          task = task;
          token = false;
          deadline = none;
          settled = false;
          abandoned = false;
          phase = checking 1;
        }));
    flights = e.flights ++ task.task_id ∷ [];
  }

  -- the first half of `_await`: a landing is taken from the inbox, if there is one
  abbrev pub landed : Plan → List String → Engine V → Engine V
  landed plan [] e = e
  landed plan (id ∷ rest) e =
      if elem id e.flights
      then release plan id
          (record e { inbox = rest; flights = filter (λ other. not (str_eq other id)) e.flights })
      else record e { inbox = rest }

  unfoldable pub take_landing : Plan → Engine V → Engine V
  unfolding release
  take_landing plan e = landed plan e.inbox e

  -- `_time_out`; its text, which goes on with the seconds of the time limit, is cut short
  abbrev pub timed_out : TaskRun V → TaskRun V
  timed_out r = record r { status = timeout; error = some "TimeoutError" }

  -- one round of `_expire`, for a flight in the list that it went out from
  abbrev pub expired : Plan → ℕ → String → Option Flight → Engine V → Engine V
  expired plan now id none e = e
  expired plan now id (some f) e =
      if is_due now f.deadline && not f.settled
      then release plan id (record e {
        flights = filter (λ other. not (str_eq other id)) e.flights;
        threads = update e.threads id (some (abandon f));
        states = update e.states id (timed_out (e.states id));
      })
      else e

  unfoldable pub expire_one : Plan → ℕ → String → Engine V → Engine V
  unfolding release abandon
  expire_one plan now id e = expired plan now id (e.threads id) e

  -- `_close`
  abbrev pub close : RunStatus → Option RunError → Engine V → Engine V
  close status error e = record e { status = status; error = error; control = ended }

  -- `_conclude`, from the tasks that have failed
  abbrev pub concluded : List String → Engine V → Engine V
  concluded [] e = close RunStatus.succeeded none e
  concluded (id ∷ more) e = close RunStatus.failed (some (did_not_succeed (id ∷ more))) e

  unfoldable pub conclude : Plan → Engine V → Engine V
  conclude plan e =
      let broken = filter (λ id. is_failure (e.states id).status) (ids plan.tasks) in
      let stopped = any (λ id. is_cancelled (e.states id).status) (ids plan.tasks) in
      if e.cancel_seen && stopped
      then close RunStatus.cancelled (some was_cancelled) e
      else concluded broken e

  -- `_abort`: flights that have not settled are given up, and nothing is left unfinished
  unfoldable pub abort : Plan → String → Engine V → Engine V
  unfolding cancel
  abort plan text e = close RunStatus.failed (some (aborted text)) (record e {
    threads = λ id.
        if elem id e.flights
        then Option.map (λ f. cancel (record f { abandoned = not f.settled })) (e.threads id)
        else e.threads id;
    states = λ id.
        if elem id (ids plan.tasks) && not (is_final (e.states id).status)
        then record (e.states id) { status = cancelled }
        else e.states id;
  })
