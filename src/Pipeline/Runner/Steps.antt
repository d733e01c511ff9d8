-- ===== src/Pipeline/Runner/Steps.antt =====
-- pipeline/runner.py: the steps of a run, by the coordinator, the threads and the caller.
use file_automation.Base.{
  ℕ, String, Bool, true, false, not, ◌&&◌, Option, none, some, List, [], ◌∷◌, ◌++◌, length, filter,
  ltb, ◌==◌, if◌then◌else◌, update,
}
use file_automation.Pipeline.Model.{is_final, RunStatus, Task, TaskRun}
use file_automation.Pipeline.Worker.{Flight, Phase, gone, Signal, work}
use file_automation.Pipeline.Runner.{
  Plan, World, Engine, Control, looping, observing, admitting, launching, awaiting, expiring,
  concluding, ended, task_named,
}
use file_automation.Pipeline.Runner.Moves.{
  at_control, observe_cancel, admit_one, launch_one, take_landing, expire_one, conclude, abort,
}

abbrev pub is_gone : Phase → Bool
is_gone gone = true
is_gone _ = false

abbrev pub is_empty : List String → Bool
is_empty [] = true
is_empty (x ∷ xs) = false

module _ {V : Type 0} where
  -- a statement of a task's thread; the last one puts the task's ID into the inbox
  abbrev pub worked : String → Flight → Flight × TaskRun V → Engine V → Engine V
  worked id f (f', r') e = record e {
    threads = update e.threads id (some f');
    states = update e.states id r';
    inbox = (if is_gone f'.phase && not (is_gone f.phase) then e.inbox ++ id ∷ [] else e.inbox);
  }

  abbrev pub thread_step : String → Signal V → Option Flight → Engine V → Engine V
  thread_step id s none e = e
  thread_step id s (some f) e = worked id f (work s f (e.states id)) e

  abbrev pub admit_next : Plan → World V → String → List String → Option Task → Engine V → Engine V
  admit_next plan world id rest none e = record e { ready = rest }
  admit_next plan world id rest (some task) e = admit_one plan world task rest e

  abbrev pub launch_next : String → List String → Option Task → Engine V → Engine V
  launch_next id rest none e = record e { waiting = rest }
  launch_next id rest (some task) e = launch_one task rest e

  abbrev pub admit_round : Plan → World V → List String → Engine V → Engine V
  admit_round plan world [] e = at_control launching e
  admit_round plan world (id ∷ rest) e = admit_next plan world id rest (task_named plan.tasks id) e

  abbrev pub after_launches : Engine V → Engine V
  after_launches e = at_control (if is_empty e.flights then looping else awaiting) e

  abbrev pub launch_round : Plan → List String → Engine V → Engine V
  launch_round plan [] e = after_launches e
  launch_round plan (id ∷ rest) e =
      if ltb (length e.flights) plan.max_workers
      then launch_next id rest (task_named plan.tasks id) e
      else after_launches e

  -- the coordinator's next step, at a reading of the clock
  unfoldable pub coordinate : Plan → World V → ℕ → Control → Engine V → Engine V
  coordinate plan world now looping e =
      at_control
        (if is_empty e.ready && is_empty e.waiting && is_empty e.flights
          then concluding
          else observing)
        e
  coordinate plan world now observing e = at_control admitting (observe_cancel plan e)
  coordinate plan world now admitting e = admit_round plan world e.ready e
  coordinate plan world now launching e = launch_round plan e.waiting e
  coordinate plan world now awaiting e =
      let e' = take_landing plan e in at_control (expiring now e'.flights) e'
  coordinate plan world now (expiring at []) e = at_control looping e
  coordinate plan world now (expiring at (id ∷ rest)) e =
      at_control (expiring at rest) (expire_one plan at id e)
  coordinate plan world now concluding e = conclude plan e
  coordinate plan world now ended e = e

-- the handler in `execute`, while there is something to interrupt
unfoldable pub interrupt_at : {V : Type 0} → Plan → String → Control → Engine V → Engine V
interrupt_at plan text ended e = e
interrupt_at plan text _ e = abort plan text e

-- One step of the run: the coordinator's, a thread's, the caller's `run.cancel()`, or an exception
-- that interrupts the coordinator.
pub data Step (V : Type 0) : Type 0 where
  coordinator : World V → ℕ → Step V
  thread : String → Signal V → Step V
  cancel_run : Step V
  interrupted : String → Step V

unfoldable pub step : {V : Type 0} → Plan → Step V → Engine V → Engine V
unfolding coordinate interrupt_at
step plan (coordinator world now) e = coordinate plan world now e.control e
step plan (thread id s) e = thread_step id s (e.threads id) e
step plan cancel_run e = record e { cancel_token = true }
step plan (interrupted text) e = interrupt_at plan text e.control e

-- `_prepare`: what of a run is still to do, where `states` are the records that it starts from
unfoldable pub open_dependencies : {V : Type 0} → (String → TaskRun V) → Task → List String
open_dependencies states task = filter (λ d. not (is_final (states d).status)) task.depends_on

abbrev pub open_count : {V : Type 0} → (String → TaskRun V) → Option Task → ℕ
open_count states none = 0
open_count states (some task) = length (open_dependencies states task)

unfoldable pub first_ready : {V : Type 0} → (String → TaskRun V) → List Task → List String
unfolding open_dependencies
first_ready states [] = []
first_ready states (t ∷ ts) =
    let rest = first_ready states ts in
    if length (open_dependencies states t) == 0 && not (is_final (states t.task_id).status)
    then t.task_id ∷ rest
    else rest

unfoldable pub prepare : {V : Type 0} → Plan → (String → TaskRun V) → Engine V
unfolding first_ready
prepare plan states = record {
  states = states;
  blocked = λ id. open_count states (task_named plan.tasks id);
  ready = first_ready states plan.tasks;
  waiting = [];
  flights = [];
  threads = λ id. none;
  inbox = [];
  cancel_token = false;
  cancel_seen = false;
  control = looping;
  status = RunStatus.running;
  error = none;
}

-- the run after any sequence of steps
unfoldable pub run : {V : Type 0} → Plan → List (Step V) → Engine V → Engine V
unfolding step
run plan [] e = e
run plan (s ∷ ss) e = run plan ss (step plan s e)
