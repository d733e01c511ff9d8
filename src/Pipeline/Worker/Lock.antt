-- ===== src/Pipeline/Worker/Lock.antt =====
-- The lock of a flight: what a thread can still change in the record of its task.
use file_automation.Base.{ℕ, ◌≤◌, ◌<◌, Bool, true, false, ◌||◌, ◌&&◌, ◌≡◌, refl, arith}
use file_automation.Pipeline.Model.{running, is_final, TaskRun}
use file_automation.Pipeline.Worker.{
  Phase, checking, announcing, invoking, failing, recording, pausing, ending, landing, gone, Flight,
  Signal, go, ends, breaks, Outcome, returned, cancelled_by, raised, exited, advance, finish,
  broken, work, cancel,
}

-- behind the attempts
abbrev pub is_late : Phase → Bool
is_late ending = true
is_late landing = true
is_late gone = true
is_late _ = false

abbrev pub has_landed : Phase → Bool
has_landed landing = true
has_landed gone = true
has_landed _ = false

-- the attempt that a phase belongs to is one that the policy allows
abbrev pub WithinAttempts : ℕ → Phase → Type 0
WithinAttempts max (checking n) = (1 ≤ n) × (n ≤ max)
WithinAttempts max (announcing n) = (1 ≤ n) × (n ≤ max)
WithinAttempts max (invoking n) = (1 ≤ n) × (n ≤ max)
WithinAttempts max (failing n e) = (1 ≤ n) × (n ≤ max)
WithinAttempts max (recording n e) = (1 ≤ n) × (n < max)
WithinAttempts max (pausing n) = (1 ≤ n) × (n < max)
WithinAttempts max _ = Unit

-- What holds of a flight and its task's record between any two steps.
pub record IsSound {V : Type 0} (f : Flight) (r : TaskRun V) : Type 0 where
  pub exclusive : (f.settled && f.abandoned) ≡ false
  pub late : f.settled ≡ true → is_late f.phase ≡ true
  pub landed : has_landed f.phase ≡ true → (f.settled || f.abandoned) ≡ true
  pub open_running : f.settled ≡ false → f.abandoned ≡ false → r.status ≡ running
  pub settled_final : f.settled ≡ true → is_final r.status ≡ true
  pub attempt : WithinAttempts f.task.retry.max_attempts f.phase
  pub counted : r.attempts ≤ f.task.retry.max_attempts

module _ {V : Type 0} where
  advance-IsSound :
      (now : ℕ) (p : Phase) (f : Flight) (r : TaskRun V)
      → f.phase ≡ p
      → IsSound f r
      → IsSound (advance now p f r).0 (advance now p f r).1
  unfolding advance
  advance-IsSound now (checking n) f r e s = ground (arith, s)
  advance-IsSound now (announcing n) f r e s = ground (arith, s)
  advance-IsSound now (invoking n) f r e s = s
  advance-IsSound now (failing n x) f r e s = ground (arith, s)
  advance-IsSound now (recording n x) f r e s = ground (arith, s)
  advance-IsSound now (pausing n) f r e s = ground (arith, s)
  advance-IsSound now ending f r e s = ground (arith, s)
  advance-IsSound now landing f r e s = ground (arith, s)
  advance-IsSound now gone f r e s = s

  finish-IsSound :
      (o : Outcome V) (p : Phase) (f : Flight) (r : TaskRun V)
      → f.phase ≡ p
      → IsSound f r
      → IsSound (finish o p f r).0 (finish o p f r).1
  unfolding finish
  finish-IsSound (returned v) (invoking n) f r e s = ground (arith, s)
  finish-IsSound (cancelled_by x) (invoking n) f r e s = ground (arith, s)
  finish-IsSound (raised x) (invoking n) f r e s = ground (arith, s)
  finish-IsSound (exited x) (invoking n) f r e s = ground (arith, s)
  finish-IsSound _ _ f r e s = s

  broken-IsSound :
      (f : Flight) (r : TaskRun V) (p : Phase)
      → f.phase ≡ p
      → IsSound f r
      → IsSound (broken (f, r)).0 (broken (f, r)).1
  broken-IsSound f r landing e s = rw (e, broken) s
  broken-IsSound f r gone e s = rw (e, broken) s
  broken-IsSound f r _ e s = ground (arith, s)

  -- Whatever a thread does next, a flight and the record of its task stay in agreement: it is never
  -- both settled and abandoned, an open one is running, a settled one has a final status, a thread
  -- that has landed has an outcome, and no attempt is made beyond the policy's number.
  pub work-IsSound :
      (s : Signal V) (f : Flight) (r : TaskRun V)
      → IsSound f r
      → IsSound (work s f r).0 (work s f r).1
  unfolding work
  work-IsSound (go now) f r s = advance-IsSound now f.phase f r refl s
  work-IsSound (ends o) f r s = finish-IsSound o f.phase f r refl s
  work-IsSound (breaks now) f r s =
      let (f', r') = advance now f.phase f r in
      broken-IsSound f' r' f'.phase refl (advance-IsSound now f.phase f r refl s)

  pub cancel-IsSound : (f : Flight) (r : TaskRun V) → IsSound f r → IsSound (cancel f) r
  unfolding cancel
  cancel-IsSound f r s = ground (arith, s)

  advance_closed :
      (now : ℕ) (p : Phase) (f : Flight) (r : TaskRun V)
      → f.phase ≡ p
      → IsSound f r
      → (f.settled || f.abandoned) ≡ true
      → ((advance now p f r).1 ≡ r)
        × ((advance now p f r).0.settled ≡ f.settled)
        × ((advance now p f r).0.abandoned ≡ f.abandoned)
  unfolding advance
  advance_closed now (checking n) f r e s c = ground (arith, s)
  advance_closed now (announcing n) f r e s c = ground (arith, s)
  advance_closed now (invoking n) f r e s c = (refl, refl, refl)
  advance_closed now (failing n x) f r e s c = ground (arith, s)
  advance_closed now (recording n x) f r e s c = ground (arith, s)
  advance_closed now (pausing n) f r e s c = (refl, refl, refl)
  advance_closed now ending f r e s c = ground (arith, s)
  advance_closed now landing f r e s c = (refl, refl, refl)
  advance_closed now gone f r e s c = (refl, refl, refl)

  finish_closed :
      (o : Outcome V) (p : Phase) (f : Flight) (r : TaskRun V)
      → (f.settled || f.abandoned) ≡ true
      → ((finish o p f r).1 ≡ r)
        × ((finish o p f r).0.settled ≡ f.settled)
        × ((finish o p f r).0.abandoned ≡ f.abandoned)
  unfolding finish
  finish_closed (returned v) (invoking n) f r c = ground arith
  finish_closed (cancelled_by x) (invoking n) f r c = ground arith
  finish_closed (raised x) (invoking n) f r c = (refl, refl, refl)
  finish_closed (exited x) (invoking n) f r c = ground arith
  finish_closed _ _ f r c = (refl, refl, refl)

  broken_closed :
      (f : Flight) (r : TaskRun V)
      → ((broken (f, r)).1 ≡ r)
        × ((broken (f, r)).0.settled ≡ f.settled)
        × ((broken (f, r)).0.abandoned ≡ f.abandoned)
  broken_closed f r = ground arith

  -- The outcome of a task is recorded once: when its flight is settled or abandoned, nothing that
  -- its thread still does changes the task's record, and the flight stays settled or abandoned.
  pub work_closed :
      (s : Signal V) (f : Flight) (r : TaskRun V)
      → IsSound f r
      → (f.settled || f.abandoned) ≡ true
      → ((work s f r).1 ≡ r)
        × ((work s f r).0.settled ≡ f.settled)
        × ((work s f r).0.abandoned ≡ f.abandoned)
  unfolding work
  work_closed (go now) f r s c = advance_closed now f.phase f r refl s c
  work_closed (ends o) f r s c = finish_closed o f.phase f r c
  work_closed (breaks now) f r s c =
      let (f', r') = advance now f.phase f r in
      ground (arith, advance_closed now f.phase f r refl s c, broken_closed f' r')

  advance_abandoned :
      (now : ℕ) (p : Phase) (f : Flight) (r : TaskRun V)
      → (advance now p f r).0.abandoned ≡ f.abandoned
  unfolding advance
  advance_abandoned now (checking n) f r = ground arith
  advance_abandoned now (announcing n) f r = ground arith
  advance_abandoned now (failing n x) f r = ground arith
  advance_abandoned now (recording n x) f r = ground arith
  advance_abandoned now ending f r = ground arith
  advance_abandoned now _ f r = refl

  finish_abandoned :
      (o : Outcome V) (p : Phase) (f : Flight) (r : TaskRun V)
      → (finish o p f r).0.abandoned ≡ f.abandoned
  unfolding finish
  finish_abandoned (returned v) (invoking n) f r = ground arith
  finish_abandoned (cancelled_by x) (invoking n) f r = ground arith
  finish_abandoned (raised x) (invoking n) f r = refl
  finish_abandoned (exited x) (invoking n) f r = ground arith
  finish_abandoned _ _ f r = refl

  -- only the coordinator gives a flight up
  pub work_abandoned :
      (s : Signal V) (f : Flight) (r : TaskRun V) → (work s f r).0.abandoned ≡ f.abandoned
  unfolding work
  work_abandoned (go now) f r = advance_abandoned now f.phase f r
  work_abandoned (ends o) f r = finish_abandoned o f.phase f r
  work_abandoned (breaks now) f r =
      let (f', r') = advance now f.phase f r in
      ground (arith, advance_abandoned now f.phase f r, broken_closed f' r')
