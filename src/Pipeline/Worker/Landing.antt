-- ===== src/Pipeline/Worker/Landing.antt =====
-- A thread whose work ends lands after a bounded number of steps.
use file_automation.Base.{ℕ, zero, suc, ◌+◌, ◌-◌, ◌*◌, ◌≤◌, true, ◌||◌, ◌≡◌, refl, arith}
use file_automation.Pipeline.Model.{TaskRun}
use file_automation.Pipeline.Worker.{
  Phase, checking, announcing, invoking, failing, recording, pausing, ending, landing, gone, Flight,
  Signal, go, ends, Outcome, returned, cancelled_by, raised, exited, finish, work,
}
use file_automation.Pipeline.Worker.Lock.{IsSound, work-IsSound}

-- the steps that a thread can still make, where `max` attempts are allowed
unfoldable pub steps_left : ℕ → Phase → ℕ
steps_left max (checking n) = 6 * (max - n) + 9
steps_left max (announcing n) = 6 * (max - n) + 8
steps_left max (invoking n) = 6 * (max - n) + 7
steps_left max (failing n e) = 6 * (max - n) + 6
steps_left max (recording n e) = 6 * (max - n) + 5
steps_left max (pausing n) = 6 * (max - n) + 4
steps_left max ending = 2
steps_left max landing = 1
steps_left max gone = 0

-- the thread's next step as its surroundings drive it: the work of each attempt ends as `outcomes`
-- says, and every other statement is carried out
unfoldable pub drive : {V : Type 0} → (ℕ → Outcome V) → ℕ → Phase → Signal V
drive outcomes now (invoking n) = ends (outcomes n)
drive outcomes now p = go now

-- the work of an attempt that ends leaves fewer steps
finish_step :
    {V : Type 0} (o : Outcome V) (n : ℕ) (f : Flight) (r : TaskRun V)
    → ((finish o (invoking n) f r).0.task ≡ f.task)
      × (steps_left f.task.retry.max_attempts (finish o (invoking n) f r).0.phase
          ≤ steps_left f.task.retry.max_attempts (invoking n) - 1)
unfolding finish steps_left
finish_step (returned v) n f r = ground arith
finish_step (cancelled_by e) n f r = ground arith
finish_step (raised e) n f r = ground arith
finish_step (exited e) n f r = ground arith

module _ {V : Type 0} (outcomes : ℕ → Outcome V) where
  drive_step :
      (now : ℕ) (p : Phase) (f : Flight) (r : TaskRun V)
      → f.phase ≡ p
      → IsSound f r
      → ((work (drive outcomes now f.phase) f r).0.task ≡ f.task)
        × (steps_left f.task.retry.max_attempts (work (drive outcomes now f.phase) f r).0.phase
            ≤ steps_left f.task.retry.max_attempts f.phase - 1)
  unfolding work drive steps_left
  drive_step now (checking n) f r e s = ground (arith, s)
  drive_step now (announcing n) f r e s = ground (arith, s)
  drive_step now (invoking n) f r e s = ground (arith, e, finish_step (outcomes n) n f r)
  drive_step now (failing n x) f r e s = ground (arith, s)
  drive_step now (recording n x) f r e s = ground (arith, s)
  drive_step now (pausing n) f r e s = ground (arith, s, s.attempt)
  drive_step now ending f r e s = ground (arith, s)
  drive_step now landing f r e s = ground (arith, s)
  drive_step now gone f r e s = ground (arith, s)

  -- `k` steps of the thread, with no step of the coordinator in between
  unfoldable pub run_thread : ℕ → ℕ → Flight → TaskRun V → Flight × TaskRun V
  unfolding work drive
  run_thread zero now f r = (f, r)
  run_thread (suc k) now f r =
      let (f', r') = work (drive outcomes now f.phase) f r in run_thread k now f' r'

  steps_left_zero : (max : ℕ) (p : Phase) → steps_left max p ≤ 0 → p ≡ gone
  unfolding steps_left
  steps_left_zero max gone h = refl
  steps_left_zero max p h = absurd (omega arith)

  -- A thread whose work ends in every attempt comes to its end within the steps that its phase and
  -- the policy leave, and its task then has an outcome or was given up.
  pub run_thread-gone :
      (k now : ℕ) (f : Flight) (r : TaskRun V)
      → IsSound f r
      → steps_left f.task.retry.max_attempts f.phase ≤ k
      → ((run_thread k now f r).0.phase ≡ gone)
        × (((run_thread k now f r).0.settled || (run_thread k now f r).0.abandoned) ≡ true)
  unfolding run_thread
  run_thread-gone zero now f r s h =
      let e = steps_left_zero f.task.retry.max_attempts f.phase h in (e, ground (arith, s, e))
  run_thread-gone (suc k) now f r s h =
      let (f', r') = work (drive outcomes now f.phase) f r in
      run_thread-gone k now f' r' (work-IsSound (drive outcomes now f.phase) f r s)
        (ground (arith, drive_step now f.phase f r refl s))
