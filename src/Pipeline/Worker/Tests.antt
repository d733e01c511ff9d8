-- ===== src/Pipeline/Worker/Tests.antt =====
-- A task with two attempts on its thread.
use file_automation.Base.{
  ℕ, ◌≤◌, ◌||◌, true, false, none, some, [], ◌∷◌, ◌≡◌, refl, arith, zero, suc,
}
use file_automation.Pipeline.Model.{
  Task, TaskRun, Error, running, succeeded, always, retries, describe_error,
}
use file_automation.Pipeline.Worker.{
  Flight, checking, invoking, gone, ends, Outcome, returned, raised, work, settle, advance, finish,
}
use file_automation.Pipeline.Worker.Lock.{IsSound, work-IsSound, work_closed}
use file_automation.Pipeline.Worker.Landing.{run_thread, drive, steps_left, run_thread-gone}

abbrev copy : Task
copy = record {
  task_id = "copy";
  depends_on = [];
  retry = record { max_attempts = 2; backoff_base = 1; backoff_cap = 8; retry_on = "OSError" ∷ [] };
  timeout = some 30;
  when = always;
  idempotency_key = none;
}

abbrev busy : Error
busy = record { kind = "PermissionError"; bases = "OSError" ∷ []; message = "in use" }

abbrev in_air : Flight
in_air = record {
  task = copy;
  token = false;
  deadline = none;
  settled = false;
  abandoned = false;
  phase = checking 1;
}

abbrev trying : Flight
trying = record in_air { deadline = some 40; phase = invoking 2 }

abbrev recorded : TaskRun ℕ
recorded = record {
  task = "copy";
  status = running;
  level = 0;
  attempts = 0;
  result = none;
  error = none;
  reason = none;
  idempotency_key = none;
  result_is_repr = false;
}

abbrev second : TaskRun ℕ
second = record recorded { attempts = 2 }

-- fails once, then copies
abbrev outcomes : ℕ → Outcome ℕ
outcomes (suc zero) = raised busy
outcomes _ = returned 7

in_air-IsSound : IsSound in_air recorded
in_air-IsSound = record {
  exclusive = refl;
  late = λ c. absurd (ground arith);
  landed = λ c. absurd (ground arith);
  open_running = λ c d. refl;
  settled_final = λ c. absurd (ground arith);
  attempt = (omega arith, omega arith);
  counted = omega arith;
}

trying-IsSound : IsSound trying second
trying-IsSound = record {
  exclusive = refl;
  late = λ c. absurd (ground arith);
  landed = λ c. absurd (ground arith);
  open_running = λ c d. refl;
  settled_final = λ c. absurd (ground arith);
  attempt = (omega arith, omega arith);
  counted = omega arith;
}

work-IsSound_example :
    IsSound (work (ends (returned 7)) trying second).0 (work (ends (returned 7)) trying second).1
work-IsSound_example = work-IsSound (ends (returned 7)) trying second trying-IsSound

abbrev given_up : Flight
given_up = record trying { abandoned = true; token = true }

given_up-IsSound : IsSound given_up second
given_up-IsSound = record {
  exclusive = refl;
  late = λ c. absurd (ground arith);
  landed = λ c. absurd (ground arith);
  open_running = λ c d. absurd (ground arith);
  settled_final = λ c. absurd (ground arith);
  attempt = (omega arith, omega arith);
  counted = omega arith;
}

work_closed_example :
    ((work (ends (returned 7)) given_up second).1 ≡ second)
    × ((work (ends (returned 7)) given_up second).0.settled ≡ false)
    × ((work (ends (returned 7)) given_up second).0.abandoned ≡ true)
work_closed_example = work_closed (ends (returned 7)) given_up second given_up-IsSound refl

enough : steps_left 2 (checking 1) ≤ 15
unfolding steps_left
enough = omega arith

run_thread-gone_example :
    ((run_thread outcomes 15 10 in_air recorded).0.phase ≡ gone)
    × (((run_thread outcomes 15 10 in_air recorded).0.settled
          || (run_thread outcomes 15 10 in_air recorded).0.abandoned)
        ≡ true)
run_thread-gone_example = run_thread-gone outcomes 15 10 in_air recorded in_air-IsSound enough

two_attempts :
    (run_thread outcomes 15 10 in_air recorded).1
    ≡ record second { status = succeeded; result = some 7 }
unfolding run_thread drive work settle advance finish retries describe_error
two_attempts = refl
