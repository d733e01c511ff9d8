-- ===== src/Pipeline/Runner/Tests.antt =====
-- A run of two tasks with one worker, where the second task waits for the first.
use file_automation.Base.{
  all, not, ◌↔◌, ℕ, zero, suc, ◌≤◌, true, false, String, str_eq, none, some, List, [], ◌∷◌, ◌++◌,
  ◌≡◌, refl, arith, ok, length, if◌then◌else◌,
}
use file_automation.Pipeline.Model.{
  Task, TaskRun, pending, is_final, is_failure, RunStatus, on_success,
}
use file_automation.Pipeline.Worker.{
  Flight, ending, go, ends, returned, work, settle, advance, finish,
}
use file_automation.Pipeline.Worker.Lock.{IsSound}
use file_automation.Pipeline.Runner.{Plan, World, ended, dependents}
use file_automation.Pipeline.Runner.Gate.{gate, gate_condition, results_for, seen_before}
use file_automation.Pipeline.Runner.Gate.Verdicts.{IsWanted, IsNew, gate-admits}
use file_automation.Pipeline.Runner.Moves.{
  release_one, release_all, release, observe_cancel, admit_one, launch_one, take_landing,
  expire_one, conclude, abort,
}
use file_automation.Pipeline.Runner.Steps.{
  Step, coordinator, thread, interrupted, step, run, prepare, first_ready, open_dependencies,
  coordinate, interrupt_at,
}
use file_automation.Pipeline.Runner.Consistent.{IsWorkable}
use file_automation.Pipeline.Runner.Final.{IsFresh, run-final, run-IsSound}
use file_automation.Pipeline.Runner.Conclusion.{conclude-succeeded}
use file_automation.Pipeline.Runner.Interrupted.{IsAborted, run-IsAborted}
use file_automation.Pipeline.Runner.Width.{is_ended, run-IsWithin}

abbrev load : Task
load = record {
  task_id = "load";
  depends_on = [];
  retry = record { max_attempts = 1; backoff_base = 0; backoff_cap = 0; retry_on = [] };
  timeout = none;
  when = on_success;
  idempotency_key = some "load-{day}";
}

abbrev report : Task
report = record load { task_id = "report"; depends_on = "load" ∷ []; idempotency_key = none }

abbrev plan : Plan
plan = record {
  tasks = load ∷ report ∷ [];
  upstream = λ id. if str_eq id "report" then "load" ∷ [] else [];
  max_workers = 1;
}

abbrev world : World ℕ
world = record {
  ask = λ id results. ok true;
  render_key = λ template. ok "load-friday";
  find_idempotent = λ id key. ok none;
}

abbrev fresh : String → TaskRun ℕ
fresh id = record {
  task = id;
  status = pending;
  level = 0;
  attempts = 0;
  result = none;
  error = none;
  reason = none;
  idempotency_key = none;
  result_is_repr = false;
}

plan-IsWorkable : IsWorkable plan
plan-IsWorkable = record {
  distinct = (refl, (refl, tt));
  attempts = (omega arith, (omega arith, tt));
}

fresh-IsFresh : IsFresh fresh
fresh-IsFresh x h = (refl, refl)

abbrev tick : Step ℕ
tick = coordinator world 0

-- the first task is launched: the loop's test, the cancellation, two rounds of `_admit`, one launch
abbrev launched : List (Step ℕ)
launched = tick ∷ tick ∷ tick ∷ tick ∷ tick ∷ []

-- its thread begins, and its work returns
abbrev worked : List (Step ℕ)
worked =
    launched
    ++ thread "load" (go 1) ∷ thread "load" (go 1) ∷ thread "load" (ends (returned 42)) ∷ []

worked-final : is_final ((run plan worked (prepare plan fresh)).states "load").status ≡ true
unfolding run step coordinate interrupt_at prepare first_ready open_dependencies observe_cancel
    admit_one launch_one take_landing expire_one conclude abort release release_all release_one
    dependents gate gate_condition results_for seen_before work settle advance finish
worked-final = refl

abbrev ticks : ℕ → List (Step ℕ)
ticks zero = []
ticks (suc n) = tick ∷ ticks n

-- both threads come to their ends
abbrev whole : List (Step ℕ)
whole =
    worked
    ++ thread "load" (go 2) ∷ thread "load" (go 2) ∷ []
    ++ ticks 12
    ++ thread "report" (go 3)
      ∷ thread "report" (go 3)
      ∷ thread "report" (ends (returned 43))
      ∷ thread "report" (go 4)
      ∷ thread "report" (go 4)
      ∷ []
    ++ ticks 14

whole-succeeded :
    ((run plan whole (prepare plan fresh)).control ≡ ended)
    × ((run plan whole (prepare plan fresh)).status ≡ RunStatus.succeeded)
    × (((run plan whole (prepare plan fresh)).states "report").result ≡ some 43)
unfolding run step coordinate interrupt_at prepare first_ready open_dependencies observe_cancel
    admit_one launch_one take_landing expire_one conclude abort release release_all release_one
    dependents gate gate_condition results_for seen_before work settle advance finish
whole-succeeded = (refl, refl, refl)

run-final_example :
    (run plan (interrupted "KeyboardInterrupt" ∷ []) (run plan worked (prepare plan fresh))).states
      "load"
    ≡ (run plan worked (prepare plan fresh)).states "load"
run-final_example =
    run-final plan fresh worked (interrupted "KeyboardInterrupt" ∷ []) "load" plan-IsWorkable
      fresh-IsFresh worked-final

abbrev landing_load : Flight
landing_load = record {
  task = load;
  token = false;
  deadline = none;
  settled = true;
  abandoned = false;
  phase = ending;
}

worked-flight : (run plan worked (prepare plan fresh)).threads "load" ≡ some landing_load
unfolding run step coordinate interrupt_at prepare first_ready open_dependencies observe_cancel
    admit_one launch_one take_landing expire_one conclude abort release release_all release_one
    dependents gate gate_condition results_for seen_before work settle advance finish
worked-flight = refl

run-IsSound_example : IsSound landing_load ((run plan worked (prepare plan fresh)).states "load")
run-IsSound_example =
    run-IsSound plan fresh worked "load" landing_load plan-IsWorkable fresh-IsFresh worked-flight

run-IsWithin_example : length (run plan worked (prepare plan fresh)).flights ≤ 1
run-IsWithin_example = run-IsWithin plan fresh worked

launched-awaiting : is_ended (run plan launched (prepare plan fresh)).control ≡ false
unfolding run step coordinate interrupt_at prepare first_ready open_dependencies observe_cancel
    admit_one launch_one take_landing expire_one conclude abort release release_all release_one
    dependents gate gate_condition results_for seen_before work settle advance finish
launched-awaiting = refl

-- the thread of the interrupted task goes on
abbrev late_landing : List (Step ℕ)
late_landing = thread "load" (go 1) ∷ thread "load" (go 1) ∷ thread "load" (ends (returned 42)) ∷ []

run-IsAborted_example :
    IsAborted plan "disk full"
      (run plan launched (prepare plan fresh))
      (run plan (launched ++ interrupted "disk full" ∷ late_landing) (prepare plan fresh))
run-IsAborted_example =
    run-IsAborted plan fresh launched late_landing "disk full" plan-IsWorkable fresh-IsFresh
      launched-awaiting

load-admitted : (gate plan world (prepare plan fresh) load (fresh "load")).1 ≡ none
unfolding gate gate_condition results_for seen_before prepare first_ready
load-admitted = refl

gate-admits_example :
    IsWanted plan world (prepare plan fresh) load on_success
    × IsNew world "load" (some "load-{day}")
gate-admits_example = gate-admits plan world (prepare plan fresh) load (fresh "load") load-admitted

conclude-succeeded_example : ((conclude plan (prepare plan fresh)).status ≡ RunStatus.succeeded) ↔ (
    all (λ id. not (is_failure ((prepare plan fresh).states id).status)) ("load" ∷ "report" ∷ [])
    ≡ true)
conclude-succeeded_example = conclude-succeeded plan (prepare plan fresh)
