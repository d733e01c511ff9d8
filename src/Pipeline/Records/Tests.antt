-- ===== src/Pipeline/Records/Tests.antt =====
-- A run of one task through the store, with its moments as numbers of ticks.
use file_automation.Base.{
  ◌==◌, if◌then◌else◌, str_eq, ℕ, String, Option, none, some, [], ◌∷◌, Bool, true, false, ok, ◌≡◌,
  refl,
}
use file_automation.Base.Json.{Json, number}
use file_automation.Pipeline.Model.{succeeded, RunStatus}
use file_automation.Pipeline.Records.{TimedTask, TimedRun}
use file_automation.Pipeline.Records.Stored.{run_fields, read_run}
use file_automation.Pipeline.Records.RoundTrip.{KeepsRun, read_run-run_fields}

-- two moments and their texts
abbrev iso : Bool → String
iso true = "2026-10-08T06:00:00"
iso false = "2026-10-08T07:00:00"

abbrev from_iso : String → Option Bool
from_iso s = if str_eq s "2026-10-08T06:00:00" then some true else some false

reads : (t : Bool) → from_iso (iso t) ≡ some t
reads true = refl
reads false = refl

abbrev elapsed : Bool → Bool → Json
elapsed s f = number 3600000

-- a number is plain, and 7 is not
abbrev plain : ℕ → Option Json
plain n = if n == 7 then none else some (number n)

abbrev load : TimedTask Bool ℕ
load = record {
  run = record {
    task = "load";
    status = succeeded;
    level = 0;
    attempts = 2;
    result = some 7;
    error = none;
    reason = none;
    idempotency_key = some "load-1";
    result_is_repr = false;
  };
  started_at = some true;
  finished_at = some false;
}

abbrev morning : TimedRun Bool ℕ
morning = record {
  run_id = "r1";
  pipeline = "daily";
  status = RunStatus.succeeded;
  params = ("day", 3) ∷ [];
  dry_run = false;
  tasks = ("load", load) ∷ [];
  started_at = some true;
  finished_at = some false;
  error = none;
}

read_run-run_fields_example :
    (k : TimedRun Bool Json) × (read_run iso from_iso elapsed
        (run_fields iso from_iso elapsed plain (λ n. "seven") morning)
      ≡ ok k)
    × KeepsRun plain (λ n. "seven") morning k
read_run-run_fields_example =
    read_run-run_fields iso from_iso elapsed plain (λ n. "seven") morning reads
