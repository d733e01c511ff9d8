-- ===== src/Core/CircuitBreaker/Tests.antt =====
-- A breaker that opens after two failures and recovers after ten ticks.
use file_automation.Base.{ℕ, List, [], ◌∷◌, true, ◌≡◌, refl, ok, arith, all}
use file_automation.Core.CircuitBreaker.{
  Breaker, Outcome, returns, closed, open_, half_open, init, call,
}
use file_automation.Core.CircuitBreaker.Steps.{
  enter, succeeded, failed, steps, IsCoherent, init-IsCoherent, steps-IsCoherent,
}
use file_automation.Core.CircuitBreaker.Single.{
  Attempt, call_all, AreRefused, fail_all-AreRefused, call_after_recovery, fail_all, fail_all-trips,
  admissions, admissions-half_open,
}

abbrev fresh : Breaker
fresh = record {
  failure_threshold = 2;
  recovery_timeout = 10;
  state = closed;
  failures = 0;
  opened_at = 0;
}

abbrev tripped : Breaker
tripped = record fresh { state = open_; failures = 2; opened_at = 5 }

abbrev trying : Breaker
trying = record tripped { state = half_open }

abbrev answer : Outcome (Unit {0}) ℕ
answer = returns 7

init-fresh : init 2 10 ≡ ok fresh
unfolding init
init-fresh = refl

fail_all-fresh : fail_all ((1, 2) ∷ (3, 5) ∷ []) fresh ≡ tripped
unfolding fail_all call
fail_all-fresh = refl

steps-IsCoherent_example : IsCoherent (steps (enter 1 ∷ failed 2 ∷ succeeded ∷ failed 3 ∷ []) fresh)
steps-IsCoherent_example =
    steps-IsCoherent (enter 1 ∷ failed 2 ∷ succeeded ∷ failed 3 ∷ []) fresh
      (init-IsCoherent 2 10 fresh init-fresh)

abbrev tries : List (Attempt (Unit {0}) ℕ)
tries =
    (record { now = 6; ended = 7; func = answer })
    ∷ (record { now = 14; ended = 30; func = answer })
    ∷ []

fail_all-AreRefused_example :
    AreRefused tries
      (fail_all ((1, 2) ∷ (3, 5) ∷ []) fresh)
      (call_all tries (fail_all ((1, 2) ∷ (3, 5) ∷ []) fresh))
fail_all-AreRefused_example =
    fail_all-AreRefused ((1, 2) ∷ []) 3 5 tries fresh refl refl
      ((omega arith, omega arith), ((omega arith, omega arith), tt))

call_after_recovery_example :
    ((call 15 16 answer tripped).0.state ≡ closed) × ((call 15 16 answer tripped).1 ≡ ok 7)
call_after_recovery_example = call_after_recovery 15 16 answer tripped refl (omega arith)

fail_all-trips_example : (fail_all ((1, 2) ∷ (3, 5) ∷ []) fresh).state ≡ open_
fail_all-trips_example =
    fail_all-trips ((1, 2) ∷ (3, 5) ∷ []) fresh refl (omega arith) (omega arith)

admissions-half_open_example : all (λ verdict. verdict) (admissions (20 ∷ 21 ∷ []) trying) ≡ true
admissions-half_open_example = admissions-half_open (20 ∷ 21 ∷ []) trying refl
