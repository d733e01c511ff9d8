-- ===== src/Core/CircuitBreaker/Single.antt =====
-- Calls of core/circuit_breaker.py one after another, with no step of another thread in between,
-- and the admissions of a half-open breaker.
use file_automation.Base.{
  ℕ, ◌+◌, ◌≤◌, ◌<◌, ◌≡◌, refl, List, [], ◌∷◌, Bool, true, ok, err, Result, arith, ltb, leb,
  if◌then◌else◌, length, map, all, All, ◌++◌, ap, ◌∙◌,
}
use file_automation.Core.CircuitBreaker.{
  Breaker, BreakerError, circuit_open, raised, Outcome, returns, raises_retriable, raises_other,
  State, closed, open_, half_open, admit, call,
}

call-circuit_open :
    {E A : Type 0} (now ended : ℕ) (func : Outcome E A) (b : Breaker)
    → b.state ≡ open_
    → b.opened_at ≤ now
    → now < b.opened_at + b.recovery_timeout
    → call now ended func b ≡ (b, err circuit_open)
unfolding call
call-circuit_open now ended func b o h k = ground arith

-- a call: the times at which it starts and at which its function would end, and the function
pub record Attempt (E A : Type 0) : Type 0 where
  pub now : ℕ
  pub ended : ℕ
  pub func : Outcome E A

-- calls one after another, with what each gives back
pub call_all :
    {E A : Type 0} → List (Attempt E A) → Breaker → Breaker × List (Result (BreakerError E) A)
call_all [] b = (b, [])
call_all (a ∷ rest) b =
    let (b', r) = call a.now a.ended a.func b in let (b'', rs) = call_all rest b' in (b'', r ∷ rs)

-- every one of the calls has been refused, and the breaker is what it was
abbrev pub AreRefused :
    {E A : Type 0}
    → List (Attempt E A)
    → Breaker
    → Breaker × List (Result (BreakerError E) A)
    → Type 0
AreRefused attempts b (b', rs) = (b' ≡ b) × (rs ≡ map (λ a. err circuit_open) attempts)

call_all-AreRefused :
    {E A : Type 0} (attempts : List (Attempt E A)) (b : Breaker)
    → b.state ≡ open_
    → All (λ a. (b.opened_at ≤ a.now) × (a.now < b.opened_at + b.recovery_timeout)) attempts
    → AreRefused attempts b (call_all attempts b)
unfolding call_all
call_all-AreRefused [] b o h = (refl, refl)
call_all-AreRefused (a ∷ rest) b o h =
    let (same, refused) = call_all-AreRefused rest b o h.1 in
    rw (call-circuit_open a.now a.ended a.func b o h.0.0 h.0.1)
      (same, ap (λ rs. err circuit_open ∷ rs) refused)

-- the state that the end of a trial call leaves
abbrev pub trial_state : {E A : Type 0} → Outcome E A → State
trial_state (returns _) = closed
trial_state (raises_retriable _) = open_
trial_state (raises_other _) = half_open

abbrev pub outcome_result : {E A : Type 0} → Outcome E A → Result (BreakerError E) A
outcome_result (returns a) = ok a
outcome_result (raises_retriable e) = err (raised e)
outcome_result (raises_other e) = err (raised e)

-- Once the recovery timeout has passed, a call of an open breaker runs the function and passes its
-- outcome on: a return closes the breaker, a counted exception opens it again, and an exception
-- that is not counted leaves it half-open.
pub call_after_recovery :
    {E A : Type 0} (now ended : ℕ) (func : Outcome E A) (b : Breaker)
    → b.state ≡ open_
    → b.opened_at + b.recovery_timeout ≤ now
    → ((call now ended func b).0.state ≡ trial_state func)
      × ((call now ended func b).1 ≡ outcome_result func)
unfolding call
call_after_recovery now ended (returns a) b o h = ground arith
call_after_recovery now ended (raises_retriable e) b o h = ground arith
call_after_recovery now ended (raises_other e) b o h = ground arith

abbrev failing : Outcome (Unit {0}) (Unit {0})
failing = raises_retriable tt

-- calls that all end in a counted exception, with the times at which each starts and ends
unfoldable pub fail_all : List (ℕ × ℕ) → Breaker → Breaker
fail_all [] b = b
fail_all ((now, ended) ∷ rest) b = fail_all rest (call now ended failing b).0

call-failing :
    (now ended : ℕ) (b : Breaker)
    → b.state ≡ closed
    → (call now ended failing b).0 ≡ record b {
      state = (if leb b.failure_threshold (b.failures + 1) then open_ else closed);
      failures = b.failures + 1;
      opened_at = (if leb b.failure_threshold (b.failures + 1) then ended else b.opened_at);
    }
unfolding call
call-failing now ended b c = ground arith

-- A closed breaker stays closed through failing calls while their number, on top of those already
-- counted, is below the threshold, and is open after the one that reaches it.
pub fail_all-trips :
    (calls : List (ℕ × ℕ)) (b : Breaker)
    → b.state ≡ closed
    → b.failures < b.failure_threshold
    → b.failures + length calls ≤ b.failure_threshold
    → (fail_all calls b).state
      ≡ (if ltb (b.failures + length calls) b.failure_threshold then closed else open_)
unfolding fail_all
fail_all-trips [] b c i h = ground arith
fail_all-trips ((now, ended) ∷ []) b c i h = rw (call-failing now ended b c) (ground arith)
fail_all-trips ((now, ended) ∷ next ∷ rest) b c i h =
    ground
      (arith, fail_all-trips (next ∷ rest) (call now ended failing b).0, call-failing now ended b c)

call-failing_below :
    (now ended : ℕ) (b : Breaker)
    → b.state ≡ closed
    → b.failures + 1 < b.failure_threshold
    → (call now ended failing b).0 ≡ record b { failures = b.failures + 1 }
unfolding call
call-failing_below now ended b c h = ground arith

fail_all-opened :
    (early : List (ℕ × ℕ)) (now ended : ℕ) (b : Breaker)
    → b.state ≡ closed
    → b.failures + length early + 1 ≡ b.failure_threshold
    → fail_all (early ++ (now, ended) ∷ []) b
      ≡ record b { state = open_; failures = b.failure_threshold; opened_at = ended }
unfolding fail_all
fail_all-opened [] now ended b c h = rw (call-failing now ended b c) (ground arith)
fail_all-opened ((n, e) ∷ early) now ended b c h =
    let counted : (call n e failing b).0 ≡ record b { failures = b.failures + 1 } =
      call-failing_below n e b c (omega (arith, h)) in
    ap (fail_all (early ++ (now, ended) ∷ [])) counted
    ∙ fail_all-opened early now ended (record b { failures = b.failures + 1 }) c (omega (arith, h))

-- After the failing call that brings a closed breaker to its threshold, every call that starts
-- before the recovery timeout has passed since the end of that one raises CircuitOpenException,
-- whatever its function would do, and none of these calls changes the breaker or puts its recovery
-- off. The calls come one after another, at times from the end of the failing call on.
pub fail_all-AreRefused :
    {E A : Type 0} (early : List (ℕ × ℕ)) (now ended : ℕ) (attempts : List (Attempt E A))
    (b : Breaker)
    → b.state ≡ closed
    → b.failures + length early + 1 ≡ b.failure_threshold
    → All (λ a. (ended ≤ a.now) × (a.now < ended + b.recovery_timeout)) attempts
    → AreRefused attempts
        (fail_all (early ++ (now, ended) ∷ []) b)
        (call_all attempts (fail_all (early ++ (now, ended) ∷ []) b))
fail_all-AreRefused early now ended attempts b c h inside =
    rw (fail_all-opened early now ended b c h) (call_all-AreRefused attempts _ refl inside)

-- the verdicts that a series of callers is given, at the times at which they enter
pub admissions : List ℕ → Breaker → List Bool
admissions [] b = []
admissions (now ∷ rest) b = let (b', verdict) = admit now b in verdict ∷ admissions rest b'

-- Until a trial ends, a half-open breaker admits every caller that enters, not only one.
pub admissions-half_open :
    (times : List ℕ) (b : Breaker)
    → b.state ≡ half_open
    → all (λ verdict. verdict) (admissions times b) ≡ true
unfolding admissions admit
admissions-half_open [] b h = refl
admissions-half_open (now ∷ rest) b h = ground (arith, admissions-half_open rest b)
