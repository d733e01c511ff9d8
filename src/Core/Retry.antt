-- ===== src/Core/Retry.antt =====
-- core/retry.py. The decorated function is the sequence of its outcomes, one for each attempt, and
-- the back-off is in whole units. Logging is left out; the sleeps are part of the result.
pub mod Attempts
mod Tests
use file_automation.Base.{
  ℕ, zero, suc, ◌+◌, ◌-◌, ◌*◌, ◌^◌, min, Bool, true, false, List, [], ◌∷◌, ltb, leb, if◌then◌else◌,
}

pub data Outcome (E A : Type 0) : Type 0 where
  returns : A → Outcome E A
  raises_retriable : E → Outcome E A
  raises_other : E → Outcome E A

-- What the caller sees: RetryExhaustedException carries the last error as its cause.
pub data Ending (E A : Type 0) : Type 0 where
  returned : A → Ending E A
  raised : E → Ending E A
  exhausted : E → Ending E A

pub record Trace (E A : Type 0) : Type 0 where
  pub ending : Ending E A
  pub calls : ℕ
  pub sleeps : List ℕ

pub delay : ℕ → ℕ → ℕ → ℕ
delay backoff_base backoff_cap attempt = min backoff_cap (backoff_base * 2 ^ (attempt - 1))

abbrev after_failure : {E A : Type 0} → ℕ → Trace E A → Trace E A
after_failure pause later = record later { sleeps = pause ∷ later.sleeps }

-- the rounds from `attempt` on, where `left` more may follow this one
pub attempts : {E A : Type 0} → ℕ → ℕ → (ℕ → Outcome E A) → ℕ → ℕ → Trace E A
unfolding delay
attempts base cap func attempt zero = elim (func attempt) [
  | returns a ↦ record { ending = returned a; calls = attempt; sleeps = [] }
  | raises_other e ↦ record { ending = raised e; calls = attempt; sleeps = [] }
  | raises_retriable e ↦ record { ending = exhausted e; calls = attempt; sleeps = [] }
]
attempts base cap func attempt (suc left) = elim (func attempt) [
  | returns a ↦ record { ending = returned a; calls = attempt; sleeps = [] }
  | raises_other e ↦ record { ending = raised e; calls = attempt; sleeps = [] }
  | raises_retriable e ↦
      after_failure (delay base cap attempt) (attempts base cap func (attempt + 1) left)
]

-- a function decorated by `retry_on_transient`; `max_attempts` is at least 1, as the decorator
-- checks
pub wrapper : {E A : Type 0} → ℕ → ℕ → ℕ → (ℕ → Outcome E A) → Trace E A
unfolding attempts
wrapper max_attempts base cap func = attempts base cap func 1 (max_attempts - 1)
