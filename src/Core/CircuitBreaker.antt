-- ===== src/Core/CircuitBreaker.antt =====
-- core/circuit_breaker.py. The lock makes each of its `with` blocks one step: `admit` is the block
-- in which `call` decides, `on_failure` and `on_success` are the blocks after the function has run
-- outside the lock, so the steps of several threads interleave. A reading of `time.monotonic()` is
-- an argument, in ticks. Logging is left out.
pub mod Steps
pub mod Single
mod Tests
use file_automation.Base.{
  ℕ, ◌+◌, ◌-◌, Bool, true, false, ◌||◌, ◌&&◌, ltb, leb, if◌then◌else◌, Result, ok, err,
}

pub data State : Type 0 where
  closed open_ half_open : State

pub data BreakerError (E : Type 0) : Type 0 where
  circuit_open : BreakerError E
  raised : E → BreakerError E

pub data BadArgument : Type 0 where
  bad_threshold bad_timeout : BadArgument

pub record Breaker : Type 0 where
  pub failure_threshold : ℕ
  pub recovery_timeout : ℕ
  pub state : State
  pub failures : ℕ
  pub opened_at : ℕ

abbrev pub is_open : State → Bool
is_open open_ = true
is_open _ = false

abbrev pub is_half_open : State → Bool
is_half_open half_open = true
is_half_open _ = false

-- CircuitBreaker(failure_threshold, recovery_timeout): zero stands for every refused value
pub init : ℕ → ℕ → Result BadArgument Breaker
init threshold timeout =
    if ltb threshold 1
    then err bad_threshold
    else if leb timeout 0
    then err bad_timeout
    else ok (record {
      failure_threshold = threshold;
      recovery_timeout = timeout;
      state = closed;
      failures = 0;
      opened_at = 0;
    })

pub maybe_transition : ℕ → Breaker → Breaker
maybe_transition now b =
    if is_open b.state && leb b.recovery_timeout (now - b.opened_at)
    then record b { state = half_open }
    else b

pub on_success : Breaker → Breaker
on_success b = record b { state = closed; failures = 0 }

pub on_failure : ℕ → Breaker → Breaker
on_failure now b =
    let failures = b.failures + 1 in
    if is_half_open b.state || leb b.failure_threshold failures
    then record b { failures = failures; state = open_; opened_at = now }
    else record b { failures = failures }

-- the first block of `call`: false when it raises CircuitOpenException
pub admit : ℕ → Breaker → Breaker × Bool
unfolding maybe_transition
admit now b =
    let b' = maybe_transition now b in if is_open b'.state then (b', false) else (b', true)

-- the property `state`
pub read_state : ℕ → Breaker → Breaker × State
unfolding maybe_transition
read_state now b = let b' = maybe_transition now b in (b', b'.state)

pub reset : Breaker → Breaker
reset b = record b { state = closed; failures = 0; opened_at = 0 }

-- What the protected function does: it returns, or it raises, an exception of `retriable` or not.
pub data Outcome (E A : Type 0) : Type 0 where
  returns : A → Outcome E A
  raises_retriable : E → Outcome E A
  raises_other : E → Outcome E A

-- the blocks behind the function's end; `now` is the time at which it ended
pub settle : {E A : Type 0} → ℕ → Outcome E A → Breaker → Breaker × Result (BreakerError E) A
unfolding on_success on_failure
settle now (returns a) b = (on_success b, ok a)
settle now (raises_retriable e) b = (on_failure now b, err (raised e))
settle now (raises_other e) b = (b, err (raised e))

-- `call`, where no other thread uses the breaker while the function runs
pub call : {E A : Type 0} → ℕ → ℕ → Outcome E A → Breaker → Breaker × Result (BreakerError E) A
unfolding admit settle
call now ended func b =
    let (b', admitted) = admit now b in
    if admitted then settle ended func b' else (b', err circuit_open)
