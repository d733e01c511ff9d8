-- ===== src/Core/CircuitBreaker/Steps.antt =====
-- Every interleaving of the steps of core/circuit_breaker.py by any number of threads.
use file_automation.Base.{ℕ, ◌≤◌, ◌<◌, ◌≡◌, ◌≢◌, List, [], ◌∷◌, ok, arith}
use file_automation.Core.CircuitBreaker.{
  Breaker, closed, init, admit, on_success, on_failure, read_state, reset,
}

-- One step of some thread, with the reading of the clock where it takes one.
pub data Step : Type 0 where
  enter : ℕ → Step
  succeeded : Step
  failed : ℕ → Step
  looked : ℕ → Step
  cleared : Step

pub step : Step → Breaker → Breaker
unfolding admit on_success on_failure read_state reset
step (enter now) b = (admit now b).0
step succeeded b = on_success b
step (failed now) b = on_failure now b
step (looked now) b = (read_state now b).0
step cleared b = reset b

pub steps : List Step → Breaker → Breaker
steps [] b = b
steps (s ∷ rest) b = steps rest (step s b)

-- The state is `closed` exactly while the failures counted are below the threshold.
pub record IsCoherent (b : Breaker) : Type 0 where
  pub positive : 1 ≤ b.failure_threshold
  pub below : b.state ≡ closed → b.failures < b.failure_threshold
  pub reached : b.state ≢ closed → b.failure_threshold ≤ b.failures

pub init-IsCoherent :
    (threshold timeout : ℕ) (b : Breaker) → init threshold timeout ≡ ok b → IsCoherent b
unfolding init
init-IsCoherent threshold timeout b h = ground arith

pub step-IsCoherent : (s : Step) (b : Breaker) → IsCoherent b → IsCoherent (step s b)
unfolding step
step-IsCoherent (enter now) b h = ground arith
step-IsCoherent _ b h = ground arith

-- However the threads' steps interleave, a breaker that was constructed is in state `closed`
-- exactly while its count of failures is below its threshold.
pub steps-IsCoherent : (ss : List Step) (b : Breaker) → IsCoherent b → IsCoherent (steps ss b)
unfolding steps
steps-IsCoherent [] b h = h
steps-IsCoherent (s ∷ ss) b h = steps-IsCoherent ss (step s b) (step-IsCoherent s b h)
