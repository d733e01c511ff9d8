-- ===== src/Core/RateLimiter/Acquire.antt =====
-- `acquire` of core/rate_limit.py: its ways out.
use file_automation.Base.{ℕ, ◌+◌, ◌≤◌, ◌<◌, ◌≢◌, List, [], ◌∷◌, arith, Option, none, some}
use file_automation.Core.RateLimiter.{
  RateLimiter, Round, raised, waiting, rate_limit_exceeded, take_tokens, acquire, acquire_loop,
  deadline_of,
}
use file_automation.Core.RateLimiter.Bucket.{IsValid, take_tokens-IsValid}

acquire_loop-IsValid :
    (tokens : ℕ) (deadline : Option ℕ) (rounds : List Round) (r : RateLimiter)
    → IsValid r
    → IsValid (acquire_loop tokens deadline rounds r).0
unfolding acquire_loop
acquire_loop-IsValid tokens deadline [] r v = v
acquire_loop-IsValid tokens deadline (round ∷ rest) r v = grind (
  arith,
  take_tokens-IsValid tokens round.at_refill r v,
  acquire_loop-IsValid tokens deadline rest (take_tokens tokens round.at_refill r).0,
)

-- Whatever the timeout and the readings of the clock, `acquire` leaves the bucket with no more
-- tokens than its capacity.
pub acquire-IsValid :
    (tokens : ℕ) (timeout : Option ℕ) (now : ℕ) (rounds : List Round) (r : RateLimiter)
    → IsValid r
    → IsValid (acquire tokens timeout now rounds r).0
unfolding acquire
acquire-IsValid tokens timeout now rounds r v =
    ground (arith, acquire_loop-IsValid tokens (deadline_of now timeout) rounds r v)

acquire_loop-none :
    (tokens : ℕ) (rounds : List Round) (r : RateLimiter)
    → (acquire_loop tokens none rounds r).1 ≢ raised rate_limit_exceeded
unfolding acquire_loop
acquire_loop-none tokens [] r = λ e. cc
acquire_loop-none tokens (round ∷ rest) r =
    ground (arith, acquire_loop-none tokens rest (take_tokens tokens round.at_refill r).0)

-- With no timeout, `acquire` never raises RateLimitExceededException.
pub acquire_no_timeout :
    (tokens now : ℕ) (rounds : List Round) (r : RateLimiter)
    → (acquire tokens none now rounds r).1 ≢ raised rate_limit_exceeded
unfolding acquire
acquire_no_timeout tokens now rounds r = ground (arith, acquire_loop-none tokens rounds r)

-- With a timeout of 0 and a clock that does not run backwards, `acquire` does not wait: the first
-- round ends it.
acquire_timeout_zero :
    (tokens now : ℕ) (round : Round) (rest : List Round) (r : RateLimiter)
    → now ≤ round.at_check
    → (acquire tokens (some 0) now (round ∷ rest) r).1 ≢ waiting
unfolding acquire acquire_loop
acquire_timeout_zero tokens now round rest r h = ground arith

-- rounds whose clock does not run backwards, from one reading to another
abbrev pub RunsForward : ℕ → List Round → ℕ → Type 0
RunsForward now [] to = now ≤ to
RunsForward now (round ∷ rest) to = (now ≤ round.at_refill) × RunsForward round.at_refill rest to

-- a round whose check comes before the timeout has passed
abbrev pub IsInTime : ℕ → Option ℕ → Round → Type 0
IsInTime now none round = Unit
IsInTime now (some timeout) round = round.at_check < now + timeout
