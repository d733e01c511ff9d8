-- ===== src/Core/RateLimiter.antt =====
-- core/rate_limit.py. The floats are taken as whole numbers: a reading of `time.monotonic()` in
-- ticks, and tokens in a unit of which `rate` arrive in one tick; rounding is not modelled. Each
-- `with self._cv` block is a step. `acquire` waits on the condition variable, so its loop runs over
-- the readings of the clock that its rounds take; a list that ends before the loop does stands for
-- a caller that still waits.
pub mod Bucket
pub mod Acquire
mod Tests
use file_automation.Base.{
  ℕ, ◌+◌, ◌-◌, ◌*◌, min, Bool, true, false, Option, none, some, List, [], ◌∷◌, ltb, leb,
  if◌then◌else◌, Result, ok, err,
}

pub data RateError : Type 0 where
  bad_rate bad_burst bad_tokens exceeds_capacity rate_limit_exceeded : RateError

pub record RateLimiter : Type 0 where
  pub rate : ℕ
  pub capacity : ℕ
  pub tokens : ℕ
  pub updated : ℕ

abbrev cap_of : ℕ → Option ℕ → ℕ
cap_of rate none = rate
cap_of rate (some burst) = burst

-- RateLimiter(rate, burst), constructed at `now`: zero stands for every refused value
pub init : ℕ → Option ℕ → ℕ → Result RateError RateLimiter
init rate burst now =
    if leb rate 0
    then err bad_rate
    else let cap = cap_of rate burst in
      if leb cap 0
      then err bad_burst
      else ok (record { rate = rate; capacity = cap; tokens = cap; updated = now })

pub refill : ℕ → RateLimiter → RateLimiter
refill now r =
    if ltb r.updated now
    then record r { tokens = min r.capacity (r.tokens + (now - r.updated) * r.rate); updated = now }
    else r

-- the block that both methods enter with: refill, then take the tokens if they are there
pub take_tokens : ℕ → ℕ → RateLimiter → RateLimiter × Bool
unfolding refill
take_tokens tokens now r =
    let r' = refill now r in
    if leb tokens r'.tokens then (record r' { tokens = r'.tokens - tokens }, true) else (r', false)

pub try_acquire : ℕ → ℕ → RateLimiter → RateLimiter × Result RateError Bool
unfolding take_tokens
try_acquire tokens now r =
    if leb tokens 0
    then (r, err bad_tokens)
    else let (r', taken) = take_tokens tokens now r in (r', ok taken)

-- How far `acquire` has got: it has its tokens, or it raised, or it waits.
pub data Progress : Type 0 where
  acquired : Progress
  raised : RateError → Progress
  waiting : Progress

-- One round's readings: the one of `_refill_locked`, and the one behind `remaining`.
pub record Round : Type 0 where
  pub at_refill : ℕ
  pub at_check : ℕ

abbrev pub past : Option ℕ → ℕ → Bool
past none now = false
past (some deadline) now = leb deadline now

pub acquire_loop : ℕ → Option ℕ → List Round → RateLimiter → RateLimiter × Progress
unfolding take_tokens
acquire_loop tokens deadline [] r = (r, waiting)
acquire_loop tokens deadline (round ∷ rest) r =
    let (r', taken) = take_tokens tokens round.at_refill r in
    let later = acquire_loop tokens deadline rest r' in
    if taken
    then (r', acquired)
    else if past deadline round.at_check
    then (r', raised rate_limit_exceeded)
    else later

abbrev deadline_of : ℕ → Option ℕ → Option ℕ
deadline_of now none = none
deadline_of now (some timeout) = some (now + timeout)

pub acquire : ℕ → Option ℕ → ℕ → List Round → RateLimiter → RateLimiter × Progress
unfolding acquire_loop
acquire tokens timeout now rounds r =
    if leb tokens 0
    then (r, raised bad_tokens)
    else if ltb r.capacity tokens
    then (r, raised exceeds_capacity)
    else acquire_loop tokens (deadline_of now timeout) rounds r
