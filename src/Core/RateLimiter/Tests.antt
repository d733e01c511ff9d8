-- ===== src/Core/RateLimiter/Tests.antt =====
-- A bucket of ten units that gains two in a tick.
use file_automation.Base.{
  List, [], ◌∷◌, false, none, some, ◌≡◌, ◌≢◌, ◌≤◌, ◌+◌, ◌*◌, refl, ok, arith,
}
use file_automation.Core.RateLimiter.{
  RateLimiter, Round, raised, rate_limit_exceeded, init, try_acquire, acquire,
}
use file_automation.Core.RateLimiter.Bucket.{IsValid, granted, after, granted-le}
use file_automation.Core.RateLimiter.Acquire.{acquire-IsValid, acquire_no_timeout}

abbrev empty : RateLimiter
empty = record { rate = 2; capacity = 10; tokens = 0; updated = 100 }

abbrev round : Round
round = record { at_refill = 103; at_check = 104 }

init-full : init 2 (some 10) 100 ≡ ok (record empty { tokens = 10 })
unfolding init
init-full = refl

try_acquire-empty : try_acquire 6 102 empty ≡ (record empty { tokens = 4; updated = 102 }, ok false)
unfolding try_acquire
try_acquire-empty = refl

granted-le_example :
    granted ((3, 101) ∷ (2, 102) ∷ []) empty + 100 * 2
    ≤ 0 + (after ((3, 101) ∷ (2, 102) ∷ []) empty).updated * 2
granted-le_example = granted-le ((3, 101) ∷ (2, 102) ∷ []) empty

acquire-IsValid_example : IsValid (acquire 6 (some 0) 100 (round ∷ []) empty).0
acquire-IsValid_example = acquire-IsValid 6 (some 0) 100 (round ∷ []) empty (omega arith)

acquire_no_timeout_example : (acquire 6 none 100 (round ∷ []) empty).1 ≢ raised rate_limit_exceeded
acquire_no_timeout_example = acquire_no_timeout 6 100 (round ∷ []) empty

-- two rounds that come too early
abbrev early : List Round
early =
    (record { at_refill = 100; at_check = 100 }) ∷ (record { at_refill = 102; at_check = 102 }) ∷ []
