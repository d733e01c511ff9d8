-- ===== src/Core/RateLimiter/Bucket.antt =====
-- What a token bucket promises: over any steps of any callers, no more is handed out than the
-- burst and what the rate brought in.
use file_automation.Base.{
  ℕ, ◌+◌, ◌-◌, ◌*◌, ◌≤◌, ◌≡◌, Bool, List, [], ◌∷◌, arith, Option, ok, if◌then◌else◌, ap, Bool-cases,
  leb, leb→le, inl, inr,
}
use native.Mathlib.Nat.{add-mul}
use file_automation.Core.RateLimiter.{RateLimiter, init, refill, take_tokens}

pub record IsValid (r : RateLimiter) : Type 0 where
  pub within : r.tokens ≤ r.capacity
  pub some_room : 1 ≤ r.capacity

pub init-IsValid :
    (rate : ℕ) (burst : Option ℕ) (now : ℕ) (r : RateLimiter)
    → init rate burst now ≡ ok r
    → IsValid r
unfolding init
init-IsValid rate burst now r h = ground arith

pub take_tokens-IsValid :
    (tokens now : ℕ) (r : RateLimiter) → IsValid r → IsValid (take_tokens tokens now r).0
unfolding take_tokens
take_tokens-IsValid tokens now r v = ground arith

-- the steps of several callers: how much each asks for, and when
pub granted : List (ℕ × ℕ) → RateLimiter → ℕ
granted [] r = 0
granted ((tokens, now) ∷ rest) r =
    let (r', taken) = take_tokens tokens now r in (if taken then tokens else 0) + granted rest r'

pub after : List (ℕ × ℕ) → RateLimiter → RateLimiter
after [] r = r
after ((tokens, now) ∷ rest) r = after rest (take_tokens tokens now r).0

abbrev grant : Bool → ℕ → ℕ
grant taken tokens = if taken then tokens else 0

-- the time that has passed brings in the rate for each tick
elapsed_mul :
    (now updated rate : ℕ) → updated ≤ now → (now - updated) * rate + updated * rate ≡ now * rate
elapsed_mul now updated rate h =
    rw (← add-mul (now - updated) updated rate) (ap (λ t. t * rate) (omega arith))

refill-le :
    (now : ℕ) (r : RateLimiter)
    → ((refill now r).rate ≡ r.rate)
      × ((refill now r).tokens + r.updated * r.rate ≤ r.tokens + (refill now r).updated * r.rate)
unfolding refill
refill-le now r = ground (arith, elapsed_mul now r.updated r.rate)

-- one step: what is handed out and what is left is no more than what was there and what came in
take_tokens-le :
    (tokens now : ℕ) (r : RateLimiter)
    → ((take_tokens tokens now r).0.rate ≡ r.rate)
      × (grant (take_tokens tokens now r).1 tokens
            + (take_tokens tokens now r).0.tokens
            + r.updated * r.rate
          ≤ r.tokens + (take_tokens tokens now r).0.updated * r.rate)
unfolding take_tokens
take_tokens-le tokens now r = elim (Bool-cases (leb tokens (refill now r).tokens)) [
  | inl e ↦ rw e (omega (arith, refill-le now r, leb→le _ _ e))
  | inr e ↦ rw e (omega (arith, refill-le now r))
]

-- Over any sequence of requests, the tokens handed out are at most those in the bucket at the
-- start and the rate times the time by which the bucket's clock has moved on.
pub granted-le :
    (requests : List (ℕ × ℕ)) (r : RateLimiter)
    → granted requests r + r.updated * r.rate ≤ r.tokens + (after requests r).updated * r.rate
unfolding granted after
granted-le [] r = omega arith
granted-le ((tokens, now) ∷ rest) r =
    grind (arith, take_tokens-le tokens now r, granted-le rest (take_tokens tokens now r).0)
