-- ===== src/Pipeline/Model/Policy.antt =====
-- The back-off of pipeline/model.py.
use native.Mathlib.Nat.{pow-le-pow_right, mul-le-mul_left}
use file_automation.Base.{ℕ, ◌-◌, ◌^◌, ◌≤◌, min, arith}
use file_automation.Pipeline.Model.{RetryPolicy, delay, max_backoff_exponent}

pow_mono : (a b : ℕ) → a ≤ b → 2 ^ a ≤ 2 ^ b
pow_mono a b h = pow-le-pow_right {n = 2} (omega arith) h

-- The waits never pass the policy's cap, and a later attempt never waits for less than an earlier.
pub delay_mono :
    (p : RetryPolicy) (first later : ℕ)
    → first ≤ later
    → (delay p first ≤ delay p later) × (delay p later ≤ p.backoff_cap)
unfolding delay
delay_mono p first later h =
    let grows =
      pow_mono (min (first - 1) max_backoff_exponent) (min (later - 1) max_backoff_exponent)
        (omega arith) in
    let product = mul-le-mul_left p.backoff_base grows in (omega (arith, product), omega arith)
