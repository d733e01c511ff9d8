-- ===== src/Core/Quota/Limits.antt =====
-- What a function wrapped by a quota can return.
use file_automation.Base.{ℕ, ◌-◌, ◌≤◌, ◌≡◌, some, Result, ok, err, arith, ◌⊎◌, ◌↔◌}
use file_automation.Core.Quota.{Quota, QuotaError, wraps}

-- the caps that a quota sets, as propositions
abbrev pub FitsTime : Quota → ℕ → Type 0
FitsTime q elapsed = (q.max_seconds ≡ 0) ⊎ (elapsed ≤ q.max_seconds)

abbrev pub FitsSize : Quota → ℕ → Type 0
FitsSize q nbytes = (q.max_bytes ≡ 0) ⊎ (nbytes ≤ q.max_bytes)

-- A wrapped function returns a value exactly when the function itself returned it, within the
-- time budget, and with a size within the cap.
pub wraps-eq-ok :
    {E A : Type 0} (q : Quota) (size_fn : A → ℕ) (start ended : ℕ) (func : Result (QuotaError E) A)
    (a : A)
    → (wraps q (some size_fn) start ended func ≡ ok a)
      ↔ ((func ≡ ok a) × FitsTime q (ended - start) × FitsSize q (size_fn a))
unfolding wraps
wraps-eq-ok q size_fn start ended (ok x) a = (λ h. ground arith, λ h. ground arith)
wraps-eq-ok q size_fn start ended (err e) a = (λ h. ground arith, λ h. ground arith)
