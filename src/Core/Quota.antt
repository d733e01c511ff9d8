-- ===== src/Core/Quota.antt =====
-- core/quota.py. Sizes and times are whole numbers (the float `max_seconds` and the readings of
-- `time.monotonic()` in ticks), and a cap of 0 stands for every cap that is not positive.
pub mod Limits
mod Tests
use file_automation.Base.{
  ℕ, ◌-◌, Bool, true, false, ◌&&◌, Option, none, some, ltb, if◌then◌else◌, Result, ok, err, ◌>>=◌,
  ◌>>◌,
}

pub record Quota : Type 0 where
  pub max_bytes : ℕ
  pub max_seconds : ℕ

pub data QuotaError (E : Type 0) : Type 0 where
  size_exceeded : ℕ → ℕ → QuotaError E
  time_exceeded : ℕ → ℕ → QuotaError E
  raised : E → QuotaError E

pub check_size : {E : Type 0} → Quota → ℕ → Result (QuotaError E) (Unit {0})
check_size q nbytes =
    if ltb 0 q.max_bytes && ltb q.max_bytes nbytes
    then err (size_exceeded nbytes q.max_bytes)
    else ok tt

-- `with quota.time_budget():` around a block that ended with `body`: what is raised in the
-- `finally` part takes the place of what the block returned or raised
pub time_budget : {E A : Type 0} → Quota → ℕ → ℕ → Result (QuotaError E) A → Result (QuotaError E) A
time_budget q start ended body =
    let elapsed = ended - start in
    if ltb 0 q.max_seconds && ltb q.max_seconds elapsed
    then err (time_exceeded elapsed q.max_seconds)
    else body

abbrev sized : {E A : Type 0} → Quota → Option (A → ℕ) → A → Result (QuotaError E) A
sized q none a = ok a
sized q (some size_fn) a = check_size q (size_fn a) >>= λ _. ok a

-- a function wrapped by `quota.wraps(label, size_fn)`
pub wraps :
    {E A : Type 0}
    → Quota
    → Option (A → ℕ)
    → ℕ
    → ℕ
    → Result (QuotaError E) A
    → Result (QuotaError E) A
unfolding check_size time_budget
wraps q size_fn start ended func = time_budget q start ended func >>= sized q size_fn
