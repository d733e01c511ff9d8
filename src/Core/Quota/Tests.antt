-- ===== src/Core/Quota/Tests.antt =====
-- A quota of a hundred bytes and five ticks.
use file_automation.Base.{ℕ, some, ◌≡◌, ◌↔◌, ◌*◌, refl, Result, ok, err}
use file_automation.Core.Quota.{Quota, QuotaError, size_exceeded, wraps}
use file_automation.Core.Quota.Limits.{FitsTime, FitsSize, wraps-eq-ok}

abbrev quota : Quota
quota = record { max_bytes = 100; max_seconds = 5 }

abbrev value : Result (QuotaError (Unit {0})) ℕ
value = ok 80

wraps-value : wraps quota (some (λ n. n * 2)) 10 14 value ≡ err (size_exceeded 160 100)
unfolding wraps
wraps-value = refl

wraps-eq-ok_example :
    (wraps quota (some (λ n. n)) 10 14 value ≡ ok 80)
    ↔ ((value ≡ ok 80) × FitsTime quota 4 × FitsSize quota 80)
wraps-eq-ok_example = wraps-eq-ok quota (λ n. n) 10 14 value 80
