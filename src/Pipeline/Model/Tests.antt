-- ===== src/Pipeline/Model/Tests.antt =====
-- The back-off of a policy that starts at two seconds and waits for a minute at most.
use file_automation.Base.{◌≤◌, [], ◌≡◌, refl, arith}
use file_automation.Pipeline.Model.{RetryPolicy, delay}
use file_automation.Pipeline.Model.Policy.{delay_mono}

abbrev patient : RetryPolicy
patient = record { max_attempts = 9; backoff_base = 2; backoff_cap = 60; retry_on = [] }

delay-patient : (delay patient 1 ≡ 2) × (delay patient 4 ≡ 16) × (delay patient 8 ≡ 60)
unfolding delay
delay-patient = (refl, refl, refl)

delay_mono_example : (delay patient 3 ≤ delay patient 7) × (delay patient 7 ≤ 60)
delay_mono_example = delay_mono patient 3 7 (omega arith)
