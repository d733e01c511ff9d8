-- ===== src/Core/Retry/Tests.antt =====
-- A function that fails twice before it returns, and one that always fails.
use file_automation.Base.{ℕ, [], ◌∷◌, ◌≡◌, ◌≤◌, ◌+◌, refl, arith, ltb, if◌then◌else◌, All, length}
use file_automation.Core.Retry.{Outcome, returns, raises_retriable, returned, exhausted, wrapper}
use file_automation.Core.Retry.Attempts.{
  FailsBefore, wrapper_shape, wrapper_decided, wrapper_exhausted,
}

abbrev third_time : ℕ → Outcome ℕ ℕ
third_time n = if ltb n 3 then raises_retriable n else returns n

abbrev never : ℕ → Outcome ℕ ℕ
never n = raises_retriable n

wrapper-third_time :
    wrapper 5 2 3 third_time ≡ record { ending = returned 3; calls = 3; sleeps = 2 ∷ 3 ∷ [] }
unfolding wrapper
wrapper-third_time = refl

third_time_fails : FailsBefore 2 3 third_time 1 3
third_time_fails i h k = (i, ground arith)

wrapper_shape_example :
    (1 ≤ (wrapper 3 2 3 third_time).calls)
    × ((wrapper 3 2 3 third_time).calls ≤ 3)
    × (1 + length (wrapper 3 2 3 third_time).sleeps ≡ (wrapper 3 2 3 third_time).calls)
    × All (λ s. s ≤ 3) (wrapper 3 2 3 third_time).sleeps
wrapper_shape_example = wrapper_shape 2 3 third_time 3 (omega arith)

wrapper_decided_example :
    ((wrapper 5 2 3 third_time).ending ≡ returned 3) × ((wrapper 5 2 3 third_time).calls ≡ 3)
wrapper_decided_example =
    wrapper_decided 2 3 third_time 5 3 (returned 3) (omega arith) (omega arith) third_time_fails
      refl

never_fails : FailsBefore 2 3 never 1 4
never_fails i h k = (i, refl)

wrapper_exhausted_example :
    ((wrapper 4 2 3 never).ending ≡ exhausted 4) × ((wrapper 4 2 3 never).calls ≡ 4)
wrapper_exhausted_example = wrapper_exhausted 2 3 never 4 4 (omega arith) never_fails refl
