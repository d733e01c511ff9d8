-- ===== src/Core/Retry/Attempts.antt =====
-- How often the function is called, and for how long the decorator sleeps.
use file_automation.Base.{ℕ, zero, suc, ◌+◌, ◌-◌, ◌≤◌, ◌<◌, ◌≡◌, arith, All, length, subst}
use native.Mathlib.Decide.{dec_lt}
use file_automation.Core.Retry.{
  Outcome, returns, raises_retriable, raises_other, Ending, returned, raised, exhausted, attempts,
  wrapper,
}

module _ {E A : Type 0} (base cap : ℕ) (func : ℕ → Outcome E A) where
  attempts_shape :
      (attempt left : ℕ)
      → (attempt ≤ (attempts base cap func attempt left).calls)
        × ((attempts base cap func attempt left).calls ≤ attempt + left)
        × (attempt + length (attempts base cap func attempt left).sleeps
            ≡ (attempts base cap func attempt left).calls)
        × All (λ s. s ≤ cap) (attempts base cap func attempt left).sleeps
  unfolding attempts
  attempts_shape attempt zero = ground arith
  attempts_shape attempt (suc left) = ground (arith, attempts_shape (attempt + 1) left)

  -- The function is called at least once and at most `max_attempts` times, with one sleep between
  -- two calls, and no sleep is longer than the cap.
  pub wrapper_shape :
      (max_attempts : ℕ)
      → 1 ≤ max_attempts
      → (1 ≤ (wrapper max_attempts base cap func).calls)
        × ((wrapper max_attempts base cap func).calls ≤ max_attempts)
        × (1 + length (wrapper max_attempts base cap func).sleeps
            ≡ (wrapper max_attempts base cap func).calls)
        × All (λ s. s ≤ cap) (wrapper max_attempts base cap func).sleeps
  unfolding wrapper
  wrapper_shape max_attempts h = ground (arith, attempts_shape 1 (max_attempts - 1))

  -- every attempt from `first` on and before `k` ends in a retriable exception
  abbrev pub FailsBefore : ℕ → ℕ → Type 0
  FailsBefore first k = (i : ℕ) → first ≤ i → i < k → (e : E) × (func i ≡ raises_retriable e)

  -- how an attempt that is not tried again ends the call
  abbrev pub Decides : Outcome E A → Ending E A → Type 0
  Decides (returns a) r = r ≡ returned a
  Decides (raises_other e) r = r ≡ raised e
  Decides (raises_retriable e) r = ⊥

  decided_here :
      (attempt left : ℕ) (r : Ending E A)
      → Decides (func attempt) r
      → ((attempts base cap func attempt left).ending ≡ r)
        × ((attempts base cap func attempt left).calls ≡ attempt)
  unfolding attempts
  decided_here attempt zero r d = ground arith
  decided_here attempt (suc left) r d = ground arith

  decided_at :
      (attempt left k : ℕ) (r : Ending E A)
      → attempt ≡ k
      → Decides (func k) r
      → ((attempts base cap func attempt left).ending ≡ r)
        × ((attempts base cap func attempt left).calls ≡ k)
  decided_at attempt left k r e d =
      subst
        (λ m.
          ((attempts base cap func attempt left).ending ≡ r)
          × ((attempts base cap func attempt left).calls ≡ m))
        e (decided_here attempt left r (rw e d))

  failed_step :
      (attempt left : ℕ) (e : E)
      → func attempt ≡ raises_retriable e
      → ((attempts base cap func attempt (suc left)).ending
          ≡ (attempts base cap func (attempt + 1) left).ending)
        × ((attempts base cap func attempt (suc left)).calls
            ≡ (attempts base cap func (attempt + 1) left).calls)
  unfolding attempts
  failed_step attempt left e h = ground arith

  attempts_decided :
      (attempt left k : ℕ) (r : Ending E A)
      → attempt ≤ k
      → k ≤ attempt + left
      → FailsBefore attempt k
      → Decides (func k) r
      → ((attempts base cap func attempt left).ending ≡ r)
        × ((attempts base cap func attempt left).calls ≡ k)
  attempts_decided attempt zero k r p q f d = decided_at attempt zero k r (omega arith) d
  attempts_decided attempt (suc left) k r p q f d = elim (dec_lt attempt k) [
    | yes l ↦
        let (e, failed) = f attempt (omega arith) l in
        let ih =
          attempts_decided (attempt + 1) left k r (omega arith) (omega arith)
            (λ i a b. f i (omega arith) b) d in
        ground (arith, failed_step attempt left e failed, ih)
    | no n ↦ decided_at attempt (suc left) k r (omega arith) d
  ]

  -- When the attempts before the k-th fail with retriable exceptions and the k-th does not, the
  -- call ends as the k-th attempt does, after k calls of the function.
  pub wrapper_decided :
      (max_attempts k : ℕ) (r : Ending E A)
      → 1 ≤ k
      → k ≤ max_attempts
      → FailsBefore 1 k
      → Decides (func k) r
      → ((wrapper max_attempts base cap func).ending ≡ r)
        × ((wrapper max_attempts base cap func).calls ≡ k)
  unfolding wrapper
  wrapper_decided max_attempts k r p q f d =
      attempts_decided 1 (max_attempts - 1) k r p (omega arith) f d

  exhausted_here :
      (attempt : ℕ) (e : E)
      → func attempt ≡ raises_retriable e
      → ((attempts base cap func attempt zero).ending ≡ exhausted e)
        × ((attempts base cap func attempt zero).calls ≡ attempt)
  unfolding attempts
  exhausted_here attempt e h = ground arith

  attempts_exhausted :
      (attempt left k : ℕ) (e : E)
      → k ≡ attempt + left
      → FailsBefore attempt k
      → func k ≡ raises_retriable e
      → ((attempts base cap func attempt left).ending ≡ exhausted e)
        × ((attempts base cap func attempt left).calls ≡ k)
  attempts_exhausted attempt zero k e p f h =
      let q : k ≡ attempt = omega arith in
      subst
        (λ m.
          ((attempts base cap func m zero).ending ≡ exhausted e)
          × ((attempts base cap func m zero).calls ≡ k))
        q (exhausted_here k e h)
  attempts_exhausted attempt (suc left) k e p f h =
      let (e', failed) = f attempt (omega arith) (omega arith) in
      let ih =
        attempts_exhausted (attempt + 1) left k e (omega arith) (λ i a b. f i (omega arith) b) h in
      ground (arith, failed_step attempt left e' failed, ih)

  -- When every attempt fails with a retriable exception, the call raises RetryExhaustedException
  -- with the last attempt's error as its cause, after `max_attempts` calls.
  pub wrapper_exhausted :
      (max_attempts : ℕ) (e : E)
      → 1 ≤ max_attempts
      → FailsBefore 1 max_attempts
      → func max_attempts ≡ raises_retriable e
      → ((wrapper max_attempts base cap func).ending ≡ exhausted e)
        × ((wrapper max_attempts base cap func).calls ≡ max_attempts)
  unfolding wrapper
  wrapper_exhausted max_attempts e p f h =
      attempts_exhausted 1 (max_attempts - 1) max_attempts e (omega arith) f h
