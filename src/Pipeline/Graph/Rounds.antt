-- ===== src/Pipeline/Graph/Rounds.antt =====
-- The loop of `task_levels` in pipeline/graph.py: it ends with a level for every task where the
-- dependencies can be ranked.
use file_automation.Base.{
  ℕ, zero, suc, ◌≤◌, ◌<◌, String, true, false, ◌||◌, List, [], ◌∷◌, length, all-false, elem, All,
  All-elem, Dict, insert, has_key, ◌≡◌, ◌≢◌, refl, inl, inr, arith, Bool-cases, Result, ok, err,
  ◌==◌, ==_iff, elem_self,
}
use file_automation.Pipeline.Graph.{
  Dependencies, wanted, level_above, level_pass, level_rounds, LevelError, no_rounds_left,
}
use file_automation.Pipeline.Graph.Levels.{have_levels, Placed, level_pass-Passed}

length-waiting-le :
    (deps : Dependencies) (levels : Dict ℕ) (remaining : List String)
    → length (level_pass deps levels remaining).1 ≤ length remaining
unfolding level_pass
length-waiting-le deps levels [] = omega arith
length-waiting-le deps levels (t ∷ remaining) =
    elim (Bool-cases (have_levels levels (wanted deps t))) [
      | inl e ↦ rw e (
          let ih =
            length-waiting-le deps (insert t (level_above levels (wanted deps t)) levels)
              remaining in
          omega (arith, ih))
      | inr e ↦ rw e (let ih = length-waiting-le deps levels remaining in omega (arith, ih))
    ]

-- a pass that places nothing: every task waits for one that has no level
level_pass_stuck :
    (deps : Dependencies) (levels : Dict ℕ) (remaining : List String)
    → length (level_pass deps levels remaining).1 ≡ length remaining
    → All (λ t. have_levels levels (wanted deps t) ≡ false) remaining
unfolding level_pass
level_pass_stuck deps levels [] h = tt
level_pass_stuck deps levels (t ∷ remaining) h =
    elim (Bool-cases (have_levels levels (wanted deps t))) [
      | inl e ↦
          let le =
            length-waiting-le deps (insert t (level_above levels (wanted deps t)) levels)
              remaining in
          absurd (let h' = rw e at h in omega (arith, h', le))
      | inr e ↦
          (e, level_pass_stuck deps levels remaining (let h' = rw e at h in omega (arith, h')))
    ]

-- every dependency is a task, and lies below
pub record IsSolvable (deps : Dependencies) (r : String → ℕ) : Type 0 where
  pub below :
      (t d : String)
      → has_key t deps ≡ true
      → elem d (wanted deps t) ≡ true
      → (has_key d deps ≡ true) × (r d < r t)

-- every task has its level, or it remains
abbrev pub IsComplete : Dependencies → Dict ℕ → List String → Type 0
IsComplete deps levels remaining =
    (t : String) → has_key t deps ≡ true → (has_key t levels || elem t remaining) ≡ true

-- a pass that is not stuck leaves fewer tasks
below_all : {w n f : ℕ} → w ≤ n → (w == n) ≡ false → n ≤ suc f → w ≤ f
below_all h e k = ground arith

module _ (deps : Dependencies) where
  -- a pass over tasks that can be ranked places one: the least would be waiting for a lesser one
  descent :
      (r : String → ℕ) (levels : Dict ℕ) (remaining : List String)
      → IsSolvable deps r
      → Placed deps levels remaining
      → IsComplete deps levels remaining
      → All (λ t. have_levels levels (wanted deps t) ≡ false) remaining
      → (n : ℕ) (t : String) → elem t remaining ≡ true
      → r t < n
      → ⊥
  descent r levels remaining s p c stuck zero t m h = omega arith
  descent r levels remaining s p c stuck (suc n) t m h =
      let (d, inside, missing) =
        all-false (λ d. has_key d levels) (wanted deps t)
          (All-elem (λ t. have_levels levels (wanted deps t) ≡ false) t remaining stuck m) in
      let known =
        (All-elem (λ t. (has_key t levels ≡ false) × (has_key t deps ≡ true)) t remaining p.fresh
          m).1 in
      let (is_task, less) = s.below t d known inside in
      descent r levels remaining s p c stuck n d (ground (arith, c d is_task)) (omega arith)

  Complete-pass :
      (levels : Dict ℕ) (remaining : List String)
      → Placed deps levels remaining
      → IsComplete deps levels remaining
      → IsComplete deps (level_pass deps levels remaining).0 (level_pass deps levels remaining).1
  Complete-pass levels remaining p c t k =
      let q = level_pass-Passed deps levels remaining p in
      ground (arith, c t k, q.kept t, q.handled t)

  abbrev pub Levelled : Result LevelError (Dict ℕ) → Type 0
  Levelled (ok levels) = Placed deps levels [] × IsComplete deps levels []
  Levelled (err e) = Unit

  -- levels that the loop returns are right, and no task is without
  pub level_rounds-Levelled :
      (fuel : ℕ) (levels : Dict ℕ) (remaining : List String)
      → Placed deps levels remaining
      → IsComplete deps levels remaining
      → Levelled (level_rounds deps fuel levels remaining)
  unfolding level_rounds
  level_rounds-Levelled fuel levels [] p c = (p, c)
  level_rounds-Levelled zero levels (t ∷ ts) p c = tt
  level_rounds-Levelled (suc fuel) levels (t ∷ ts) p c =
      elim (Bool-cases (length (level_pass deps levels (t ∷ ts)).1 == suc (length ts))) [
        | inl e ↦ rw e tt
        | inr e ↦ rw e (
            level_rounds-Levelled fuel (level_pass deps levels (t ∷ ts)).0
              (level_pass deps levels (t ∷ ts)).1 (level_pass-Passed deps levels (t ∷ ts) p).placed
              (Complete-pass levels (t ∷ ts) p c))
      ]

  -- with a ranking and a round for each task the loop returns levels
  pub level_rounds-total :
      (r : String → ℕ) (fuel : ℕ) (levels : Dict ℕ) (remaining : List String)
      → IsSolvable deps r
      → Placed deps levels remaining
      → IsComplete deps levels remaining
      → length remaining ≤ fuel
      → (levels' : Dict ℕ) × (level_rounds deps fuel levels remaining ≡ ok levels')
  unfolding level_rounds
  level_rounds-total r fuel levels [] s p c h = (levels, refl)
  level_rounds-total r zero levels (t ∷ ts) s p c h = absurd (omega arith)
  level_rounds-total r (suc fuel) levels (t ∷ ts) s p c h =
      elim (Bool-cases (length (level_pass deps levels (t ∷ ts)).1 == suc (length ts))) [
        | inl e ↦ absurd (
            descent r levels (t ∷ ts) s p c
              (level_pass_stuck deps levels (t ∷ ts) ((==_iff _ _).0 e)) (suc (r t)) t
              (elem_self t ts) (omega arith))
        | inr e ↦ rw e (
            level_rounds-total r fuel (level_pass deps levels (t ∷ ts)).0
              (level_pass deps levels (t ∷ ts)).1 s
              (level_pass-Passed deps levels (t ∷ ts) p).placed (Complete-pass levels (t ∷ ts) p c)
              (below_all (length-waiting-le deps levels (t ∷ ts)) e h))
      ]

  -- with a round for each task that is left the fuel does not run out
  pub level_rounds-ne-no_rounds_left :
      (fuel : ℕ) (levels : Dict ℕ) (remaining : List String)
      → length remaining ≤ fuel
      → level_rounds deps fuel levels remaining ≢ err no_rounds_left
  unfolding level_rounds
  level_rounds-ne-no_rounds_left fuel levels [] h = λ e. cc
  level_rounds-ne-no_rounds_left zero levels (t ∷ ts) h = absurd (omega arith)
  level_rounds-ne-no_rounds_left (suc fuel) levels (t ∷ ts) h =
      elim (Bool-cases (length (level_pass deps levels (t ∷ ts)).1 == suc (length ts))) [
        | inl e ↦ rw e (λ k. cc)
        | inr e ↦ rw e (
            level_rounds-ne-no_rounds_left fuel (level_pass deps levels (t ∷ ts)).0
              (level_pass deps levels (t ∷ ts)).1
              (below_all (length-waiting-le deps levels (t ∷ ts)) e h))
      ]
