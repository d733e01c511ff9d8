-- ===== src/Pipeline/Graph/Depths.antt =====
-- What a level of pipeline/graph.py is, without the computation that finds it.
use file_automation.Base.{
  ℕ, suc, max, ◌<◌, String, str_eq, eq_iff, leb, true, some, List, [], ◌∷◌, elem, elem_self, Dict,
  lookup, has_key, keys, lookup_of_has_key, ◌≡◌, refl, ◌⊎◌, inl, inr, arith, Bool-cases, &&-true,
  IsDistinct, ok,
}
use file_automation.Pipeline.Graph.{Dependencies, wanted, level_above, task_levels}
use file_automation.Pipeline.Graph.Levels.{have_levels}
use file_automation.Pipeline.Graph.Order.{task_levels-IsLevelled}

-- above every dependency, and not higher than one above the highest of them
pub record IsLevel (levels : Dict ℕ) (ds : List String) (l : ℕ) : Type 0 where
  pub above : (d : String) → elem d ds ≡ true → (k : ℕ) × (lookup d levels ≡ some k) × (k < l)
  pub reached :
      (l ≡ 0)
      ⊎ ((d : String) × (k : ℕ) × (elem d ds ≡ true) × (lookup d levels ≡ some k) × (l ≡ suc k))

-- every task of the graph has a level, and nothing else has one
pub record HasLevels (deps : Dependencies) (levels : Dict ℕ) : Type 0 where
  pub level :
      (t : String)
      → has_key t deps ≡ true
      → (l : ℕ) × (lookup t levels ≡ some l) × IsLevel levels (wanted deps t) l
  pub within : (t : String) (l : ℕ) → lookup t levels ≡ some l → has_key t deps ≡ true

IsLevel-cons :
    (levels : Dict ℕ) (d : String) (ds : List String) (k l : ℕ)
    → lookup d levels ≡ some k
    → IsLevel levels ds l
    → IsLevel levels (d ∷ ds) (max (suc k) l)
IsLevel-cons levels d ds k l e i = record {
  above = λ x m. elim (Bool-cases (str_eq d x)) [
    | inl same ↦ (k, ground (arith, (eq_iff d x).0 same), omega arith)
    | inr other ↦ let (j, at_x, lower) = i.above x (ground arith) in (j, at_x, omega (arith, lower))
  ];
  reached = elim (Bool-cases (leb l (suc k))) [
    | inl lower ↦ inr (d, k, elem_self d ds, e, ground arith)
    | inr higher ↦ elim i.reached [
      | inl zero_level ↦ absurd (ground arith)
      | inr (x, j, m, at_x, next) ↦ inr (x, j, ground arith, at_x, ground arith)
    ]
  ];
}

level_above-IsLevel :
    (levels : Dict ℕ) (ds : List String)
    → have_levels levels ds ≡ true
    → IsLevel levels ds (level_above levels ds)
unfolding level_above
level_above-IsLevel levels [] h = record {
  above = λ d m. absurd (ground arith);
  reached = inl refl;
}
level_above-IsLevel levels (d ∷ ds) h =
    let (here, rest) = &&-true (has_key d levels) (have_levels levels ds) h in
    let (k, e) = lookup_of_has_key d levels here in
    rw e (IsLevel-cons levels d ds k (level_above levels ds) e (level_above-IsLevel levels ds rest))

-- The levels that `task_levels` returns are those of the whole graph: every task has a level and
-- nothing else has one, a task's level is above the level of each of its dependencies,
-- and it is 0 or just one above that of one of them.
pub task_levels-HasLevels :
    (deps : Dependencies) (levels : Dict ℕ)
    → IsDistinct (keys deps)
    → task_levels deps ≡ ok levels
    → HasLevels deps levels
task_levels-HasLevels deps levels d h =
    let found = task_levels-IsLevelled deps levels d h in
    record {
      level = λ t k.
          let (at_t, known) = found.level t k in
          (
            level_above levels (wanted deps t),
            at_t,
            level_above-IsLevel levels (wanted deps t) known,
          );
      within = found.within;
    }
