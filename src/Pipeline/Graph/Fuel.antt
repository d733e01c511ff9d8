-- ===== src/Pipeline/Graph/Fuel.antt =====
-- The fuel of the loops of pipeline/graph.py is enough. Each round of `walk` hands out an edge, ends
-- a frame or marks a task, and the tasks and the edges are bounded by `fuel_for`; each round of
-- `level_rounds` but the last places a task.
use file_automation.Base.{
  ℕ, zero, suc, ◌+◌, ◌≤◌, ◌<◌, String, eq_iff, true, none, some, List, [], ◌∷◌, length, elem,
  filter, elem-filter, All, All_of_elem, lookup, insert, lookup-insert, has_key, keys, elem-keys,
  lookup_of_not_has_key, ◌≡◌, ◌≢◌, inl, inr, arith, Option-cases, Bool-cases, &&-true, Result, ok,
  err, ◌>>=◌, Dict,
}
use file_automation.Pipeline.Graph.{
  Dependencies, edges, wanted, is_edge, on_path, finished, Mark, Marks, Frame, cycle, clear,
  out_of_fuel, LevelError, no_rounds_left, level_rounds, task_levels, walk, fuel_for, cycle_from,
  search_roots, find_cycle, after_root, Search,
}
use file_automation.Pipeline.Graph.Rounds.{level_rounds-ne-no_rounds_left}

-- what the tasks without a mark can still cost
unmarked_cost : Dependencies → Marks → List String → ℕ
unmarked_cost deps marks [] = 0
unmarked_cost deps marks (t ∷ ts) =
    elim (lookup t marks) [ none ↦ suc (length (edges deps t)) | some m ↦ 0 ]
    + unmarked_cost deps marks ts

frames_cost : List Frame → ℕ
frames_cost [] = 0
frames_cost ((t, rest) ∷ below) = suc (length rest) + frames_cost below

-- only tasks of the graph are left in the frames
abbrev AreKnown : Dependencies → List Frame → Type 0
AreKnown deps [] = Unit
AreKnown deps ((t, rest) ∷ below) = All (λ d. has_key d deps ≡ true) rest × AreKnown deps below

pub edges_known :
    (deps : Dependencies) (t : String) → All (λ d. has_key d deps ≡ true) (edges deps t)
unfolding edges
edges_known deps t =
    All_of_elem _ (filter (is_edge deps t) (wanted deps t))
      (λ d m. (&&-true _ _ (elem-filter d (is_edge deps t) (wanted deps t) m).1).0)

module _ (deps : Dependencies) where
  cost-mark-le :
      (f : String) (m : Mark) (marks : Marks) (ts : List String)
      → unmarked_cost deps (insert f m marks) ts ≤ unmarked_cost deps marks ts
  unfolding unmarked_cost
  cost-mark-le f m marks [] = omega arith
  cost-mark-le f m marks (t ∷ ts) =
      ground (arith, lookup-insert f t m marks, cost-mark-le f m marks ts, eq_iff f t)

  -- a task of the list that gets its first mark takes its cost away
  cost-mark :
      (f : String) (m : Mark) (marks : Marks) (ts : List String)
      → lookup f marks ≡ none
      → elem f ts ≡ true
      → unmarked_cost deps (insert f m marks) ts + suc (length (edges deps f))
        ≤ unmarked_cost deps marks ts
  unfolding unmarked_cost
  cost-mark f m marks [] e h = absurd (ground arith)
  cost-mark f m marks (t ∷ ts) e h = ground (
    arith,
    lookup-insert f t m marks,
    cost-mark f m marks ts e,
    cost-mark-le f m marks ts,
    eq_iff f t,
    eq_iff t f,
  )

  cost-le_fuel :
      (marks : Marks) (ts : List String) → unmarked_cost deps marks ts + 2 ≤ fuel_for deps ts
  unfolding unmarked_cost fuel_for
  cost-le_fuel marks [] = omega arith
  cost-le_fuel marks (t ∷ ts) = ground (arith, cost-le_fuel marks ts)

  walk-ne-out_of_fuel :
      (fuel : ℕ) (frames : List Frame) (marks : Marks)
      → AreKnown deps frames
      → unmarked_cost deps marks (keys deps) + frames_cost frames < fuel
      → walk deps fuel frames marks ≢ out_of_fuel
  unfolding walk frames_cost
  walk-ne-out_of_fuel zero frames marks k h = absurd (omega arith)
  walk-ne-out_of_fuel (suc fuel) [] marks k h = λ e. cc
  walk-ne-out_of_fuel (suc fuel) ((t, []) ∷ below) marks k h =
      walk-ne-out_of_fuel fuel below (insert t finished marks) k.1
        (omega (arith, cost-mark-le t finished marks (keys deps)))
  walk-ne-out_of_fuel (suc fuel) ((t, f ∷ rest) ∷ below) marks k h =
      elim (Option-cases (lookup f marks)) [
        | inl e ↦
            let m : elem f (keys deps) ≡ true = rw (elem-keys f deps) k.0.0 in
            rw (e, walk)
              (walk-ne-out_of_fuel fuel ((f, edges deps f) ∷ (t, rest) ∷ below)
                (insert f on_path marks) (edges_known deps f, (k.0.1, k.1))
                (omega (arith, cost-mark f on_path marks (keys deps) e m)))
        | inr (on_path, e) ↦ rw (e, walk) (λ x. cc)
        | inr (finished, e) ↦
            rw (e, walk)
              (walk-ne-out_of_fuel fuel ((t, rest) ∷ below) marks (k.0.1, k.1) (omega arith))
      ]

  cycle_from-ne-out_of_fuel :
      (root : String) (marks : Marks)
      → has_key root deps ≡ true
      → lookup root marks ≡ none
      → cycle_from deps root marks ≢ out_of_fuel
  unfolding frames_cost
  cycle_from-ne-out_of_fuel root marks k e =
      walk-ne-out_of_fuel (fuel_for deps (keys deps)) ((root, edges deps root) ∷ [])
        (insert root on_path marks) (edges_known deps root, tt)
        (omega (
          arith,
          cost-mark root on_path marks (keys deps) e (rw (elem-keys root deps) k),
          cost-le_fuel marks (keys deps),
        ))

after_root-ne-out_of_fuel :
    (r : Search) (next : Marks → Search)
    → r ≢ out_of_fuel
    → ((marks : Marks) → next marks ≢ out_of_fuel)
    → after_root r next ≢ out_of_fuel
after_root-ne-out_of_fuel (cycle c) next h k = λ e. cc
after_root-ne-out_of_fuel (clear marks) next h k = k marks
after_root-ne-out_of_fuel out_of_fuel next h k = h

search_roots-ne-out_of_fuel :
    (deps : Dependencies) (roots : List String) (marks : Marks)
    → All (λ d. has_key d deps ≡ true) roots
    → search_roots deps roots marks ≢ out_of_fuel
unfolding search_roots
search_roots-ne-out_of_fuel deps [] marks k = λ e. cc
search_roots-ne-out_of_fuel deps (root ∷ roots) marks k = elim (Bool-cases (has_key root marks)) [
  | inl e ↦ rw e (search_roots-ne-out_of_fuel deps roots marks k.1)
  | inr e ↦ rw e (
      after_root-ne-out_of_fuel (cycle_from deps root marks) (search_roots deps roots)
        (cycle_from-ne-out_of_fuel deps root marks k.0 (lookup_of_not_has_key root marks e))
        (λ m. search_roots-ne-out_of_fuel deps roots m k.1))
]

-- The search for a cycle always comes to a verdict.
pub find_cycle-ne-out_of_fuel : (deps : Dependencies) → find_cycle deps ≢ out_of_fuel
unfolding find_cycle
find_cycle-ne-out_of_fuel deps =
    search_roots-ne-out_of_fuel deps (keys deps) []
      (All_of_elem _ (keys deps) (λ d m. rw (← elem-keys d deps) m))

bind-ne-no_rounds_left :
    (r : Result LevelError (Dict ℕ)) (f : Dict ℕ → Dict ℕ)
    → r ≢ err no_rounds_left
    → (r >>= λ levels. ok (f levels)) ≢ err no_rounds_left
bind-ne-no_rounds_left (ok levels) f h = λ e. cc
bind-ne-no_rounds_left (err x) f h = h

-- The loop over the rounds of `task_levels` always ends within one round for each task, on every
-- graph: it returns the levels or says that the rest cannot be ordered.
pub task_levels-ne-no_rounds_left : (deps : Dependencies) → task_levels deps ≢ err no_rounds_left
unfolding task_levels
task_levels-ne-no_rounds_left deps =
    bind-ne-no_rounds_left (level_rounds deps (length (keys deps)) [] (keys deps)) _
      (level_rounds-ne-no_rounds_left deps (length (keys deps)) [] (keys deps) (omega arith))
