-- ===== src/Pipeline/Graph.antt =====
-- pipeline/graph.py. The graph is a dictionary from a task ID to the IDs it depends on, in
-- definition order; problems are values instead of texts, with the same path.
mod Levels
mod Rounds
pub mod Order
pub mod Sorted
pub mod Depths
mod Fuel
pub mod Cycle
pub mod Acyclic
pub mod Upstream
mod Tests
use file_automation.Base.{
  ℕ, zero, suc, ◌+◌, max, String, str_eq, Bool, true, false, not, ◌&&◌, ◌||◌, Option, none, some,
  List, [], ◌∷◌, ◌++◌, map, length, all, filter, elem, Dict, lookup, insert, keys, has_key, ltb,
  ◌==◌, if◌then◌else◌, Result, ok, err, ◌>>=◌, reverse,
}
use mathlib.Core.Option

abbrev pub Dependencies : Type 0
Dependencies = Dict (List String)

abbrev pub or_empty : Option (List String) → List String
or_empty none = []
or_empty (some l) = l

-- `dependencies[task_id]`, which the code reads at keys only
abbrev pub wanted : Dependencies → String → List String
wanted deps task_id = or_empty (lookup task_id deps)

abbrev pub is_edge : Dependencies → String → String → Bool
is_edge deps task_id d = has_key d deps && not (str_eq d task_id)

unfoldable pub edges : Dependencies → String → List String
edges deps task_id = filter (is_edge deps task_id) (wanted deps task_id)

pub data Mark : Type 0 where
  on_path finished : Mark

abbrev pub Marks : Type 0
Marks = Dict Mark

-- A frame is an entry of `path` with the iterator that stands beside it in `pending`: the two
-- lists are pushed and popped together. The top of the stack comes first.
abbrev pub Frame : Type 0
Frame = String × List String

pub data Search : Type 0 where
  cycle : List String → Search
  clear : Marks → Search
  out_of_fuel : Search

-- [*path[path.index(following) :], following], read off from the top of the stack
unfoldable pub close_cycle : String → List Frame → List String → List String
close_cycle following [] found = found
close_cycle following ((t, rest) ∷ below) found =
    if str_eq t following then t ∷ found else close_cycle following below (t ∷ found)

-- the `while pending` loop of `_cycle_from`, on fuel
unfoldable pub walk : Dependencies → ℕ → List Frame → Marks → Search
unfolding edges close_cycle
walk deps zero frames marks = out_of_fuel
walk deps (suc fuel) [] marks = clear marks
walk deps (suc fuel) ((t, []) ∷ below) marks = walk deps fuel below (insert t finished marks)
walk deps (suc fuel) ((t, following ∷ rest) ∷ below) marks = elim (lookup following marks) [
  | none ↦
      walk deps fuel ((following, edges deps following) ∷ (t, rest) ∷ below)
        (insert following on_path marks)
  | some on_path ↦ cycle (close_cycle following ((t, rest) ∷ below) (following ∷ []))
  | some finished ↦ walk deps fuel ((t, rest) ∷ below) marks
]

-- one more than the edges and the tasks: what a whole walk can take
unfoldable pub fuel_for : Dependencies → List String → ℕ
unfolding edges
fuel_for deps [] = 2
fuel_for deps (t ∷ ts) = suc (length (edges deps t)) + fuel_for deps ts

abbrev pub cycle_from : Dependencies → String → Marks → Search
cycle_from deps root marks =
    walk deps (fuel_for deps (keys deps)) ((root, edges deps root) ∷ []) (insert root on_path marks)

-- a cycle is returned at once, marks go to the next root
abbrev pub after_root : Search → (Marks → Search) → Search
after_root (clear marks) next = next marks
after_root other next = other

-- the `for root in dependencies` loop of `find_cycle`
unfoldable pub search_roots : Dependencies → List String → Marks → Search
unfolding walk fuel_for
search_roots deps [] marks = clear marks
search_roots deps (root ∷ roots) marks =
    let skipped = search_roots deps roots marks in
    let walked = after_root (cycle_from deps root marks) (search_roots deps roots) in
    if has_key root marks then skipped else walked

unfoldable pub find_cycle : Dependencies → Search
unfolding search_roots
find_cycle deps = search_roots deps (keys deps) []

-- The findings, each with the task and the index in its path `tasks.<task>.depends_on[<index>]`.
pub data Problem : Type 0 where
  self_dependency : String → ℕ → Problem
  unknown_task : String → ℕ → String → Problem
  listed_twice : String → ℕ → String → Problem
  dependency_cycle : List String → Problem
  no_verdict : Problem

-- the loop over `enumerate(wanted)`
unfoldable pub task_problems : Dependencies → String → ℕ → List String → List String → List Problem
task_problems deps task_id index seen [] = []
task_problems deps task_id index seen (d ∷ ds) =
    let later = task_problems deps task_id (index + 1) (d ∷ seen) ds in
    if str_eq d task_id
    then self_dependency task_id index ∷ later
    else if not (has_key d deps)
    then unknown_task task_id index d ∷ later
    else if elem d seen
    then listed_twice task_id index d ∷ later
    else later

unfoldable pub all_problems : Dependencies → Dependencies → List Problem
unfolding task_problems
all_problems deps [] = []
all_problems deps ((task_id, ds) ∷ rest) =
    task_problems deps task_id 0 [] ds ++ all_problems deps rest

abbrev pub cycle_problems : Search → List Problem
cycle_problems (cycle c) = dependency_cycle c ∷ []
cycle_problems (clear marks) = []
cycle_problems out_of_fuel = no_verdict ∷ []

unfoldable pub dependency_problems : Dependencies → List Problem
unfolding all_problems find_cycle
dependency_problems deps = all_problems deps deps ++ cycle_problems (find_cycle deps)

-- 1 + max((levels[d] for d in wanted), default=-1)
unfoldable pub level_above : Dict ℕ → List String → ℕ
level_above levels [] = 0
level_above levels (d ∷ ds) =
    max (elim (lookup d levels) [ none ↦ 0 | some l ↦ suc l ]) (level_above levels ds)

-- one pass of `for task_id in remaining`: the levels so far, and the tasks that wait
unfoldable pub level_pass : Dependencies → Dict ℕ → List String → Dict ℕ × List String
unfolding level_above
level_pass deps levels [] = (levels, [])
level_pass deps levels (task_id ∷ remaining) =
    let ready = all (λ d. has_key d levels) (wanted deps task_id) in
    let added = insert task_id (level_above levels (wanted deps task_id)) levels in
    let (levels', waiting) = level_pass deps (if ready then added else levels) remaining in
    (levels', if ready then waiting else task_id ∷ waiting)

pub data LevelError : Type 0 where
  cannot_order : List String → LevelError
  no_rounds_left : LevelError

-- the `while remaining` loop; the number of rounds is at most the number of tasks
unfoldable pub level_rounds : Dependencies → ℕ → Dict ℕ → List String → Result LevelError (Dict ℕ)
level_rounds deps fuel levels [] = ok levels
level_rounds deps zero levels (t ∷ ts) = err no_rounds_left
level_rounds deps (suc fuel) levels (t ∷ ts) =
    let (levels', waiting) = level_pass deps levels (t ∷ ts) in
    let rest = level_rounds deps fuel levels' waiting in
    if length waiting == length (t ∷ ts) then err (cannot_order waiting) else rest

-- sorted(levels, key=(level, position)), over the IDs in definition order: a stable sort by level
unfoldable pub place : String × ℕ → Dict ℕ → Dict ℕ
place (t, l) [] = (t, l) ∷ []
place (t, l) ((u, k) ∷ rest) =
    if ltb k l then (u, k) ∷ place (t, l) rest else (t, l) ∷ (u, k) ∷ rest

unfoldable pub in_level_order : Dict ℕ → List String → Dict ℕ
unfolding place
in_level_order levels [] = []
in_level_order levels (t ∷ ts) = elim (lookup t levels) [
  | none ↦ in_level_order levels ts
  | some l ↦ place (t, l) (in_level_order levels ts)
]

unfoldable pub task_levels : Dependencies → Result LevelError (Dict ℕ)
unfolding level_rounds in_level_order level_pass
task_levels deps = level_rounds deps (length (keys deps)) [] (keys deps) >>= λ levels.
    ok (in_level_order levels (keys deps))

-- the `while stack` loop of `upstream_tasks`, on fuel; the end of the Python list is the head here
unfoldable pub climb : Dependencies → String → ℕ → List String → List String → Option (List String)
unfolding edges
climb deps task_id zero stack found = none
climb deps task_id (suc fuel) [] found = some found
climb deps task_id (suc fuel) (current ∷ stack) found =
    let skipped = climb deps task_id fuel stack found in
    let entered =
      climb deps task_id fuel (reverse (edges deps current) ++ stack) (current ∷ found) in
    if elem current found || str_eq current task_id then skipped else entered

abbrev pub in_definition_order : Dependencies → List String → List String
in_definition_order deps found = filter (λ other. elem other found) (keys deps)

unfoldable pub upstream_of : Dependencies → String → Option (List String)
unfolding climb fuel_for
upstream_of deps task_id = Option.map (in_definition_order deps) (
    climb deps task_id (fuel_for deps (keys deps) + length (edges deps task_id))
      (reverse (edges deps task_id)) [])

pub upstream_tasks : Dependencies → List String → Dict (Option (List String))
unfolding upstream_of
upstream_tasks deps [] = []
upstream_tasks deps (t ∷ ts) = (t, upstream_of deps t) ∷ upstream_tasks deps ts
