-- ===== src/Pipeline/Graph/Tests.antt =====
-- Small graphs: what pipeline/graph.py does on them, and the theorems at them.
use file_automation.Base.{
  ℕ, String, List, [], ◌∷◌, some, ◌≡◌, refl, ok, err, lookup, insert, has_key, keys, Dict,
  IsDistinct, elem, str_eq, true, false, ◌↔◌, ◌≢◌,
}
use file_automation.Pipeline.Graph.{
  Dependencies, find_cycle, out_of_fuel, cycle, clear, finished, dependency_problems, task_levels,
  cannot_order, no_rounds_left, unknown_task, self_dependency, listed_twice, upstream_of, Marks,
}
use file_automation.Pipeline.Graph.Cycle.{IsCycle}
use file_automation.Pipeline.Graph.Acyclic.{find_cycle-IsCycle, find_cycle-IsRanked, IsRanked}
use file_automation.Pipeline.Graph.Order.{task_levels-total}
use file_automation.Pipeline.Graph.Depths.{HasLevels, task_levels-HasLevels}
use file_automation.Pipeline.Graph.Fuel.{find_cycle-ne-out_of_fuel, task_levels-ne-no_rounds_left}
use file_automation.Pipeline.Graph.Upstream.{Reaches, upstream_of-Reaches}

abbrev diamond : Dependencies
diamond =
    ("report", "left" ∷ "right" ∷ [])
    ∷ ("left", "load" ∷ [])
    ∷ ("right", "load" ∷ [])
    ∷ ("load", [])
    ∷ []

abbrev looped : Dependencies
looped = ("a", "b" ∷ []) ∷ ("b", "c" ∷ []) ∷ ("c", "d" ∷ "b" ∷ []) ∷ ("d", []) ∷ []

find_cycle-looped : find_cycle looped ≡ cycle ("b" ∷ "c" ∷ "b" ∷ [])
unfolding find_cycle lookup insert has_key keys
find_cycle-looped = refl

abbrev diamond_marks : Marks
diamond_marks =
    ("report", finished) ∷ ("left", finished) ∷ ("load", finished) ∷ ("right", finished) ∷ []

find_cycle-diamond : find_cycle diamond ≡ clear diamond_marks
unfolding find_cycle lookup insert has_key keys
find_cycle-diamond = refl

problems-looped :
    dependency_problems (("a", "a" ∷ "x" ∷ []) ∷ ("b", "a" ∷ "a" ∷ []) ∷ [])
    ≡ self_dependency "a" 0 ∷ unknown_task "a" 1 "x" ∷ listed_twice "b" 1 "a" ∷ []
unfolding dependency_problems lookup insert has_key keys
problems-looped = refl

problems-diamond : dependency_problems diamond ≡ []
unfolding dependency_problems lookup insert has_key keys
problems-diamond = refl

abbrev diamond_levels : Dict ℕ
diamond_levels = ("load", 0) ∷ ("left", 1) ∷ ("right", 1) ∷ ("report", 2) ∷ []

task_levels-diamond : task_levels diamond ≡ ok diamond_levels
unfolding task_levels lookup insert has_key keys
task_levels-diamond = refl

task_levels-looped : task_levels looped ≡ err (cannot_order ("a" ∷ "b" ∷ "c" ∷ []))
unfolding task_levels lookup insert has_key keys
task_levels-looped = refl

upstream-diamond : upstream_of diamond "report" ≡ some ("left" ∷ "right" ∷ "load" ∷ [])
unfolding upstream_of lookup insert has_key keys
upstream-diamond = refl

diamond-IsDistinct : IsDistinct (keys diamond)
unfolding keys
diamond-IsDistinct = (refl, (refl, (refl, (refl, tt))))

find_cycle-IsCycle_example : IsCycle looped ("b" ∷ "c" ∷ "b" ∷ [])
find_cycle-IsCycle_example = find_cycle-IsCycle looped ("b" ∷ "c" ∷ "b" ∷ []) find_cycle-looped

find_cycle-IsRanked_example : (r : String → ℕ) × IsRanked diamond r
find_cycle-IsRanked_example = find_cycle-IsRanked diamond diamond_marks find_cycle-diamond

task_levels-HasLevels_example : HasLevels diamond diamond_levels
task_levels-HasLevels_example =
    task_levels-HasLevels diamond diamond_levels diamond-IsDistinct task_levels-diamond

task_levels-total_example : (levels : Dict ℕ) × (task_levels diamond ≡ ok levels)
task_levels-total_example = task_levels-total diamond diamond-IsDistinct problems-diamond

find_cycle-ne-out_of_fuel_example : find_cycle looped ≢ out_of_fuel
find_cycle-ne-out_of_fuel_example = find_cycle-ne-out_of_fuel looped

task_levels-ne-no_rounds_left_example : task_levels looped ≢ err no_rounds_left
task_levels-ne-no_rounds_left_example = task_levels-ne-no_rounds_left looped

upstream_of-Reaches_example :
    (result : List String) × (upstream_of diamond "report" ≡ some result)
    × ((o : String)
        → (elem o result ≡ true) ↔ (Reaches diamond "report" o × (str_eq o "report" ≡ false)))
upstream_of-Reaches_example = upstream_of-Reaches diamond "report"
