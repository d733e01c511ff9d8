-- ===== src/Pipeline/Graph/Acyclic.antt =====
-- What `find_cycle` of pipeline/graph.py says of the whole graph: a cycle that it returns is one,
-- and where it returns none the tasks can be ranked with every dependency below.
use file_automation.Base.{
  elem-keys, elem-filter_intro, str_eq, false, refl, ℕ, suc, ◌≤◌, ◌<◌, String, eq_iff, true, some,
  List, [], ◌∷◌, length, elem, All, All-elem, lookup, insert, lookup-insert, has_key, keys,
  lookup_of_has_key, ◌≡◌, inl, inr, arith, Bool-cases, if◌then◌else◌,
}
use file_automation.Pipeline.Graph.{
  Dependencies, wanted, is_edge, edges, Mark, on_path, finished, Marks, Search, cycle, clear,
  out_of_fuel, fuel_for, cycle_from, after_root, search_roots, find_cycle,
}
use file_automation.Pipeline.Graph.Cycle.{
  IsCycle, IsTopological, Walks, Walked, walk-Walked, edges_self,
}

-- between two roots the stack is empty, and every marked task is finished
root-Walks :
    (deps : Dependencies) (root : String) (marks : Marks) (done : List String)
    → Walks deps [] marks done
    → Walks deps ((root, edges deps root) ∷ []) (insert root on_path marks) done
root-Walks deps root marks done w = record {
  linked = (edges_self deps root, tt, tt);
  covered = (λ d h. ground arith, tt);
  topological = w.topological;
  path_marked =
      λ x h. ground (arith, lookup-insert root x on_path marks, w.path_marked x, eq_iff root x);
  done_marked =
      λ x h. ground (arith, lookup-insert root x on_path marks, w.done_marked x, eq_iff root x);
}

no_walk : (deps : Dependencies) → Walks deps [] [] []
unfolding lookup
no_walk deps = record {
  linked = tt;
  covered = tt;
  topological = tt;
  path_marked = λ x h. absurd (ground arith);
  done_marked = λ x h. absurd (ground arith);
}

-- what the loop over the roots leaves
abbrev Searched : Dependencies → List String → List String → Search → Type 0
Searched deps roots done (cycle c) = IsCycle deps c
Searched deps roots done (clear marks) =
    (done' : List String) × IsTopological deps done'
    × ((x : String) → elem x done ≡ true → elem x done' ≡ true)
    × All (λ x. elem x done' ≡ true) roots
Searched deps roots done out_of_fuel = Unit

Searched-cons :
    (deps : Dependencies) (root : String) (roots done known : List String) (r : Search)
    → ((x : String) → elem x done ≡ true → elem x known ≡ true)
    → elem root known ≡ true
    → Searched deps roots known r
    → Searched deps (root ∷ roots) done r
Searched-cons deps root roots done known (cycle c) f h s = s
Searched-cons deps root roots done known (clear marks) f h (done', t, old, new) =
    (done', t, λ x k. old x (f x k), (old root h, new))
Searched-cons deps root roots done known out_of_fuel f h s = tt

after_root-Searched :
    (deps : Dependencies) (root : String) (roots done : List String) (r : Search)
    → Walked deps ((root, edges deps root) ∷ []) done r
    → ((marks : Marks) (known : List String)
        → Walks deps [] marks known
        → Searched deps roots known (search_roots deps roots marks))
    → Searched deps (root ∷ roots) done (after_root r (search_roots deps roots))
after_root-Searched deps root roots done (cycle c) w f = w
after_root-Searched deps root roots done (clear marks) (done', w, old, new) f =
    Searched-cons deps root roots done done' _ old (new root (ground (arith, eq_iff root root)))
      (f marks done' w)
after_root-Searched deps root roots done out_of_fuel w f = tt

search_roots-Searched :
    (deps : Dependencies) (roots : List String) (marks : Marks) (done : List String)
    → Walks deps [] marks done
    → Searched deps roots done (search_roots deps roots marks)
unfolding search_roots
search_roots-Searched deps [] marks done w = (done, w.topological, λ x h. h, tt)
search_roots-Searched deps (root ∷ roots) marks done w = elim (Bool-cases (has_key root marks)) [
  | inl e ↦ rw e (
      Searched-cons deps root roots done done _ (λ x h. h) (marked_done e)
        (search_roots-Searched deps roots marks done w))
  | inr e ↦ rw e (
      after_root-Searched deps root roots done (cycle_from deps root marks)
        (walk-Walked deps (fuel_for deps (keys deps)) _ _ done (root-Walks deps root marks done w))
        (search_roots-Searched deps roots))
]
  where
    by_mark : (m : Mark) → lookup root marks ≡ some m → elem root done ≡ true
    by_mark on_path l = absurd (ground (arith, w.path_marked root l))
    by_mark finished l = w.done_marked root l

    marked_done : has_key root marks ≡ true → elem root done ≡ true
    marked_done e = let (m, l) = lookup_of_has_key root marks e in by_mark m l

-- the place of a task in the order of finishing, counted from its end
pub rank : List String → String → ℕ
rank [] x = 0
rank (y ∷ rest) x = let later = rank rest x in if elem x rest then later else suc (length rest)

rank-le : (l : List String) (x : String) → elem x l ≡ true → rank l x ≤ length l
unfolding rank
rank-le [] x h = absurd (ground arith)
rank-le (y ∷ rest) x h = ground (arith, rank-le rest x)

rank-lt :
    (deps : Dependencies) (l : List String) (x d : String)
    → IsTopological deps l
    → elem x l ≡ true
    → elem d (edges deps x) ≡ true
    → (elem d l ≡ true) × (rank l d < rank l x)
unfolding rank
rank-lt deps [] x d t h k = absurd (ground arith)
rank-lt deps (y ∷ rest) x d t h k = elim (Bool-cases (elem x rest)) [
  | inl e ↦ ground (arith, rank-lt deps rest x d t.1 e k)
  | inr e ↦
      let same : y ≡ x = ground (arith, eq_iff y x) in
      let inside : elem d rest ≡ true = t.0 d (rw same k) in ground (arith, rank-le rest d inside)
]

-- A cycle that `find_cycle` returns is one: it leads from a task back to it, each task on it
-- depending on the next.
pub find_cycle-IsCycle :
    (deps : Dependencies) (c : List String) → find_cycle deps ≡ cycle c → IsCycle deps c
unfolding find_cycle
find_cycle-IsCycle deps c h = rw h at (search_roots-Searched deps (keys deps) [] [] (no_walk deps))

-- every dependency that is another task of the graph lies below the task
pub record IsRanked (deps : Dependencies) (r : String → ℕ) : Type 0 where
  pub below :
      (x d : String)
      → has_key x deps ≡ true
      → elem d (wanted deps x) ≡ true
      → has_key d deps ≡ true
      → str_eq d x ≡ false
      → r d < r x

-- Where `find_cycle` returns no cycle, there is a ranking of the tasks in which every task lies
-- above each of its dependencies that is another task of the graph, so no two tasks depend on each
-- other, directly or through others. A dependency of a task on itself and one that is no task of the
-- graph are left aside.
pub find_cycle-IsRanked :
    (deps : Dependencies) (marks : Marks)
    → find_cycle deps ≡ clear marks
    → (r : String → ℕ) × IsRanked deps r
unfolding find_cycle edges
find_cycle-IsRanked deps marks h =
    let (done, t, old, new) : Searched deps (keys deps) [] (clear marks) =
      rw h at (search_roots-Searched deps (keys deps) [] [] (no_walk deps)) in
    (
      rank done,
      record {
        below = λ x d m k known differs.
            (rank-lt deps done x d t
              (All-elem (λ x. elem x done ≡ true) x (keys deps) new (rw (elem-keys x deps) m))
              (elem-filter_intro d (is_edge deps x) (wanted deps x) k
                (rw (known, differs) refl))).1;
      },
    )
