-- ===== src/Pipeline/Graph/Order.antt =====
-- The result of `task_levels` in pipeline/graph.py, and its agreement with `dependency_problems`.
use file_automation.Base.{
  ℕ, ◌+◌, String, str_eq, eq_iff, true, false, ◌||◌, none, some, List, [], ◌∷◌, length, elem,
  elem-keys, All, All-elem, All_of_elem, Dict, lookup, has_key, keys, ◌≡◌, refl, inl, inr, arith,
  Bool-cases, if◌then◌else◌, IsDistinct, Result, ok, err, lookup_of_has_key, has_key_of_lookup,
  Option-cases, lookup_of_not_has_key, &&-true, append-eq-nil, subst, ◌>>=◌,
}
use file_automation.Pipeline.Graph.{
  Dependencies, Marks, wanted, edges, is_edge, level_above, level_rounds, LevelError, place,
  in_level_order, task_levels, Search, cycle, clear, out_of_fuel, task_problems, all_problems,
  cycle_problems, find_cycle, dependency_problems,
}
use file_automation.Pipeline.Graph.Levels.{have_levels, Placed}
use file_automation.Pipeline.Graph.Rounds.{
  IsSolvable, IsComplete, Levelled, level_rounds-Levelled, level_rounds-total,
}
use file_automation.Pipeline.Graph.Acyclic.{find_cycle-IsRanked}

start-Placed : (deps : Dependencies) → IsDistinct (keys deps) → Placed deps [] (keys deps)
unfolding has_key
start-Placed deps d = record {
  level = λ t k. absurd (ground arith);
  within = λ t k. absurd (ground arith);
  fresh = All_of_elem _ (keys deps) (λ t m. (refl, rw (← elem-keys t deps) m));
  distinct = d;
}

start-IsComplete : (deps : Dependencies) → IsComplete deps [] (keys deps)
unfolding has_key
start-IsComplete deps t k = rw (elem-keys t deps) k

-- the entries of the result are those of the levels
place-lookup :
    (t : String) (l : ℕ) (d : Dict ℕ) (k : String)
    → has_key t d ≡ false
    → lookup k (place (t, l) d) ≡ (if str_eq t k then some l else lookup k d)
unfolding place lookup has_key
place-lookup t l [] k h = refl
place-lookup t l ((u, m) ∷ rest) k h =
    ground (arith, place-lookup t l rest k, eq_iff t k, eq_iff u k, eq_iff u t)

pub place-has_key :
    (t : String) (l : ℕ) (d : Dict ℕ) (k : String)
    → has_key k (place (t, l) d) ≡ (str_eq t k || has_key k d)
unfolding place has_key
place-has_key t l [] k = refl
place-has_key t l ((u, m) ∷ rest) k = ground (arith, place-has_key t l rest k)

pub order-has_key :
    (levels : Dict ℕ) (ts : List String) (k : String)
    → elem k ts ≡ false
    → has_key k (in_level_order levels ts) ≡ false
unfolding in_level_order has_key
order-has_key levels [] k h = refl
order-has_key levels (t ∷ ts) k h = elim (Option-cases (lookup t levels)) [
  | inl e ↦ ground (arith, e, order-has_key levels ts k)
  | inr (l, e) ↦
      ground (arith, e, order-has_key levels ts k, place-has_key t l (in_level_order levels ts) k)
]

order-lookup :
    (levels : Dict ℕ) (ts : List String) (k : String)
    → IsDistinct ts
    → lookup k (in_level_order levels ts) ≡ (if elem k ts then lookup k levels else none)
unfolding in_level_order lookup
order-lookup levels [] k d = refl
order-lookup levels (t ∷ ts) k d = elim (Option-cases (lookup t levels)) [
  | inl e ↦ ground (arith, e, order-lookup levels ts k d.1, eq_iff t k)
  | inr (l, e) ↦ ground (
    arith,
    e,
    order-lookup levels ts k d.1,
    order-has_key levels ts t d.0,
    place-lookup t l (in_level_order levels ts) k,
    eq_iff t k,
  )
]

level_above-ext :
    (levels levels' : Dict ℕ) (ds : List String)
    → ((d : String) → lookup d levels' ≡ lookup d levels)
    → level_above levels' ds ≡ level_above levels ds
unfolding level_above
level_above-ext levels levels' [] h = refl
level_above-ext levels levels' (d ∷ ds) h = ground (arith, h d, level_above-ext levels levels' ds h)

-- each level is one above the deepest dependency's, and the dependencies all have one
pub record IsLevelled (deps : Dependencies) (levels : Dict ℕ) : Type 0 where
  pub level :
      (t : String)
      → has_key t deps ≡ true
      → (lookup t levels ≡ some (level_above levels (wanted deps t)))
        × (have_levels levels (wanted deps t) ≡ true)
  pub within : (t : String) (l : ℕ) → lookup t levels ≡ some l → has_key t deps ≡ true

has_key-eq :
    (levels levels' : Dict ℕ) (d : String)
    → lookup d levels' ≡ lookup d levels
    → has_key d levels ≡ true
    → has_key d levels' ≡ true
has_key-eq levels levels' d h k =
    let (l, e) = lookup_of_has_key d levels k in
    has_key_of_lookup d levels' l (ground (arith, h, e))

module _ (deps : Dependencies) (levels : Dict ℕ) (d : IsDistinct (keys deps))
    (p : Placed deps levels []) (c : IsComplete deps levels []) where
  ordered-lookup : (x : String) → lookup x (in_level_order levels (keys deps)) ≡ lookup x levels
  ordered-lookup x = elim (Bool-cases (has_key x levels)) [
    | inl e ↦ ground (arith, order-lookup levels (keys deps) x d, elem-keys x deps, p.within x e)
    | inr e ↦ ground (arith, order-lookup levels (keys deps) x d, lookup_of_not_has_key x levels e)
  ]

  ordered-have_levels :
      (ds : List String)
      → have_levels levels ds ≡ true
      → have_levels (in_level_order levels (keys deps)) ds ≡ true
  ordered-have_levels [] h = refl
  ordered-have_levels (x ∷ xs) h =
      let (here, rest) = &&-true (has_key x levels) (have_levels levels xs) h in
      ground (
        arith,
        has_key-eq levels (in_level_order levels (keys deps)) x (ordered-lookup x) here,
        ordered-have_levels xs rest,
      )

  ordered-IsLevelled : IsLevelled deps (in_level_order levels (keys deps))
  ordered-IsLevelled = record {
    level = λ t k.
        let (at_t, has_t) = p.level t (ground (arith, c t k)) in
        (
          ground (
            arith,
            ordered-lookup t,
            at_t,
            level_above-ext levels (in_level_order levels (keys deps)) (wanted deps t)
                ordered-lookup,
          ),
          ordered-have_levels (wanted deps t) has_t,
        );
    within =
        λ t l e. p.within t (has_key_of_lookup t levels l (ground (arith, ordered-lookup t, e)));
  }

finish-IsLevelled :
    (deps : Dependencies) (levels : Dict ℕ) (r : Result LevelError (Dict ℕ))
    → IsDistinct (keys deps)
    → Levelled deps r
    → (r >>= λ l. ok (in_level_order l (keys deps))) ≡ ok levels
    → IsLevelled deps levels
finish-IsLevelled deps levels (ok l) d (p, c) h =
    let e : in_level_order l (keys deps) ≡ levels = cc in
    subst (IsLevelled deps) e (ordered-IsLevelled deps l d p c)
finish-IsLevelled deps levels (err x) d p h = cc

-- the levels that `task_levels` returns, by `level_above`
pub task_levels-IsLevelled :
    (deps : Dependencies) (levels : Dict ℕ)
    → IsDistinct (keys deps)
    → task_levels deps ≡ ok levels
    → IsLevelled deps levels
unfolding task_levels
task_levels-IsLevelled deps levels d h =
    finish-IsLevelled deps levels (level_rounds deps (length (keys deps)) [] (keys deps)) d
      (level_rounds-Levelled deps (length (keys deps)) [] (keys deps) (start-Placed deps d)
        (start-IsComplete deps))
      h

task_problems-eq-nil :
    (deps : Dependencies) (t : String) (index : ℕ) (seen ds : List String)
    → task_problems deps t index seen ds ≡ []
    → All (λ d. is_edge deps t d ≡ true) ds
unfolding task_problems
task_problems-eq-nil deps t index seen [] h = tt
task_problems-eq-nil deps t index seen (d ∷ ds) h =
    (ground arith, task_problems-eq-nil deps t (index + 1) (d ∷ seen) ds (ground arith))

all_problems-eq-nil :
    (deps rest : Dependencies) (t : String) (ds : List String)
    → all_problems deps rest ≡ []
    → lookup t rest ≡ some ds
    → All (λ d. is_edge deps t d ≡ true) ds
unfolding all_problems lookup
all_problems-eq-nil deps [] t ds h e = cc
all_problems-eq-nil deps ((u, us) ∷ rest) t ds h e =
    let (here, later) = append-eq-nil (task_problems deps u 0 [] us) (all_problems deps rest) h in
    elim (Bool-cases (str_eq u t)) [
      | inl same ↦
          let us_ds : us ≡ ds = ground arith in
          rw (← us_ds) (rw (← (eq_iff u t).0 same) (task_problems-eq-nil deps u 0 [] us here))
      | inr other ↦ all_problems-eq-nil deps rest t ds later (ground arith)
    ]

cycle_problems-eq-nil : (r : Search) → cycle_problems r ≡ [] → (marks : Marks) × (r ≡ clear marks)
cycle_problems-eq-nil (cycle c) h = cc
cycle_problems-eq-nil (clear marks) h = (marks, refl)
cycle_problems-eq-nil out_of_fuel h = cc

-- where the tasks' lists have no problem, every dependency is an edge of the graph
edge_of_no_problems :
    (deps : Dependencies) (t d : String)
    → all_problems deps deps ≡ []
    → has_key t deps ≡ true
    → elem d (wanted deps t) ≡ true
    → is_edge deps t d ≡ true
edge_of_no_problems deps t d h k m =
    let (ds, e) = lookup_of_has_key t deps k in
    let inside : elem d ds ≡ true = rw e at m in
    All-elem (λ d. is_edge deps t d ≡ true) d ds (all_problems-eq-nil deps deps t ds h e) inside

-- the tasks of a graph without problems can be ranked
IsSolvable-of_no_problems :
    (deps : Dependencies) → dependency_problems deps ≡ [] → (r : String → ℕ) × IsSolvable deps r
unfolding dependency_problems edges
IsSolvable-of_no_problems deps h =
    let (none_found, no_cycle) =
      append-eq-nil (all_problems deps deps) (cycle_problems (find_cycle deps)) h in
    let (marks, clear_of) = cycle_problems-eq-nil (find_cycle deps) no_cycle in
    let (r, ranked) = find_cycle-IsRanked deps marks clear_of in
    (
      r,
      record {
        below = λ t d k m.
            let edge = edge_of_no_problems deps t d none_found k m in
            let (known, apart) = &&-true _ _ edge in
            (known, ranked.below t d k m known (ground (arith, apart)));
      },
    )

-- A graph in which `dependency_problems` finds nothing can be ordered: `task_levels` raises
-- nothing, so its precondition as documented is enough.
pub task_levels-total :
    (deps : Dependencies)
    → IsDistinct (keys deps)
    → dependency_problems deps ≡ []
    → (levels : Dict ℕ) × (task_levels deps ≡ ok levels)
unfolding task_levels
task_levels-total deps d h =
    let (r, s) = IsSolvable-of_no_problems deps h in
    let (levels, e) =
      level_rounds-total deps r (length (keys deps)) [] (keys deps) s (start-Placed deps d)
        (start-IsComplete deps) (omega arith) in
    (in_level_order levels (keys deps), rw e refl)
