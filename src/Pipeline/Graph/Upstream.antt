-- ===== src/Pipeline/Graph/Upstream.antt =====
-- `upstream_tasks` of pipeline/graph.py against reachability.
use mathlib.Core.List.{reverse-cons}
use file_automation.Base.{
  ℕ, zero, suc, ◌+◌, ◌≤◌, ◌<◌, String, str_eq, eq_iff, true, false, ◌||◌, some, List, [], ◌∷◌, ◌++◌,
  length, length-append, elem, elem-append, subst, All-append, All_of_elem, length-reverse,
  elem-filter, elem-filter_intro, keys, elem-keys, has_key, ◌≡◌, ◌↔◌, refl, inl, inr, arith,
  Bool-cases, if◌then◌else◌, reverse, All, All-elem,
}
use file_automation.Pipeline.Graph.{
  Dependencies, edges, climb, fuel_for, upstream_of, in_definition_order,
}
use file_automation.Pipeline.Graph.Fuel.{edges_known}

-- `o` can be reached from `t` along dependencies
pub data Reaches (deps : Dependencies) (t : String) : String → Type 0 where
  one : {o : String} → elem o (edges deps t) ≡ true → Reaches deps t o
  more : {m o : String} → Reaches deps t m → elem o (edges deps m) ≡ true → Reaches deps t o

elem-reverse : (k : String) (xs : List String) → elem k (reverse xs) ≡ elem k xs
elem-reverse k [] = refl
elem-reverse k (x ∷ xs) =
    rw reverse-cons (ground (arith, elem-append k (reverse xs) (x ∷ []), elem-reverse k xs))

-- the invariant of the loop: what is found or waits can be reached, and a found task's
-- dependencies are found, wait, or are the task itself
pub record Climbs (deps : Dependencies) (t : String) (stack found : List String) : Type 0 where
  pub reached : (o : String) → (elem o stack || elem o found) ≡ true → Reaches deps t o
  pub start :
      (o : String)
      → elem o (edges deps t) ≡ true
      → (elem o stack || elem o found || str_eq o t) ≡ true
  pub closed :
      (m o : String)
      → elem m found ≡ true
      → elem o (edges deps m) ≡ true
      → (elem o stack || elem o found || str_eq o t) ≡ true
  pub other : elem t found ≡ false

skip-Climbs :
    (deps : Dependencies) (t current : String) (stack found : List String)
    → (elem current found || str_eq current t) ≡ true
    → Climbs deps t (current ∷ stack) found
    → Climbs deps t stack found
skip-Climbs deps t current stack found e c = record {
  reached = λ o m. c.reached o (ground arith);
  start = λ o m. ground (arith, c.start o m, eq_iff current o);
  closed = λ m o f k. ground (arith, c.closed m o f k, eq_iff current o);
  other = c.other;
}

enter-Climbs :
    (deps : Dependencies) (t current : String) (stack found : List String)
    → (elem current found || str_eq current t) ≡ false
    → Climbs deps t (current ∷ stack) found
    → Climbs deps t (reverse (edges deps current) ++ stack) (current ∷ found)
enter-Climbs deps t current stack found e c = record {
  reached = λ o m. elim (Bool-cases (elem o (edges deps current))) [
    | inl k ↦ Reaches.more (c.reached current (ground (arith, eq_iff current current))) k
    | inr k ↦ c.reached o (
        ground (
          arith,
          elem-append o (reverse (edges deps current)) stack,
          elem-reverse o (edges deps current),
        ))
  ];
  start = λ o m.
      ground
        (arith, c.start o m, elem-append o (reverse (edges deps current)) stack, eq_iff current o);
  closed = λ m o f k. elim (Bool-cases (str_eq current m)) [
    | inl same ↦
        let here : elem o (edges deps current) ≡ true = rw ((eq_iff current m).0 same) k in
        ground (
          arith,
          elem-append o (reverse (edges deps current)) stack,
          elem-reverse o (edges deps current),
          here,
        )
    | inr differs ↦ ground (
      arith,
      c.closed m o (ground arith) k,
      elem-append o (reverse (edges deps current)) stack,
      eq_iff current o,
    )
  ];
  other = ground (arith, c.other, eq_iff t current, eq_iff current t);
}

-- what is left when the stack is empty
climb-Climbs :
    (deps : Dependencies) (t : String) (fuel : ℕ) (stack found result : List String)
    → Climbs deps t stack found
    → climb deps t fuel stack found ≡ some result
    → Climbs deps t [] result
unfolding climb
climb-Climbs deps t zero stack found result c h = cc
climb-Climbs deps t (suc fuel) [] found result c h =
    let e : found ≡ result = cc in subst (Climbs deps t []) e c
climb-Climbs deps t (suc fuel) (current ∷ stack) found result c h =
    elim (Bool-cases (elem current found || str_eq current t)) [
      | inl e ↦
          climb-Climbs deps t fuel stack found result (skip-Climbs deps t current stack found e c)
            (rw e at h)
      | inr e ↦
          climb-Climbs deps t fuel (reverse (edges deps current) ++ stack) (current ∷ found) result
            (enter-Climbs deps t current stack found e c) (rw e at h)
    ]

start-Climbs : (deps : Dependencies) (t : String) → Climbs deps t (reverse (edges deps t)) []
start-Climbs deps t = record {
  reached = λ o m. Reaches.one (ground (arith, elem-reverse o (edges deps t)));
  start = λ o m. ground (arith, elem-reverse o (edges deps t));
  closed = λ m o f k. absurd (ground arith);
  other = refl;
}

-- what the tasks that are not found yet can still cost
unfound_cost : Dependencies → List String → List String → ℕ
unfound_cost deps found [] = 0
unfound_cost deps found (t ∷ ts) =
    (if elem t found then 0 else suc (length (edges deps t))) + unfound_cost deps found ts

module _ (deps : Dependencies) where
  unfound-le :
      (f : String) (found ts : List String)
      → unfound_cost deps (f ∷ found) ts ≤ unfound_cost deps found ts
  unfolding unfound_cost
  unfound-le f found [] = omega arith
  unfound-le f found (t ∷ ts) = ground (arith, unfound-le f found ts)

  unfound-find :
      (f : String) (found ts : List String)
      → elem f found ≡ false
      → elem f ts ≡ true
      → unfound_cost deps (f ∷ found) ts + suc (length (edges deps f)) ≤ unfound_cost deps found ts
  unfolding unfound_cost
  unfound-find f found [] e h = absurd (ground arith)
  unfound-find f found (t ∷ ts) e h =
      ground (arith, unfound-find f found ts e, unfound-le f found ts, eq_iff f t, eq_iff t f)

  unfound-le_fuel : (found ts : List String) → unfound_cost deps found ts + 2 ≤ fuel_for deps ts
  unfolding unfound_cost fuel_for
  unfound-le_fuel found [] = omega arith
  unfound-le_fuel found (t ∷ ts) = ground (arith, unfound-le_fuel found ts)

  length-push :
      (current : String) (stack : List String)
      → length (reverse (edges deps current) ++ stack) ≡ length (edges deps current) + length stack
  length-push current stack = omega (
    arith,
    length-append (reverse (edges deps current)) stack,
    length-reverse (edges deps current),
  )

  climb_total :
      (t : String) (fuel : ℕ) (stack found : List String)
      → All (λ d. has_key d deps ≡ true) stack
      → unfound_cost deps found (keys deps) + length stack < fuel
      → (result : List String) × (climb deps t fuel stack found ≡ some result)
  unfolding climb
  climb_total t zero stack found k h = absurd (omega arith)
  climb_total t (suc fuel) [] found k h = (found, refl)
  climb_total t (suc fuel) (current ∷ stack) found k h =
      elim (Bool-cases (elem current found || str_eq current t)) [
        | inl e ↦ rw e (climb_total t fuel stack found k.1 (omega arith))
        | inr e ↦
            let absent : elem current found ≡ false = ground arith in
            rw e (
              climb_total t fuel (reverse (edges deps current) ++ stack) (current ∷ found)
                (All-append _ (reverse (edges deps current)) stack (pushed_known current) k.1)
                (omega (
                  arith,
                  length-push current stack,
                  unfound-find current found (keys deps) absent (rw (elem-keys current deps) k.0),
                )))
      ]
    where
      pushed_known : (c : String) → All (λ d. has_key d deps ≡ true) (reverse (edges deps c))
      pushed_known c = All_of_elem _ (reverse (edges deps c)) (λ d m.
          All-elem (λ d. has_key d deps ≡ true) d (edges deps c) (edges_known deps c)
            (rw (elem-reverse d (edges deps c)) at m))

-- what is found holds everything that can be reached, but for the task itself
Reaches-found :
    (deps : Dependencies) (t : String) (found : List String) {o : String}
    → Climbs deps t [] found
    → Reaches deps t o
    → (elem o found || str_eq o t) ≡ true
Reaches-found deps t found {o} c (Reaches.one k) = c.start o k
Reaches-found deps t found {o} c (Reaches.more {m} r k) = elim (Bool-cases (elem m found)) [
  | inl f ↦ c.closed m o f k
  | inr n ↦
      let same : m ≡ t = (eq_iff m t).0 (ground (arith, Reaches-found deps t found c r, n)) in
      c.start o (rw same at k)
]

Reaches-has_key :
    (deps : Dependencies) (t : String) {o : String} → Reaches deps t o → has_key o deps ≡ true
Reaches-has_key deps t {o} (Reaches.one k) =
    All-elem (λ d. has_key d deps ≡ true) o (edges deps t) (edges_known deps t) k
Reaches-has_key deps t {o} (Reaches.more {m} r k) =
    All-elem (λ d. has_key d deps ≡ true) o (edges deps m) (edges_known deps m) k

-- `upstream_tasks` always ends, and lists for a task exactly the other tasks that it depends on,
-- directly or through others, whatever problems the graph has.
pub upstream_of-Reaches :
    (deps : Dependencies) (t : String)
    → (result : List String) × (upstream_of deps t ≡ some result)
      × ((o : String) → (elem o result ≡ true) ↔ (Reaches deps t o × (str_eq o t ≡ false)))
unfolding upstream_of
upstream_of-Reaches deps t =
    let (found, e) =
      climb_total deps t (fuel_for deps (keys deps) + length (edges deps t))
        (reverse (edges deps t)) []
        (All_of_elem _ (reverse (edges deps t)) (λ d m.
          All-elem (λ d. has_key d deps ≡ true) d (edges deps t) (edges_known deps t)
            (rw (elem-reverse d (edges deps t)) at m)))
        (omega (arith, unfound-le_fuel deps [] (keys deps), length-reverse (edges deps t))) in
    let c = climb-Climbs deps t _ (reverse (edges deps t)) [] found (start-Climbs deps t) e in
    (
      in_definition_order deps found,
      rw e refl,
      λ o. (
        λ m.
            let (in_keys, in_found) = elem-filter o (λ other. elem other found) (keys deps) m in
            (c.reached o in_found, ground (arith, c.other, eq_iff o t, in_found)),
        λ (r, differs).
            elem-filter_intro o (λ other. elem other found) (keys deps)
              (rw (elem-keys o deps) (Reaches-has_key deps t r))
              (ground (arith, Reaches-found deps t found c r)),
      ),
    )
