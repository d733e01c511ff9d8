-- ===== src/Pipeline/Graph/Levels.antt =====
-- The passes of `task_levels` in pipeline/graph.py: what each keeps true of the levels.
use file_automation.Base.{
  ℕ, String, str_eq, eq_iff, Bool, true, false, ◌||◌, some, List, [], ◌∷◌, all, elem, All, Dict,
  lookup, insert, lookup-insert, has_key, has_key-insert, ◌≡◌, refl, inl, inr, arith, Bool-cases,
  IsDistinct,
}
use file_automation.Pipeline.Graph.{Dependencies, wanted, level_above, level_pass}

-- all of them have a level
abbrev pub have_levels : Dict ℕ → List String → Bool
have_levels levels ds = all (λ d. has_key d levels) ds

level_above-insert :
    (levels : Dict ℕ) (t : String) (l : ℕ) (ds : List String)
    → has_key t levels ≡ false
    → have_levels levels ds ≡ true
    → level_above (insert t l levels) ds ≡ level_above levels ds
unfolding level_above
level_above-insert levels t l [] f h = refl
level_above-insert levels t l (d ∷ ds) f h =
    ground (arith, lookup-insert t d l levels, level_above-insert levels t l ds f, eq_iff t d)

have_levels-insert :
    (levels : Dict ℕ) (t : String) (l : ℕ) (ds : List String)
    → have_levels levels ds ≡ true
    → have_levels (insert t l levels) ds ≡ true
have_levels-insert levels t l [] h = refl
have_levels-insert levels t l (d ∷ ds) h =
    ground (arith, has_key-insert t d l levels, have_levels-insert levels t l ds)

-- what holds between two passes
pub record Placed (deps : Dependencies) (levels : Dict ℕ) (remaining : List String) : Type 0 where
  pub level :
      (t : String)
      → has_key t levels ≡ true
      → (lookup t levels ≡ some (level_above levels (wanted deps t)))
        × (have_levels levels (wanted deps t) ≡ true)
  pub within : (t : String) → has_key t levels ≡ true → has_key t deps ≡ true
  pub fresh : All (λ t. (has_key t levels ≡ false) × (has_key t deps ≡ true)) remaining
  pub distinct : IsDistinct remaining

-- a task that gets its level
module _ (deps : Dependencies) (levels : Dict ℕ) (t : String) where
  abbrev placed_at : Dict ℕ
  placed_at = insert t (level_above levels (wanted deps t)) levels

  placed_at-level :
      (has_key t levels ≡ false)
      → have_levels levels (wanted deps t) ≡ true
      → ((u : String)
          → has_key u levels ≡ true
          → (lookup u levels ≡ some (level_above levels (wanted deps u)))
            × (have_levels levels (wanted deps u) ≡ true))
      → (u : String) → has_key u placed_at ≡ true
      → (lookup u placed_at ≡ some (level_above placed_at (wanted deps u)))
        × (have_levels placed_at (wanted deps u) ≡ true)
  placed_at-level f h level u k = elim (Bool-cases (str_eq t u)) [
    | inl e ↦
        let same : t ≡ u = (eq_iff t u).0 e in
        rw (← same) (
          ground (
            arith,
            lookup-insert t t (level_above levels (wanted deps t)) levels,
            eq_iff t t,
            level_above-insert levels t (level_above levels (wanted deps t)) (wanted deps t) f h,
          ),
          have_levels-insert levels t _ (wanted deps t) h,
        )
    | inr e ↦
        let l = level_above levels (wanted deps t) in
        let old : has_key u levels ≡ true = ground (arith, has_key-insert t u l levels) in
        let (at_u, has_u) = level u old in
        (
          ground (
            arith,
            lookup-insert t u l levels,
            level_above-insert levels t l (wanted deps u) f has_u,
            at_u,
          ),
          have_levels-insert levels t l (wanted deps u) has_u,
        )
  ]

fresh-insert :
    (deps : Dependencies) (levels : Dict ℕ) (t : String) (l : ℕ) (remaining : List String)
    → elem t remaining ≡ false
    → All (λ t. (has_key t levels ≡ false) × (has_key t deps ≡ true)) remaining
    → All (λ u. (has_key u (insert t l levels) ≡ false) × (has_key u deps ≡ true)) remaining
fresh-insert deps levels t l [] d f = tt
fresh-insert deps levels t l (u ∷ us) d f = (
  (ground (arith, has_key-insert t u l levels, eq_iff t u, eq_iff u t), f.0.1),
  fresh-insert deps levels t l us (ground arith) f.1,
)

Placed-insert :
    (deps : Dependencies) (levels : Dict ℕ) (t : String) (remaining : List String)
    → Placed deps levels (t ∷ remaining)
    → have_levels levels (wanted deps t) ≡ true
    → Placed deps (insert t (level_above levels (wanted deps t)) levels) remaining
Placed-insert deps levels t remaining p h =
    let l = level_above levels (wanted deps t) in
    record {
      level = placed_at-level deps levels t p.fresh.0.0 h p.level;
      within =
          λ u k. ground (arith, has_key-insert t u l levels, p.within u, p.fresh.0.1, eq_iff t u);
      fresh = fresh-insert deps levels t l remaining p.distinct.0 p.fresh.1;
      distinct = p.distinct.1;
    }

Placed-skip :
    (deps : Dependencies) (levels : Dict ℕ) (t : String) (remaining : List String)
    → Placed deps levels (t ∷ remaining)
    → Placed deps levels remaining
Placed-skip deps levels t remaining p = record {
  level = p.level;
  within = p.within;
  fresh = p.fresh.1;
  distinct = p.distinct.1;
}

-- what a pass leaves, with the levels that it has not taken away
pub record Passed (deps : Dependencies) (levels : Dict ℕ) (remaining : List String)
    (after : Dict ℕ × List String) : Type 0 where
  pub placed : Placed deps after.0 after.1
  pub kept : (t : String) → has_key t levels ≡ true → has_key t after.0 ≡ true
  pub handled :
      (t : String) → elem t remaining ≡ true → (has_key t after.0 || elem t after.1) ≡ true
  pub chosen : (t : String) → elem t after.1 ≡ true → elem t remaining ≡ true

Passed-ready :
    (deps : Dependencies) (levels : Dict ℕ) (t : String) (l : ℕ) (remaining : List String)
    (after : Dict ℕ × List String)
    → Passed deps (insert t l levels) remaining after
    → Passed deps levels (t ∷ remaining) after
Passed-ready deps levels t l remaining after p = record {
  placed = p.placed;
  kept = λ u k. p.kept u (ground (arith, has_key-insert t u l levels));
  handled = λ u m. ground (arith, p.handled u, p.kept u, has_key-insert t u l levels, eq_iff t u);
  chosen = λ u m. ground (arith, p.chosen u m);
}

-- a task that waits: it has no level yet, and it does not come again
Passed-waits :
    (deps : Dependencies) (levels : Dict ℕ) (t : String) (remaining : List String)
    (levels' : Dict ℕ) (waiting : List String)
    → Placed deps levels (t ∷ remaining)
    → (has_key t levels' ≡ false)
    → Passed deps levels remaining (levels', waiting)
    → Passed deps levels (t ∷ remaining) (levels', t ∷ waiting)
Passed-waits deps levels t remaining levels' waiting p n q = record {
  placed = record {
    level = q.placed.level;
    within = q.placed.within;
    fresh = ((n, p.fresh.0.1), q.placed.fresh);
    distinct = (ground (arith, q.chosen t, p.distinct.0), q.placed.distinct);
  };
  kept = q.kept;
  handled = λ u m. ground (arith, q.handled u);
  chosen = λ u m. ground (arith, q.chosen u);
}

-- a pass gives a level only to the tasks that it goes over
level_pass_only :
    (deps : Dependencies) (levels : Dict ℕ) (remaining : List String) (u : String)
    → has_key u levels ≡ false
    → elem u remaining ≡ false
    → has_key u (level_pass deps levels remaining).0 ≡ false
unfolding level_pass
level_pass_only deps levels [] u f n = f
level_pass_only deps levels (t ∷ remaining) u f n =
    elim (Bool-cases (have_levels levels (wanted deps t))) [
      | inl e ↦ rw e (
          level_pass_only deps (insert t (level_above levels (wanted deps t)) levels) remaining u
            (ground
              (arith, has_key-insert t u (level_above levels (wanted deps t)) levels, eq_iff t u))
            (ground arith))
      | inr e ↦ rw e (level_pass_only deps levels remaining u f (ground arith))
    ]

pub level_pass-Passed :
    (deps : Dependencies) (levels : Dict ℕ) (remaining : List String)
    → Placed deps levels remaining
    → Passed deps levels remaining (level_pass deps levels remaining)
unfolding level_pass
level_pass-Passed deps levels [] p = record {
  placed = p;
  kept = λ t k. k;
  handled = λ t m. absurd (ground arith);
  chosen = λ t m. m;
}
level_pass-Passed deps levels (t ∷ remaining) p =
    elim (Bool-cases (have_levels levels (wanted deps t))) [
      | inl e ↦ rw e (
          Passed-ready deps levels t (level_above levels (wanted deps t)) remaining _ (
            level_pass-Passed deps (insert t (level_above levels (wanted deps t)) levels) remaining
              (Placed-insert deps levels t remaining p e)))
      | inr e ↦ rw e (
          Passed-waits deps levels t remaining _ _ p
            (level_pass_only deps levels remaining t p.fresh.0.0 p.distinct.0)
            (level_pass-Passed deps levels remaining (Placed-skip deps levels t remaining p)))
    ]
