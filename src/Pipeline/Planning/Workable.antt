-- ===== src/Pipeline/Planning/Workable.antt =====
-- pipeline/pipeline.py: the plan of a pipeline is one that the run loop can carry out.
use file_automation.Base.{
  ℕ, ◌≤◌, String, str_eq, eq_iff, Bool, true, some, List, [], ◌∷◌, elem, Dict, lookup, keys,
  has_key, elem-keys, lookup_of_has_key, has_key_of_lookup, Result, ok, err, ◌≡◌, refl, sym, arith,
  All, inl, inr, Bool-cases, subst, elem_self, elem_cons, ap, ◌∙◌,
}
use file_automation.Pipeline.Model.{Task}
use file_automation.Pipeline.Graph.{LevelError, task_levels}
use file_automation.Pipeline.Graph.Order.{task_levels-IsLevelled}
use file_automation.Pipeline.Graph.Sorted.{task_levels-IsDistinct}
use file_automation.Pipeline.Runner.{ids}
use file_automation.Pipeline.Runner.Consistent.{IsWorkable}
use file_automation.Pipeline.Substitution.{Value}
use file_automation.Pipeline.Planning.{TaskSpec, Pipeline, DefinitionProblem, dependencies}
use file_automation.Pipeline.Planning.Runs.{
  LevelPlan, add_found, tasks_at, laid_out, level_plan, plan_checked, make_plan,
}
use file_automation.Pipeline.Planning.Built.{IsKeyed, IsBuilt}

module _ {V : Type 0} where
  keys-dependencies : (d : Dict (TaskSpec V)) → All IsKeyed d → keys (dependencies d) ≡ keys d
  unfolding keys
  keys-dependencies [] h = refl
  keys-dependencies ((id, spec) ∷ d) h = rw (h.0.0, keys-dependencies d h.1) refl

  lookup-IsKeyed :
      (d : Dict (TaskSpec V)) (id : String) (spec : TaskSpec V)
      → All IsKeyed d
      → lookup id d ≡ some spec
      → IsKeyed (id, spec)
  unfolding lookup
  lookup-IsKeyed [] id spec a h = absurd (ground arith)
  lookup-IsKeyed ((j, w) ∷ d) id spec a h = elim (Bool-cases (str_eq j id)) [
    | inl same ↦
        let found : w ≡ spec = ground arith in
        let key : j ≡ id = ground (arith, eq_iff j id) in
        subst (λ s. IsKeyed (id, s)) found (subst (λ k. IsKeyed (k, w)) key a.0)
    | inr differs ↦ lookup-IsKeyed d id spec a.1 (ground arith)
  ]

  -- the tasks of a plan stand in the order of the IDs
  record Picked (d : Dict (TaskSpec V)) (ks : List String) (ts : List Task) : Type 0 where
    named : ids ts ≡ ks
    attempts : All (λ task. 1 ≤ task.retry.max_attempts) ts

  add_found-Picked :
      (d : Dict (TaskSpec V)) (k : String) (ks : List String) (ts : List Task)
      → All IsKeyed d
      → has_key k d ≡ true
      → Picked d ks ts
      → Picked d (k ∷ ks) (add_found (lookup k d) ts)
  add_found-Picked d k ks ts a m p =
      let (spec, e) = lookup_of_has_key k d m in
      let (same, policy) = lookup-IsKeyed d k spec a e in
      rw e (record { named = rw (same, p.named) refl; attempts = (policy, p.attempts) })

  tasks_at-Picked :
      (d : Dict (TaskSpec V)) (ks : List String)
      → All IsKeyed d
      → ((k : String) → elem k ks ≡ true → has_key k d ≡ true)
      → Picked d ks (tasks_at d ks)
  unfolding tasks_at
  tasks_at-Picked d [] a m = record { named = refl; attempts = tt }
  tasks_at-Picked d (k ∷ ks) a m =
      add_found-Picked d k ks (tasks_at d ks) a (m k (elem_self k ks))
        (tasks_at-Picked d ks a (λ j n. m j (elem_cons j k ks n)))

  -- how a plan comes about
  pub record Drawn (p : Pipeline V) (lp : LevelPlan) : Type 0 where
    pub ordered : task_levels (dependencies p.tasks) ≡ ok lp.levels
    pub tasks : lp.plan.tasks ≡ tasks_at p.tasks (keys lp.levels)

  level_plan-Drawn :
      (p : Pipeline V) (r : Result LevelError (Dict ℕ)) (lp : LevelPlan)
      → task_levels (dependencies p.tasks) ≡ r
      → level_plan p r ≡ ok lp
      → Drawn p lp
  level_plan-Drawn p (err e) lp k h = absurd (ground arith)
  level_plan-Drawn p (ok levels) lp k h =
      let e : laid_out p levels ≡ lp = cc in
      subst (Drawn p) e (record { ordered = k; tasks = refl })

  plan_checked-Drawn :
      (p : Pipeline V) (found : List DefinitionProblem) (lp : LevelPlan)
      → plan_checked p found ≡ ok lp
      → Drawn p lp
  plan_checked-Drawn p [] lp h = level_plan-Drawn p _ lp refl h
  plan_checked-Drawn p (x ∷ xs) lp h = absurd (ground arith)

  pub make_plan-Drawn :
      (lenient : Bool) (p : Pipeline V) (params : Dict (Value V)) (lp : LevelPlan)
      → make_plan lenient p params ≡ ok lp
      → Drawn p lp
  unfolding make_plan
  make_plan-Drawn lenient p params lp h = plan_checked-Drawn p _ lp h

  -- a plan names the tasks of its pipeline, each once
  pub record Covers (p : Pipeline V) (lp : LevelPlan) : Type 0 where
    pub workable : IsWorkable lp.plan
    pub named : ids lp.plan.tasks ≡ keys lp.levels
    pub all : (id : String) → has_key id p.tasks ≡ elem id (ids lp.plan.tasks)

  known_in_levels :
      (p : Pipeline V) (lp : LevelPlan) (id : String)
      → IsBuilt p
      → Drawn p lp
      → has_key id p.tasks ≡ elem id (keys lp.levels)
  known_in_levels p lp id b d =
      let same = keys-dependencies p.tasks b.keyed in
      let leveled =
        task_levels-IsLevelled (dependencies p.tasks) lp.levels (rw same b.distinct) d.ordered in
      let known : has_key id (dependencies p.tasks) ≡ has_key id p.tasks =
        sym (elem-keys id (dependencies p.tasks)) ∙ ap (elem id) same ∙ elem-keys id p.tasks in
      elim (Bool-cases (has_key id lp.levels)) [
        | inl inside ↦
            let (l, e) = lookup_of_has_key id lp.levels inside in
            ground (arith, elem-keys id lp.levels, leveled.within id l e, known, inside)
        | inr outside ↦ elim (Bool-cases (has_key id p.tasks)) [
          | inl defined ↦
              let (at, below) = leveled.level id (ground (arith, known, defined)) in
              absurd (ground (arith, has_key_of_lookup id lp.levels _ at, outside))
          | inr undefined ↦ ground (arith, elem-keys id lp.levels, outside, undefined)
        ]
      ]

  pub Drawn-Covers : (p : Pipeline V) (lp : LevelPlan) → IsBuilt p → Drawn p lp → Covers p lp
  Drawn-Covers p lp b d =
      let same = keys-dependencies p.tasks b.keyed in
      let picked =
        tasks_at-Picked p.tasks (keys lp.levels) b.keyed
          (λ k m. ground (arith, known_in_levels p lp k b d, m)) in
      let named : ids lp.plan.tasks ≡ keys lp.levels = rw (d.tasks) (picked.named) in
      record {
        workable = record {
          distinct = rw named (
              task_levels-IsDistinct (dependencies p.tasks) lp.levels (rw same b.distinct)
                d.ordered);
          attempts = rw (d.tasks) (picked.attempts);
        };
        named = named;
        all = λ id. rw named (known_in_levels p lp id b d);
      }
