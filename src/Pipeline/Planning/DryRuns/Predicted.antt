-- ===== src/Pipeline/Planning/DryRuns/Predicted.antt =====
-- pipeline/pipeline.py: a dry run succeeds exactly when a real run can start.
use file_automation.Base.{
  ℕ, String, str_eq, eq_iff, Bool, true, false, Option, none, some, List, [], ◌∷◌, map, elem, Dict,
  lookup, Result, ok, err, ◌≡◌, refl, sym, arith, inl, inr, Bool-cases, append-eq-nil, subst, ◌∙◌,
  elem_self, elem_cons,
}
use file_automation.Pipeline.Model.{RunStatus, Task}
use file_automation.Pipeline.Runner.{ids}
use file_automation.Pipeline.Substitution.{Value}
use file_automation.Pipeline.Planning.{
  problems, TaskSpec, Pipeline, DefinitionProblem, dependencies, input_problems, all_notes,
  notes_of,
}
use file_automation.Pipeline.Planning.Runs.{
  PlanError, LevelPlan, Prepared, plan_checked, or_inputs, make_plan, started,
}
use file_automation.Pipeline.Planning.Built.{IsBuilt}
use file_automation.Pipeline.Planning.DryRuns.{
  Note, finding, or_nothing, name_flagged, flagged_in, status_of, action_name, unresolved,
  found_for, dry_tasks,
}
use file_automation.Pipeline.Planning.DryRuns.Notes.{
  All_of_lookup, notes_for-lookup, all_notes-eq-nil,
}

nil-map_finding : (xs : List DefinitionProblem) → map finding xs ≡ [] → xs ≡ []
nil-map_finding [] h = refl
nil-map_finding (x ∷ xs) h = absurd (ground arith)

name_flagged-eq-nil :
    (notes : List Note) (id : String) (rest : List String)
    → name_flagged notes id rest ≡ []
    → (notes ≡ []) × (rest ≡ [])
name_flagged-eq-nil [] id rest h = (refl, h)
name_flagged-eq-nil (n ∷ ns) id rest h = absurd (ground arith)

pub status_of-succeeded :
    (flagged : List String) → status_of flagged ≡ RunStatus.succeeded → flagged ≡ []
status_of-succeeded [] h = refl
status_of-succeeded (id ∷ rest) h = absurd (ground arith)

module _ {V : Type 0} where
  -- the parameters that are missing are all that a lenient plan leaves out
  pub strict-lenient :
      (p : Pipeline V) (params : Dict (Value V)) (found : List DefinitionProblem)
      → all_notes (input_problems p params) ≡ []
      → or_inputs false p params found ≡ or_inputs true p params found
  strict-lenient p params [] h = h
  strict-lenient p params (x ∷ xs) h = refl

  pub plan_checked-nil :
      (p : Pipeline V) (found : List DefinitionProblem) (lp : LevelPlan)
      → plan_checked p found ≡ ok lp
      → found ≡ []
  plan_checked-nil p [] lp h = refl
  plan_checked-nil p (x ∷ xs) lp h = absurd (ground arith)

  pub or_inputs-nil :
      (p : Pipeline V) (params : Dict (Value V)) (found : List DefinitionProblem)
      → or_inputs false p params found ≡ []
      → all_notes (input_problems p params) ≡ []
  or_inputs-nil p params [] h = h
  or_inputs-nil p params (x ∷ xs) h = absurd (ground arith)

  pub make_plan-strict :
      (p : Pipeline V) (params : Dict (Value V))
      → all_notes (input_problems p params) ≡ []
      → make_plan false p params ≡ make_plan true p params
  unfolding make_plan
  make_plan-strict p params h = rw (strict-lenient p params (problems p) h) refl

  pub make_plan-nil :
      (p : Pipeline V) (params : Dict (Value V)) (lp : LevelPlan)
      → make_plan false p params ≡ ok lp
      → all_notes (input_problems p params) ≡ []
  unfolding make_plan
  make_plan-nil p params lp h =
      or_inputs-nil p params (problems p)
        (plan_checked-nil p (or_inputs false p params (problems p)) lp h)

  pub started-ok :
      (run_id : String) (p : Pipeline V) (params : Dict (Value V)) (q : Result PlanError LevelPlan)
      (r : Prepared V)
      → started run_id p params q ≡ ok r
      → (lp : LevelPlan) × (q ≡ ok lp)
  started-ok run_id p params (err e) r h = absurd (ground arith)
  started-ok run_id p params (ok lp) r h = (lp, refl)

  module _ (str : Value V → String) (resolves : String → Bool) (p : Pipeline V)
      (params : Dict (Value V)) where
    pub flagged-nil :
        (levels : Dict ℕ) (ts : List Task) (id : String)
        → flagged_in (dry_tasks str resolves p params levels ts) ≡ []
        → elem id (ids ts) ≡ true
        → found_for str resolves p params id ≡ []
    unfolding flagged_in dry_tasks
    flagged-nil levels [] id h m = absurd (ground arith)
    flagged-nil levels (t ∷ ts) id h m =
        let (here, later) = name_flagged-eq-nil (found_for str resolves p params t.task_id) _ _ h in
        elim (Bool-cases (str_eq t.task_id id)) [
          | inl same ↦
              subst (λ x. found_for str resolves p params x ≡ []) ((eq_iff t.task_id id).0 same)
                here
          | inr differs ↦ flagged-nil levels ts id later (ground arith)
        ]

    pub nil-flagged :
        (levels : Dict ℕ) (ts : List Task)
        → ((id : String) → elem id (ids ts) ≡ true → found_for str resolves p params id ≡ [])
        → flagged_in (dry_tasks str resolves p params levels ts) ≡ []
    unfolding flagged_in dry_tasks
    nil-flagged levels [] f = refl
    nil-flagged levels (t ∷ ts) f =
        rw (f t.task_id (elem_self t.task_id (ids ts)))
          (nil-flagged levels ts (λ id m. f id (elem_cons id t.task_id (ids ts) m)))

    -- what there is to find of a task: what it lacks, and whether its action is unknown
    abbrev pub Quiet : TaskSpec V → Type 0
    Quiet spec =
        (notes_of (dependencies p.tasks) params spec ≡ [])
        × ((name : String) → action_name str resolves spec.work ≡ some name → resolves name ≡ true)

    unresolved-nil :
        (o : Option String) (name : String)
        → unresolved str resolves o ≡ []
        → o ≡ some name
        → resolves name ≡ true
    unresolved-nil none name h e = absurd (ground arith)
    unresolved-nil (some n) name h e = elim (Bool-cases (resolves n)) [
      | inl known ↦ ground (arith, known)
      | inr unknown ↦ absurd (ground (arith, unknown))
    ]

    nil-unresolved :
        (o : Option String)
        → ((name : String) → o ≡ some name → resolves name ≡ true)
        → unresolved str resolves o ≡ []
    nil-unresolved none f = refl
    nil-unresolved (some n) f = rw (f n refl) refl

    pub found_for-Quiet :
        (id : String) (spec : TaskSpec V)
        → IsBuilt p
        → lookup id p.tasks ≡ some spec
        → found_for str resolves p params id ≡ []
        → Quiet spec
    unfolding found_for input_problems
    found_for-Quiet id spec b e h =
        let (noted, unknown) =
          append-eq-nil (map finding (or_nothing (lookup id (input_problems p params)))) _ h in
        let known : unresolved str resolves (action_name str resolves spec.work) ≡ [] =
          rw e at unknown in
        (
          sym (notes_for-lookup (dependencies p.tasks) params p.tasks id spec b.distinct b.keyed e)
              ∙ nil-map_finding _ noted,
          λ name n. unresolved-nil (action_name str resolves spec.work) name known n,
        )

    pub Quiet-found_for :
        (id : String) (spec : TaskSpec V)
        → IsBuilt p
        → lookup id p.tasks ≡ some spec
        → Quiet spec
        → found_for str resolves p params id ≡ []
    unfolding found_for input_problems
    Quiet-found_for id spec b e (silent, known) =
        rw
          (
            notes_for-lookup (dependencies p.tasks) params p.tasks id spec b.distinct b.keyed e,
            silent,
            e,
          )
          (nil-unresolved (action_name str resolves spec.work) known)

    pub all_notes-Quiet :
        IsBuilt p
        → ((id : String) (spec : TaskSpec V) → lookup id p.tasks ≡ some spec → Quiet spec)
        → all_notes (input_problems p params) ≡ []
    unfolding input_problems
    all_notes-Quiet b f = all_notes-eq-nil (dependencies p.tasks) params p.tasks (
        All_of_lookup (λ e. notes_of (dependencies p.tasks) params e.1 ≡ []) p.tasks b.distinct
          (λ id spec e. (f id spec e).0))
