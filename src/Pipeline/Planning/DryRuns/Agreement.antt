-- ===== src/Pipeline/Planning/DryRuns/Agreement.antt =====
-- pipeline/pipeline.py: a dry run succeeds exactly when a real run can start.
use file_automation.Base.{
  String, Bool, true, false, some, [], Dict, lookup, has_key_of_lookup, lookup_of_has_key, Result,
  ok, err, ◌≡◌, refl, sym, arith, subst, ◌∙◌, ◌↔◌,
}
use file_automation.Pipeline.Model.{RunStatus}
use file_automation.Pipeline.Substitution.{Value}
use file_automation.Pipeline.Planning.{TaskSpec, Pipeline, dependencies, input_problems}
use file_automation.Pipeline.Planning.Runs.{
  PlanError, LevelPlan, Prepared, make_plan, blank_run, merge, start,
}
use file_automation.Pipeline.Planning.Built.{Builds, IsBuilt, Builds-IsBuilt}
use file_automation.Pipeline.Planning.Workable.{make_plan-Drawn, Covers, Drawn-Covers}
use file_automation.Pipeline.Planning.DryRuns.{
  DryRun, flagged_in, concluded, action_name, dry_tasks, dried, dry_run,
}
use file_automation.Pipeline.Planning.DryRuns.Notes.{nil-all_notes}
use file_automation.Pipeline.Planning.DryRuns.Predicted.{
  make_plan-strict, make_plan-nil, started-ok, flagged-nil, nil-flagged, Quiet, found_for-Quiet,
  Quiet-found_for, all_notes-Quiet, status_of-succeeded,
}

module _ {V : Type 0} (str : Value V → String) (resolves : String → Bool) (p : Pipeline V) where
  -- every action that a task of the pipeline names is a known one
  abbrev pub KnowsActions : Type 0
  KnowsActions =
      (id : String) (spec : TaskSpec V) (name : String)
      → lookup id p.tasks ≡ some spec
      → action_name str resolves spec.work ≡ some name
      → resolves name ≡ true

  dried-ok :
      (params : Dict (Value V)) (q : Result PlanError LevelPlan) (d : DryRun)
      → dried str resolves p params q ≡ ok d
      → (lp : LevelPlan) × (q ≡ ok lp)
        × (concluded (dry_tasks str resolves p params lp.levels lp.plan.tasks) ≡ d)
  dried-ok params (err e) d h = absurd (ground arith)
  dried-ok params (ok lp) d h = (lp, refl, cc)

  -- a dry run that flags nothing
  IsQuiet : Dict (Value V) → Type 0
  IsQuiet params =
      (id : String) (spec : TaskSpec V)
      → lookup id p.tasks ≡ some spec
      → Quiet str resolves p params spec

  unflagged-IsQuiet :
      (params : Dict (Value V)) (lp : LevelPlan)
      → IsBuilt p
      → Covers p lp
      → flagged_in (dry_tasks str resolves p params lp.levels lp.plan.tasks) ≡ []
      → IsQuiet params
  unfolding IsQuiet
  unflagged-IsQuiet params lp b c h id spec e = found_for-Quiet str resolves p params id spec b e (
      flagged-nil str resolves p params lp.levels lp.plan.tasks id h
        (ground (arith, c.all id, has_key_of_lookup id p.tasks spec e)))

  IsQuiet-unflagged :
      (params : Dict (Value V)) (lp : LevelPlan)
      → IsBuilt p
      → Covers p lp
      → IsQuiet params
      → flagged_in (dry_tasks str resolves p params lp.levels lp.plan.tasks) ≡ []
  unfolding IsQuiet
  IsQuiet-unflagged params lp b c q =
      nil-flagged str resolves p params lp.levels lp.plan.tasks (λ id m.
        let (spec, e) = lookup_of_has_key id p.tasks (ground (arith, c.all id, m)) in
        Quiet-found_for str resolves p params id spec b e (q id spec e))

  -- A dry run comes back as succeeded exactly when the real run with the same parameters can start
  -- and the registry knows the action of every task, for a pipeline that is built by its methods. So
  -- it finds neither too little nor too much.
  pub dry_run-start :
      (run_id : String) (params : Dict (Value V))
      → Builds p
      → ((d : DryRun) × (dry_run str resolves p params ≡ ok d) × (d.status ≡ RunStatus.succeeded))
        ↔ (((r : Prepared V) × (start run_id p params ≡ ok r)) × KnowsActions)
  unfolding dry_run start concluded IsQuiet input_problems
  dry_run-start run_id params built =
      let b = Builds-IsBuilt p built in
      let all_params = merge p.params params in
      (
        λ (d, dry, fine).
            let (lp, drawn, done) = dried-ok all_params (make_plan true p all_params) d dry in
            let flagged =
              status_of-succeeded _ (subst (λ x. x.status ≡ RunStatus.succeeded) (sym done) fine) in
            let covers = Drawn-Covers p lp b (make_plan-Drawn true p all_params lp drawn) in
            let quiet = unflagged-IsQuiet all_params lp b covers flagged in
            let planned : make_plan false p all_params ≡ ok lp =
              make_plan-strict p all_params (all_notes-Quiet str resolves p all_params b quiet)
              ∙ drawn in
            (
              (record { plan = lp.plan; run = blank_run run_id p lp all_params }, rw planned refl),
              λ id spec name e. (quiet id spec e).1 name,
            ),
        λ ((r, starts), knows).
            let (lp, planned) =
              started-ok run_id p all_params (make_plan false p all_params) r starts in
            let noted = make_plan-nil p all_params lp planned in
            let drawn : make_plan true p all_params ≡ ok lp =
              sym (make_plan-strict p all_params noted) ∙ planned in
            let covers = Drawn-Covers p lp b (make_plan-Drawn true p all_params lp drawn) in
            let quiet : IsQuiet all_params = λ id spec e. (
              nil-all_notes (dependencies p.tasks) all_params p.tasks id spec noted e,
              λ name. knows id spec name e,
            ) in
            let report = concluded (dry_tasks str resolves p all_params lp.levels lp.plan.tasks) in
            (report, rw drawn refl, rw (IsQuiet-unflagged all_params lp b covers quiet) refl),
      )
