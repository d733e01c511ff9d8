-- ===== src/Pipeline/Planning/Rendered.antt =====
-- pipeline/pipeline.py: what the checks at the start of a run mean for the placeholders that
-- pipeline/worker.py fills in, those of a task's whole action and of its idempotency key.
use file_automation.Base.{
  String, Option, none, some, List, [], ◌∷◌, map, Dict, lookup, Result, ok, err, ◌≡◌, refl, arith,
  append-eq-nil, subst, ap,
}
use file_automation.Pipeline.Graph.{Dependencies}
use file_automation.Pipeline.Substitution.{Value, Values, text, list, value, references}
use file_automation.Pipeline.Substitution.Render.{render, render_key}
use file_automation.Pipeline.Substitution.Accepted.{IsOk, named_action-IsOk, render_key-IsOk}
use file_automation.Pipeline.Planning.{
  Work, callable, action, TaskSpec, Pipeline, dependencies, upstream_at, input_problems,
  placeholder_problems, key_notes, notes_of,
}
use file_automation.Pipeline.Planning.Runs.{
  PlanError, LevelPlan, Prepared, blank_run, merge, started, start,
}
use file_automation.Pipeline.Planning.DryRuns.Notes.{nil-all_notes}
use file_automation.Pipeline.Planning.DryRuns.Predicted.{make_plan-nil}

nil-map {ℓ} : {A B : Type ℓ} (f : A → B) (xs : List A) → map f xs ≡ [] → xs ≡ []
nil-map f [] h = refl
nil-map f (x ∷ xs) h = cc

module _ {V : Type 0} where
  started-params :
      (run_id : String) (p : Pipeline V) (params : Dict (Value V)) (q : Result PlanError LevelPlan)
      (r : Prepared V)
      → started run_id p params q ≡ ok r
      → ((lp : LevelPlan) × (q ≡ ok lp)) × (params ≡ r.run.params)
  unfolding blank_run
  started-params run_id p params (err e) r h = absurd (ground arith)
  started-params run_id p params (ok lp) r h =
      let e : record { plan = lp.plan; run = blank_run run_id p lp params } ≡ r = cc in
      ((lp, refl), ap (λ x. x.run.params) e)

  -- an action begins with the name of a command, a text without a placeholder
  abbrev pub HasPlainName : Work V → Type 0
  HasPlainName callable = Unit
  HasPlainName (action a) =
      (name : String) × (rest : Values V) × (a ≡ value (text name) rest) × (references name ≡ [])

  module _ (str : Value V → String) (nothing : Value V) (given results : Dict (Value V)) where
    -- the placeholders of a task's work, the name of the command included, and of its idempotency key, are replaced without an exception
    abbrev pub WorkIsOk : Work V → Type 0
    WorkIsOk callable = Unit
    WorkIsOk (action a) = IsOk (render str nothing given results (list a))

    abbrev pub KeyIsOk : Option String → Type 0
    KeyIsOk none = Unit
    KeyIsOk (some key) = IsOk (render_key str nothing key given)

    checked-WorkIsOk :
        (deps : Dependencies) (id : String) (work : Work V)
        → HasPlainName work
        → placeholder_problems deps (some given) id work ≡ []
        → WorkIsOk work
    checked-WorkIsOk deps id callable n h = tt
    checked-WorkIsOk deps id (action a) (name, rest, e, plain) h = rw e (
        named_action-IsOk str nothing given results (some (upstream_at deps id)) name rest plain
          (nil-map _ _ (rw e at h)))

    checked-KeyIsOk : (id : String) (o : Option String) → key_notes id given o ≡ [] → KeyIsOk o
    checked-KeyIsOk id none h = tt
    checked-KeyIsOk id (some key) h = render_key-IsOk str nothing given key (nil-map _ _ h)

  -- Once a run has started, no placeholder can fail a task whose action begins with the name of a
  -- command, a text without a placeholder: the whole action, as a worker renders it, and the task's
  -- idempotency key are rendered with the run's parameters without an exception, whatever the results
  -- of the other tasks turn out to be.
  pub start-IsOk :
      (str : Value V → String) (nothing : Value V) (results : Dict (Value V)) (run_id : String)
      (p : Pipeline V) (params : Dict (Value V)) (r : Prepared V) (id : String) (spec : TaskSpec V)
      → start run_id p params ≡ ok r
      → lookup id p.tasks ≡ some spec
      → HasPlainName spec.work
      → WorkIsOk str nothing r.run.params results spec.work
        × KeyIsOk str nothing r.run.params results spec.task.idempotency_key
  unfolding start input_problems notes_of
  start-IsOk str nothing results run_id p params r id spec h e n =
      let all_params = merge p.params params in
      let deps = dependencies p.tasks in
      let ((lp, planned), same) = started-params run_id p all_params _ r h in
      let clean =
        nil-all_notes deps all_params p.tasks id spec (make_plan-nil p all_params lp planned) e in
      let (in_work, in_key) =
        append-eq-nil (placeholder_problems deps (some all_params) spec.task.task_id spec.work) _
          clean in
      subst
        (λ given.
          WorkIsOk str nothing given results spec.work
          × KeyIsOk str nothing given results spec.task.idempotency_key)
        same
        (
          checked-WorkIsOk str nothing all_params results deps spec.task.task_id spec.work n
              in_work,
          checked-KeyIsOk str nothing all_params results spec.task.task_id spec.task.idempotency_key
              in_key,
        )
