-- ===== src/Pipeline/Planning/Built.antt =====
-- pipeline/pipeline.py: what holds of every pipeline that `Pipeline` and `task` have put together.
use file_automation.Base.{
  ℕ, ◌≤◌, String, str_eq, eq_iff, ◌||◌, List, [], ◌∷◌, ◌++◌, elem, ltb, if◌then◌else◌, Dict, insert,
  keys, has_key-insert, elem-keys, ok, ◌≡◌, refl, arith, All, IsDistinct, append-eq-nil, Bool-cases,
  inl, inr, subst,
}
use file_automation.Pipeline.Substitution.{Value}
use file_automation.Pipeline.Planning.{
  TaskSpec, Pipeline, DefinitionProblem, empty_name, no_workers, is_blank, new_pipeline, create,
  task_problems, add_checked, add_task,
}

workers_checked :
    (max_workers : ℕ) (xs ys : List DefinitionProblem)
    → xs ++ (if ltb max_workers 1 then no_workers ∷ [] else []) ++ ys ≡ []
    → 1 ≤ max_workers
workers_checked max_workers xs ys h =
    let (a, b) = append-eq-nil (xs ++ (if ltb max_workers 1 then no_workers ∷ [] else [])) ys h in
    let (c, d) = append-eq-nil xs (if ltb max_workers 1 then no_workers ∷ [] else []) a in
    ground arith

module _ {V : Type 0} where
  -- The pipelines that a program can hold: created, or with a task added. A policy was checked when
  -- it was made, so it allows an attempt.
  pub data Builds : Pipeline V → Type 0 where
    created :
        (name : String) (max_workers : ℕ) (params : Dict (Value V)) (p : Pipeline V)
        → create name max_workers params ≡ ok p
        → Builds p
    added :
        (spec : TaskSpec V) (p q : Pipeline V)
        → Builds p
        → 1 ≤ spec.task.retry.max_attempts
        → add_task spec p ≡ ok q
        → Builds q

  -- an entry stands under its task's ID, and its policy allows an attempt
  abbrev pub IsKeyed : String × TaskSpec V → Type 0
  IsKeyed (id, spec) = (spec.task.task_id ≡ id) × (1 ≤ spec.task.retry.max_attempts)

  pub record IsBuilt (p : Pipeline V) : Type 0 where
    pub distinct : IsDistinct (keys p.tasks)
    pub keyed : All IsKeyed p.tasks
    pub workers : 1 ≤ p.max_workers

  elem-keys-insert :
      (id k : String) (spec : TaskSpec V) (d : Dict (TaskSpec V))
      → elem k (keys (insert id spec d)) ≡ (str_eq id k || elem k (keys d))
  elem-keys-insert id k spec d =
      rw (elem-keys k (insert id spec d), elem-keys k d) (has_key-insert id k spec d)

  insert-IsDistinct :
      (id : String) (spec : TaskSpec V) (d : Dict (TaskSpec V))
      → IsDistinct (keys d)
      → IsDistinct (keys (insert id spec d))
  unfolding keys insert
  insert-IsDistinct id spec [] h = (refl, tt)
  insert-IsDistinct id spec ((j, w) ∷ d) h = elim (Bool-cases (str_eq j id)) [
    | inl same ↦ rw same h
    | inr differs ↦ rw differs (
      ground (arith, elem-keys-insert id j spec d, h.0, eq_iff j id, eq_iff id j, differs),
      insert-IsDistinct id spec d h.1,
    )
  ]

  insert-IsKeyed :
      (id : String) (spec : TaskSpec V) (d : Dict (TaskSpec V))
      → IsKeyed (id, spec)
      → All IsKeyed d
      → All IsKeyed (insert id spec d)
  unfolding insert
  insert-IsKeyed id spec [] k h = (k, tt)
  insert-IsKeyed id spec ((j, w) ∷ d) k h = elim (Bool-cases (str_eq j id)) [
    | inl same ↦ rw same (subst (λ x. IsKeyed (x, spec)) (ground (arith, eq_iff j id)) k, h.1)
    | inr differs ↦ rw differs (h.0, insert-IsKeyed id spec d k h.1)
  ]

  new_pipeline-IsBuilt :
      (name : String) (max_workers : ℕ) (params : Dict (Value V)) (found : List DefinitionProblem)
      (p : Pipeline V)
      → (found ≡ [] → 1 ≤ max_workers)
      → new_pipeline name max_workers params found ≡ ok p
      → IsBuilt p
  unfolding keys
  new_pipeline-IsBuilt name max_workers params [] p w h =
      let fresh : IsBuilt
          (record { name = name; max_workers = max_workers; params = params; tasks = [] }) =
        record { distinct = tt; keyed = tt; workers = w refl } in
      subst IsBuilt (cc) fresh
  new_pipeline-IsBuilt name max_workers params (x ∷ xs) p w h = absurd (ground arith)

  create-IsBuilt :
      (name : String) (max_workers : ℕ) (params : Dict (Value V)) (p : Pipeline V)
      → create name max_workers params ≡ ok p
      → IsBuilt p
  unfolding create
  create-IsBuilt name max_workers params p h =
      new_pipeline-IsBuilt name max_workers params _ p
        (workers_checked max_workers (if is_blank name then empty_name ∷ [] else []) _) h

  add_checked-IsBuilt :
      (spec : TaskSpec V) (p q : Pipeline V) (found : List DefinitionProblem)
      → 1 ≤ spec.task.retry.max_attempts
      → IsBuilt p
      → add_checked spec p found ≡ ok q
      → IsBuilt q
  add_checked-IsBuilt spec p q [] a b h =
      let grown : IsBuilt (record p { tasks = insert spec.task.task_id spec p.tasks }) = record {
        distinct = insert-IsDistinct spec.task.task_id spec p.tasks b.distinct;
        keyed = insert-IsKeyed spec.task.task_id spec p.tasks (refl, a) b.keyed;
        workers = b.workers;
      } in
      subst IsBuilt (cc) grown
  add_checked-IsBuilt spec p q (x ∷ xs) a b h = absurd (ground arith)

  pub Builds-IsBuilt : (p : Pipeline V) → Builds p → IsBuilt p
  unfolding add_task
  Builds-IsBuilt p (Builds.created name max_workers params _ h) =
      create-IsBuilt name max_workers params p h
  Builds-IsBuilt q (Builds.added spec p _ b a h) =
      add_checked-IsBuilt spec p q (task_problems spec p.tasks) a (Builds-IsBuilt p b) h
