-- ===== src/Pipeline/Planning/DryRuns/Notes.antt =====
-- pipeline/pipeline.py: what `_input_problems` notes, task by task.
use file_automation.Base.{
  String, str_eq, eq_iff, false, none, some, List, [], ◌∷◌, ◌++◌, elem, Dict, lookup, keys,
  elem-keys, ◌≡◌, refl, arith, All, IsDistinct, inl, inr, Bool-cases, append-eq-nil, subst, sym,
  ◌∙◌, has_key_of_lookup,
}
use file_automation.Pipeline.Graph.{Dependencies}
use file_automation.Pipeline.Substitution.{Value}
use file_automation.Pipeline.Planning.{
  TaskSpec, DefinitionProblem, notes_of, add_notes, notes_for, all_notes,
}
use file_automation.Pipeline.Planning.DryRuns.{or_nothing}
use file_automation.Pipeline.Planning.Built.{IsKeyed}

-- an entry for each task, and what is found in it
pub All_of_lookup :
    {A : Type 0} (P : String × A → Type 0) (d : Dict A)
    → IsDistinct (keys d)
    → ((id : String) (v : A) → lookup id d ≡ some v → P (id, v))
    → All P d
unfolding keys lookup
All_of_lookup P [] u f = tt
All_of_lookup P ((j, w) ∷ d) u f = (
  f j w (ground (arith, eq_iff j j)),
  All_of_lookup P d u.1 (λ id v e.
      f id v (ground (arith, e, eq_iff j id, u.0, elem-keys j d, has_key_of_lookup j d v))),
)

module _ {V : Type 0} (deps : Dependencies) (params : Dict (Value V)) where
  lookup-add_notes :
      (id k : String) (notes : List DefinitionProblem) (rest : Dict (List DefinitionProblem))
      → str_eq id k ≡ false
      → lookup k (add_notes id notes rest) ≡ lookup k rest
  unfolding lookup
  lookup-add_notes id k [] rest h = refl
  lookup-add_notes id k (n ∷ ns) rest h = rw h refl

  or_nothing-add_notes :
      (id : String) (notes : List DefinitionProblem) (rest : Dict (List DefinitionProblem))
      → lookup id rest ≡ none
      → or_nothing (lookup id (add_notes id notes rest)) ≡ notes
  unfolding lookup
  or_nothing-add_notes id [] rest h = rw h refl
  or_nothing-add_notes id (n ∷ ns) rest h = ground (arith, eq_iff id id)

  unnoted :
      (d : Dict (TaskSpec V)) (k : String)
      → All IsKeyed d
      → elem k (keys d) ≡ false
      → lookup k (notes_for deps params d) ≡ none
  unfolding notes_for keys lookup
  unnoted [] k a h = refl
  unnoted ((id, spec) ∷ d) k a h = ground (
    arith,
    unnoted d k a.1,
    a.0.0,
    lookup-add_notes spec.task.task_id k (notes_of deps params spec) (notes_for deps params d),
  )

  -- the notes under a task's ID are its own
  pub notes_for-lookup :
      (d : Dict (TaskSpec V)) (k : String) (spec : TaskSpec V)
      → IsDistinct (keys d)
      → All IsKeyed d
      → lookup k d ≡ some spec
      → or_nothing (lookup k (notes_for deps params d)) ≡ notes_of deps params spec
  unfolding notes_for keys lookup
  notes_for-lookup [] k spec u a h = absurd (ground arith)
  notes_for-lookup ((j, w) ∷ d) k spec u a h = elim (Bool-cases (str_eq j k)) [
    | inl same ↦
        let here : w ≡ spec = ground arith in
        let key : w.task.task_id ≡ k = ground (arith, eq_iff j k, a.0.0) in
        rw (← here) (
          subst
            (λ x.
              or_nothing (lookup k (add_notes x (notes_of deps params w) (notes_for deps params d)))
              ≡ notes_of deps params w)
            (sym key)
            (or_nothing-add_notes k (notes_of deps params w) (notes_for deps params d)
              (unnoted d k a.1 (ground (arith, eq_iff j k, u.0)))))
    | inr differs ↦ ground (
      arith,
      notes_for-lookup d k spec u.1 a.1,
      a.0.0,
      eq_iff j k,
      lookup-add_notes w.task.task_id k (notes_of deps params w) (notes_for deps params d),
    )
  ]

  all_notes-add_notes :
      (id : String) (notes : List DefinitionProblem) (rest : Dict (List DefinitionProblem))
      → all_notes (add_notes id notes rest) ≡ notes ++ all_notes rest
  all_notes-add_notes id [] rest = refl
  all_notes-add_notes id (n ∷ ns) rest = refl

  -- nothing is noted exactly when there is nothing to note of any task
  pub all_notes-eq-nil :
      (d : Dict (TaskSpec V))
      → All (λ e. notes_of deps params e.1 ≡ []) d
      → all_notes (notes_for deps params d) ≡ []
  unfolding notes_for
  all_notes-eq-nil [] h = refl
  all_notes-eq-nil ((id, spec) ∷ d) h = rw (h.0) (all_notes-eq-nil d h.1)

  pub nil-all_notes :
      (d : Dict (TaskSpec V)) (k : String) (spec : TaskSpec V)
      → all_notes (notes_for deps params d) ≡ []
      → lookup k d ≡ some spec
      → notes_of deps params spec ≡ []
  unfolding notes_for lookup
  nil-all_notes [] k spec h e = absurd (ground arith)
  nil-all_notes ((id, w) ∷ d) k spec h e =
      let (here, later) =
        append-eq-nil (notes_of deps params w) (all_notes (notes_for deps params d)) (
          sym
            (all_notes-add_notes w.task.task_id (notes_of deps params w) (notes_for deps params d))
          ∙ h) in
      elim (Bool-cases (str_eq id k)) [
        | inl same ↦
            let found : w ≡ spec = ground arith in
            subst (λ s. notes_of deps params s ≡ []) found here
        | inr differs ↦ nil-all_notes d k spec later (ground arith)
      ]
