-- ===== src/Pipeline/Runner/Conclusion.antt =====
-- pipeline/runner.py: how a run is concluded.
use file_automation.Base.{
  String, Bool, true, false, not, ◌&&◌, some, List, [], ◌∷◌, filter, any, all, if◌then◌else◌, ◌≡◌,
  ◌↔◌, refl, arith, inl, inr, Bool-cases,
}
use file_automation.Pipeline.Model.{RunStatus, TaskRun, is_failure}
use file_automation.Pipeline.Runner.{Plan, Engine, ids, is_cancelled, was_cancelled}
use file_automation.Pipeline.Runner.Moves.{close, concluded, conclude}

module _ {V : Type 0} where
  abbrev failures : (String → TaskRun V) → List String → List String
  failures states xs = filter (λ id. is_failure (states id).status) xs

  abbrev none_failed : (String → TaskRun V) → List String → Bool
  none_failed states xs = all (λ id. not (is_failure (states id).status)) xs

  failures-none :
      (states : String → TaskRun V) (xs : List String)
      → none_failed states xs ≡ true
      → (failures states xs ≡ []) × (any (λ id. is_cancelled (states id).status) xs ≡ false)
  failures-none states [] h = (refl, refl)
  failures-none states (x ∷ xs) h = ground (arith, failures-none states xs)

  failures-some :
      (states : String → TaskRun V) (xs : List String)
      → none_failed states xs ≡ false
      → (id : String) × (more : List String) × (failures states xs ≡ id ∷ more)
  failures-some states [] h = absurd (ground arith)
  failures-some states (x ∷ xs) h = elim (Bool-cases (is_failure (states x).status)) [
    | inl bad ↦ (x, failures states xs, rw bad refl)
    | inr good ↦ rw good (failures-some states xs (ground arith))
  ]

  -- the two ends of a run, by the tasks that have failed
  concluded-status :
      (b : Bool) (broken : List String) (e : Engine V)
      → ((if b then close RunStatus.cancelled (some was_cancelled) e else concluded broken e).status
          ≡ RunStatus.succeeded)
        ↔ ((b ≡ false) × (broken ≡ []))
  concluded-status true broken e = (λ h. absurd (ground arith), λ h. absurd (ground arith))
  concluded-status false [] e = (λ h. (refl, refl), λ h. refl)
  concluded-status false (x ∷ xs) e = (λ h. absurd (ground arith), λ h. absurd (ground arith))

  -- A run is concluded as succeeded exactly when no task of its plan has failed, timed out or been
  -- cancelled, whether or not a cancellation was seen.
  pub conclude-succeeded :
      (plan : Plan) (e : Engine V)
      → ((conclude plan e).status ≡ RunStatus.succeeded)
        ↔ (all (λ id. not (is_failure (e.states id).status)) (ids plan.tasks) ≡ true)
  unfolding conclude
  conclude-succeeded plan e =
      let stopped = any (λ id. is_cancelled (e.states id).status) (ids plan.tasks) in
      let (only, enough) =
        concluded-status (e.cancel_seen && stopped) (failures e.states (ids plan.tasks)) e in
      (
        λ h. elim (Bool-cases (none_failed e.states (ids plan.tasks))) [
          | inl well ↦ well
          | inr ill ↦
              let (id, more, some_failed) = failures-some e.states (ids plan.tasks) ill in
              absurd (ground (arith, (only h).1, some_failed))
        ],
        λ well.
            let (no_failure, no_cancel) = failures-none e.states (ids plan.tasks) well in
            enough (ground (arith, no_cancel), no_failure),
      )
