-- ===== src/Pipeline/Runner/Landings.antt =====
-- The threads of a run in pipeline/runner.py when a flight lands or expires or a task is admitted.
use file_automation.Base.{
  ℕ, String, str_eq, eq_iff, true, not, ◌&&◌, Option, none, some, List, [], ◌∷◌, elem, filter,
  elem-filter, elem-filter_intro, ◌≡◌, refl, arith, inl, inr, Bool-cases,
}
use file_automation.Pipeline.Model.{TaskRun}
use file_automation.Pipeline.Worker.{Flight, abandon}
use file_automation.Pipeline.Runner.{Plan, Engine, Verdict, is_pending, end_unstarted}
use file_automation.Pipeline.Runner.Moves.{
  timed_out, take_landing, landed, expired, is_due, admitted,
}
use file_automation.Pipeline.Runner.Invariant.{pending_unlaunched, Threaded-record, Threaded-at}
use file_automation.Pipeline.Runner.Threads.{IsThreaded, release-IsThreaded}

module _ {V : Type 0} where
  pub landed-IsThreaded :
      (plan : Plan) (inbox : List String) (e : Engine V)
      → e.inbox ≡ inbox
      → IsThreaded true e
      → IsThreaded true (landed plan inbox e)
  landed-IsThreaded plan [] e same t = t
  landed-IsThreaded plan (id ∷ rest) e same t =
      let kept = λ (other : String). not (str_eq other id) in
      elim (Bool-cases (elem id e.flights)) [
        | inl flying ↦ rw flying (
            release-IsThreaded plan id _ (record {
              sound = t.sound;
              closed_final = t.closed_final;
              grounded = λ x f l n. elim (Bool-cases (str_eq x id)) [
                | inl home ↦
                    let (g, l', c) = t.posted x (ground (arith, eq_iff x id, eq_iff id x)) in
                    ground arith
                | inr away ↦ t.grounded x f l (ground (arith, elem-filter_intro x kept e.flights))
              ];
              in_air = λ x on m. t.in_air x on (elem-filter x kept e.flights m).0;
              posted = λ x m. t.posted x (ground arith);
            }))
        | inr dropped ↦ rw dropped (record {
          sound = t.sound;
          closed_final = t.closed_final;
          grounded = t.grounded;
          in_air = t.in_air;
          posted = λ x m. t.posted x (ground arith);
        })
      ]

  pub take_landing-IsThreaded :
      (plan : Plan) (e : Engine V) → IsThreaded true e → IsThreaded true (take_landing plan e)
  unfolding take_landing
  take_landing-IsThreaded plan e t = landed-IsThreaded plan e.inbox e refl t

  pub expired-IsThreaded :
      (plan : Plan) (now : ℕ) (id : String) (o : Option Flight) (e : Engine V)
      → e.threads id ≡ o
      → elem id e.flights ≡ true
      → IsThreaded true e
      → IsThreaded true (expired plan now id o e)
  unfolding abandon
  expired-IsThreaded plan now id none e l m t = t
  expired-IsThreaded plan now id (some f) e l m t =
      let kept = λ (other : String). not (str_eq other id) in
      let s = t.sound id f l in
      elim (Bool-cases (is_due now f.deadline && not f.settled)) [
        | inl late ↦ rw late (
            release-IsThreaded plan id _ (
              Threaded-at true e.states e.threads e.flights e.inbox (filter kept e.flights) e.inbox
                id (timed_out (e.states id)) (abandon f) t (ground (arith, s)) (λ c. refl)
                (λ n. ground arith)
                (λ on n. ground (arith, (elem-filter id kept e.flights n).1, eq_iff id id))
                (λ n. let (g, l', c) = t.posted id n in ground arith)
                (λ y other. ground (
                  arith,
                  elem-filter y kept e.flights,
                  elem-filter_intro y kept e.flights,
                  eq_iff id y,
                  eq_iff y id,
                ))
                (λ y other. refl)))
        | inr early ↦ rw early t
      ]

  pub admitted-IsThreaded :
      (plan : Plan) (id : String) (r : TaskRun V) (o : Option Verdict) (e : Engine V)
      → is_pending (e.states id).status ≡ true
      → IsThreaded true e
      → IsThreaded true (admitted plan id (r, o) e)
  admitted-IsThreaded plan id r none e p t =
      Threaded-record true e.states e.threads e.flights e.inbox id r
        (pending_unlaunched true e.states e.threads e.flights e.inbox id t p) t
  admitted-IsThreaded plan id r (some v) e p t = release-IsThreaded plan id _ (
      Threaded-record true e.states e.threads e.flights e.inbox id (end_unstarted v r)
        (pending_unlaunched true e.states e.threads e.flights e.inbox id t p) t)
