-- ===== src/Pipeline/Runner/Ends.antt =====
-- The invariant of a run in pipeline/runner.py when a flight lands or expires, and at a cancellation.
use file_automation.Base.{
  ℕ, String, str_eq, eq_iff, true, false, not, ◌&&◌, ◌||◌, Option, none, some, List, [], ◌∷◌, elem,
  filter, elem-filter, update, ◌≡◌, refl, arith, inl, inr, Bool-cases,
}
use file_automation.Pipeline.Worker.{Flight, abandon}
use file_automation.Pipeline.Runner.{Plan, Engine, is_pending}
use file_automation.Pipeline.Runner.Moves.{timed_out, observe_cancel, landed, expired, is_due}
use file_automation.Pipeline.Runner.Queues.{release-Queued}
use file_automation.Pipeline.Runner.Invariant.{pending_unlaunched}
use file_automation.Pipeline.Runner.Threads.{observe_cancel-IsThreaded}
use file_automation.Pipeline.Runner.Landings.{landed-IsThreaded, expired-IsThreaded}
use file_automation.Pipeline.Runner.Live.{
  IsLive, IsDistinct-filter, Queued-fewer, Queued-same, pending-update, release_kept,
}

module _ {V : Type 0} where
  pub landed-IsLive :
      (plan : Plan) (inbox : List String) (e : Engine V)
      → e.inbox ≡ inbox
      → IsLive plan e
      → IsLive plan (landed plan inbox e)
  landed-IsLive plan [] e same l = l
  landed-IsLive plan (id ∷ rest) e same l =
      let threaded = landed-IsThreaded plan (id ∷ rest) e same l.threaded in
      let kept = λ (other : String). not (str_eq other id) in
      elim (Bool-cases (elem id e.flights)) [
        | inl flying ↦ rw flying (record {
          threaded = rw flying at threaded;
          queued = release-Queued plan id _ (Queued-same e _ refl refl refl refl l.queued);
          unstarted =
              rw
                (release_kept plan id
                  (record e { inbox = rest; flights = filter kept e.flights })).0
                l.unstarted;
          listed =
              rw
                (release_kept plan id
                  (record e { inbox = rest; flights = filter kept e.flights })).1
                (λ x m. l.listed x (elem-filter x kept e.flights m).0);
          flights_distinct =
              rw
                (release_kept plan id
                  (record e { inbox = rest; flights = filter kept e.flights })).1
                (IsDistinct-filter kept e.flights l.flights_distinct);
        })
        | inr dropped ↦ rw dropped (record {
          threaded = rw dropped at threaded;
          queued = Queued-same e _ refl refl refl refl l.queued;
          unstarted = l.unstarted;
          listed = l.listed;
          flights_distinct = l.flights_distinct;
        })
      ]

  pub expired-IsLive :
      (plan : Plan) (now : ℕ) (id : String) (o : Option Flight) (e : Engine V)
      → e.threads id ≡ o
      → elem id e.flights ≡ true
      → IsLive plan e
      → IsLive plan (expired plan now id o e)
  expired-IsLive plan now id none e t m l = l
  expired-IsLive plan now id (some f) e t m l =
      let threaded = expired-IsThreaded plan now id (some f) e t m l.threaded in
      let kept = λ (other : String). not (str_eq other id) in
      let after = record e {
        flights = filter kept e.flights;
        threads = update e.threads id (some (abandon f));
        states = update e.states id (timed_out (e.states id));
      } in
      let away : (x : String) → is_pending (e.states x).status ≡ true → str_eq id x ≡ false = λ x p.
        ground (
          arith,
          eq_iff id x,
          pending_unlaunched true e.states e.threads e.flights e.inbox x l.threaded p,
        ) in
      elim (Bool-cases (is_due now f.deadline && not f.settled)) [
        | inl late ↦ rw late (record {
          threaded = rw late at threaded;
          queued = release-Queued plan id after (
              Queued-fewer e after (λ x. refl)
                (λ x i.
                  let p = l.queued.ready_pending x i in
                  (i, pending-update e.states id x _ p (away x p)))
                (λ x i.
                  let p = l.queued.waiting_pending x i in
                  (i, pending-update e.states id x _ p (away x p)))
                l.queued.ready_distinct l.queued.waiting_distinct l.queued);
          unstarted =
              rw (release_kept plan id after).0 (λ x p. ground (arith, l.unstarted x, eq_iff id x));
          listed =
              rw (release_kept plan id after).1
                (λ x i. l.listed x (elem-filter x kept e.flights i).0);
          flights_distinct =
              rw (release_kept plan id after).1
                (IsDistinct-filter kept e.flights l.flights_distinct);
        })
        | inr early ↦ rw early l
      ]

  pub observe_cancel-IsLive :
      (plan : Plan) (e : Engine V) → IsLive plan e → IsLive plan (observe_cancel plan e)
  unfolding observe_cancel
  observe_cancel-IsLive plan e l =
      let threaded = observe_cancel-IsThreaded plan e l.threaded in
      elim (Bool-cases (e.cancel_seen || not e.cancel_token)) [
        | inl idle ↦ rw idle l
        | inr acts ↦ rw acts (record {
          threaded = rw acts at threaded;
          queued = record {
            ready_pending = λ x m. absurd (ground arith);
            ready_free = λ x m. absurd (ground arith);
            waiting_pending = λ x m. absurd (ground arith);
            waiting_free = λ x m. absurd (ground arith);
            ready_distinct = tt;
            waiting_distinct = tt;
            disjoint = λ x m. absurd (ground arith);
          };
          unstarted = λ x p. ground (arith, l.unstarted x);
          listed = l.listed;
          flights_distinct = l.flights_distinct;
        })
      ]
