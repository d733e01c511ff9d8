-- ===== src/Pipeline/Runner/Live.antt =====
-- The invariant of a run in pipeline/runner.py while its coordinator is at work.
use file_automation.Base.{
  String, str_eq, eq_iff, Bool, true, false, some, List, [], ◌∷◌, elem, filter, elem-filter, update,
  ◌≡◌, refl, arith, inl, inr, Bool-cases, IsDistinct,
}
use file_automation.Pipeline.Model.{TaskRun}
use file_automation.Pipeline.Worker.{Flight, Signal, work}
use file_automation.Pipeline.Worker.Lock.{work-IsSound, work_closed, work_abandoned}
use file_automation.Pipeline.Runner.{Plan, Engine, is_pending, dependents, ids, Control}
use file_automation.Pipeline.Runner.Moves.{release_one, release_all, release, at_control}
use file_automation.Pipeline.Runner.Steps.{worked}
use file_automation.Pipeline.Runner.Queues.{Queued, release-Queued}
use file_automation.Pipeline.Runner.Invariant.{is_closed, pending_unlaunched}
use file_automation.Pipeline.Runner.Threads.{IsThreaded, worked-IsThreaded, release-IsThreaded}

-- What holds of a run whose coordinator has not ended it: the threads and the queues are in order,
-- a pending task has made no attempt, and each flight is of a task of the plan, once.
pub record IsLive {V : Type 0} (plan : Plan) (e : Engine V) : Type 0 where
  pub threaded : IsThreaded true e
  pub queued : Queued e
  pub unstarted : (x : String) → is_pending (e.states x).status ≡ true → (e.states x).attempts ≡ 0
  pub listed : (x : String) → elem x e.flights ≡ true → elem x (ids plan.tasks) ≡ true
  pub flights_distinct : IsDistinct e.flights

pub IsDistinct-filter :
    (p : String → Bool) (xs : List String) → IsDistinct xs → IsDistinct (filter p xs)
IsDistinct-filter p [] d = d
IsDistinct-filter p (x ∷ xs) d = elim (Bool-cases (p x)) [
  | inl keep ↦ rw keep (ground (arith, d.0, elem-filter x p xs), IsDistinct-filter p xs d.1)
  | inr drop ↦ rw drop (IsDistinct-filter p xs d.1)
]

module _ {V : Type 0} where
  -- the queues stay in order when nothing joins them and the records in them stay as they are
  pub Queued-fewer :
      (e e' : Engine V)
      → ((x : String) → e'.blocked x ≡ e.blocked x)
      → ((x : String)
          → elem x e'.ready ≡ true
          → (elem x e.ready ≡ true) × (is_pending (e'.states x).status ≡ true))
      → ((x : String)
          → elem x e'.waiting ≡ true
          → (elem x e.waiting ≡ true) × (is_pending (e'.states x).status ≡ true))
      → IsDistinct e'.ready
      → IsDistinct e'.waiting
      → Queued e
      → Queued e'
  Queued-fewer e e' b r w dr dw q = record {
    ready_pending = λ x m. (r x m).1;
    ready_free = λ x m. rw (b x) (q.ready_free x (r x m).0);
    waiting_pending = λ x m. (w x m).1;
    waiting_free = λ x m. rw (b x) (q.waiting_free x (w x m).0);
    ready_distinct = dr;
    waiting_distinct = dw;
    disjoint = λ x m. ground (arith, q.disjoint x (r x m).0, w x);
  }

  -- the queues depend on nothing else
  pub Queued-same :
      (e e' : Engine V)
      → e'.ready ≡ e.ready
      → e'.waiting ≡ e.waiting
      → e'.blocked ≡ e.blocked
      → e'.states ≡ e.states
      → Queued e
      → Queued e'
  Queued-same e e' r w b s q =
      Queued-fewer e e' (λ x. rw b refl)
        (λ x m. (rw r at m, ground (arith, q.ready_pending x (rw r at m))))
        (λ x m. (rw w at m, ground (arith, q.waiting_pending x (rw w at m))))
        (rw r q.ready_distinct) (rw w q.waiting_distinct) q

  pub at_control-IsLive :
      (plan : Plan) (c : Control) (e : Engine V) → IsLive plan e → IsLive plan (at_control c e)
  at_control-IsLive plan c e l = record {
    threaded = l.threaded;
    queued = Queued-same e _ refl refl refl refl l.queued;
    unstarted = l.unstarted;
    listed = l.listed;
    flights_distinct = l.flights_distinct;
  }

  release_all_kept :
      (ds : List String) (e : Engine V)
      → ((release_all ds e).states ≡ e.states)
        × ((release_all ds e).flights ≡ e.flights)
        × ((release_all ds e).control ≡ e.control)
  unfolding release_all release_one
  release_all_kept [] e = (refl, refl, refl)
  release_all_kept (d ∷ ds) e = release_all_kept ds (release_one d e)

  -- a release changes no record, no flight, and not where the coordinator stands
  pub release_kept :
      (plan : Plan) (id : String) (e : Engine V)
      → ((release plan id e).states ≡ e.states)
        × ((release plan id e).flights ≡ e.flights)
        × ((release plan id e).control ≡ e.control)
  unfolding release
  release_kept plan id e = release_all_kept (dependents plan.tasks id) e

  pub release-IsLive :
      (plan : Plan) (id : String) (e : Engine V) → IsLive plan e → IsLive plan (release plan id e)
  release-IsLive plan id e l =
      let (s, f, _) = release_kept plan id e in
      record {
        threaded = release-IsThreaded plan id e l.threaded;
        queued = release-Queued plan id e l.queued;
        unstarted = rw s l.unstarted;
        listed = rw f l.listed;
        flights_distinct = rw f l.flights_distinct;
      }

  -- an update away from the pending tasks of a queue
  pub pending-update :
      (states : String → TaskRun V) (id x : String) (r : TaskRun V)
      → is_pending (states x).status ≡ true
      → str_eq id x ≡ false
      → is_pending (update states id r x).status ≡ true
  pending-update states id x r p n = rw n p

  work_started :
      (id : String) (s : Signal V) (f : Flight) (e : Engine V)
      → e.threads id ≡ some f
      → IsThreaded true e
      → is_pending (work s f (e.states id)).1.status ≡ false
  work_started id s f e l t =
      let sound = t.sound id f l in
      let new = work-IsSound s f (e.states id) sound in
      elim (Bool-cases (is_closed f)) [
        | inl shut ↦
            rw (work_closed s f (e.states id) sound shut).0
              (ground (arith, t.closed_final id f l shut))
        | inr ajar ↦ ground (arith, new, work_abandoned s f (e.states id))
      ]

  pub worked-IsLive :
      (plan : Plan) (id : String) (s : Signal V) (f : Flight) (e : Engine V)
      → e.threads id ≡ some f
      → IsLive plan e
      → IsLive plan (worked id f (work s f (e.states id)) e)
  worked-IsLive plan id s f e t l =
      let threaded = worked-IsThreaded id s f e true t l.threaded in
      let (f', r') = work s f (e.states id) in
      let old = l.threaded.sound id f t in
      let new = work-IsSound s f (e.states id) old in
      let away : (x : String) → is_pending (e.states x).status ≡ true → str_eq id x ≡ false = λ x p.
        ground (
          arith,
          eq_iff id x,
          pending_unlaunched true e.states e.threads e.flights e.inbox x l.threaded p,
        ) in
      let started = work_started id s f e t l.threaded in
      record {
        threaded = threaded;
        queued =
            Queued-fewer e _ (λ x. refl)
              (λ x m. (
                m,
                pending-update e.states id x r' (l.queued.ready_pending x m)
                    (away x (l.queued.ready_pending x m)),
              ))
              (λ x m. (
                m,
                pending-update e.states id x r' (l.queued.waiting_pending x m)
                    (away x (l.queued.waiting_pending x m)),
              ))
              l.queued.ready_distinct l.queued.waiting_distinct l.queued;
        unstarted = λ x p. ground (arith, l.unstarted x, eq_iff id x);
        listed = l.listed;
        flights_distinct = l.flights_distinct;
      }
