-- ===== src/Pipeline/Runner/Starts.antt =====
-- The invariant of a run in pipeline/runner.py when the coordinator admits or launches a task.
use file_automation.Base.{
  ◌≤◌, String, str_eq, eq_iff, true, false, Option, none, some, List, [], ◌∷◌, elem, elem-append,
  elem_self, update, ◌≡◌, refl, arith, inl, inr, Bool-cases, IsDistinct,
}
use file_automation.Pipeline.Model.{running, TaskRun, Task}
use file_automation.Pipeline.Runner.{Plan, Engine, Verdict, is_pending, end_unstarted, ids}
use file_automation.Pipeline.Runner.Moves.{launch_one, admitted}
use file_automation.Pipeline.Runner.Queues.{Queued, IsDistinct-snoc}
use file_automation.Pipeline.Runner.Invariant.{pending_unlaunched, Threaded-record}
use file_automation.Pipeline.Runner.Threads.{launch_one-IsThreaded}
use file_automation.Pipeline.Runner.Landings.{admitted-IsThreaded}
use file_automation.Pipeline.Runner.Live.{IsLive, Queued-fewer, pending-update, release-IsLive}

module _ {V : Type 0} where
  -- what is known of the other tasks of `ready` when its first one is taken
  rest_of_ready :
      (id : String) (rest : List String) (e : Engine V)
      → e.ready ≡ id ∷ rest
      → Queued e
      → IsDistinct rest
        × (is_pending (e.states id).status ≡ true)
        × (e.blocked id ≡ 0)
        × (elem id e.waiting ≡ false)
        × ((x : String) → elem x rest ≡ true → (elem x e.ready ≡ true) × (str_eq id x ≡ false))
  rest_of_ready id rest e q k =
      let first : elem id e.ready ≡ true = rw q (elem_self id rest) in
      let d : IsDistinct (id ∷ rest) = rw q at k.ready_distinct in
      (
        d.1,
        k.ready_pending id first,
        k.ready_free id first,
        k.disjoint id first,
        λ x m. (rw q (ground arith), ground (arith, d.0, eq_iff id x)),
      )

  pub admitted-IsLive :
      (plan : Plan) (id : String) (rest : List String) (r : TaskRun V) (o : Option Verdict)
      (e : Engine V)
      → e.ready ≡ id ∷ rest
      → r.status ≡ (e.states id).status
      → r.attempts ≡ (e.states id).attempts
      → ((v : Verdict) → o ≡ some v → is_pending v.status ≡ false)
      → IsLive plan e
      → IsLive plan (admitted plan id (r, o) (record e { ready = rest }))
  admitted-IsLive plan id rest r none e q st at v l =
      let (dr, p, free, out, others) = rest_of_ready id rest e q l.queued in
      let states' = update e.states id r in
      record {
        threaded = admitted-IsThreaded plan id r none (record e { ready = rest }) p l.threaded;
        queued = record {
          ready_pending = λ x m.
              pending-update e.states id x r (l.queued.ready_pending x (others x m).0)
                (others x m).1;
          ready_free = λ x m. l.queued.ready_free x (others x m).0;
          waiting_pending = λ x m.
              ground
                (arith, elem-append x e.waiting (id ∷ []), eq_iff id x, l.queued.waiting_pending x);
          waiting_free = λ x m.
              ground
                (arith, elem-append x e.waiting (id ∷ []), eq_iff id x, l.queued.waiting_free x);
          ready_distinct = dr;
          waiting_distinct = IsDistinct-snoc e.waiting id l.queued.waiting_distinct out;
          disjoint = λ x m. ground (
            arith,
            elem-append x e.waiting (id ∷ []),
            eq_iff id x,
            l.queued.disjoint x,
            others x,
          );
        };
        unstarted = λ x p. ground (arith, l.unstarted x, eq_iff id x);
        listed = l.listed;
        flights_distinct = l.flights_distinct;
      }
  admitted-IsLive plan id rest r (some w) e q st at v l =
      let (dr, p, free, out, others) = rest_of_ready id rest e q l.queued in
      let r' = end_unstarted w r in
      release-IsLive plan id _ (record {
        threaded =
            Threaded-record true e.states e.threads e.flights e.inbox id r'
              (pending_unlaunched true e.states e.threads e.flights e.inbox id l.threaded p)
              l.threaded;
        queued =
            Queued-fewer e _ (λ x. refl)
              (λ x m.
                let (i, o) = others x m in
                (i, pending-update e.states id x r' (l.queued.ready_pending x i) o))
              (λ x m. (
                m,
                pending-update e.states id x r' (l.queued.waiting_pending x m)
                    (ground (arith, eq_iff id x)),
              ))
              dr l.queued.waiting_distinct l.queued;
        unstarted = λ x p. ground (arith, l.unstarted x, eq_iff id x, v w refl);
        listed = l.listed;
        flights_distinct = l.flights_distinct;
      })

  pub launch_one-IsLive :
      (plan : Plan) (task : Task) (rest : List String) (e : Engine V)
      → e.waiting ≡ task.task_id ∷ rest
      → elem task.task_id (ids plan.tasks) ≡ true
      → 1 ≤ task.retry.max_attempts
      → IsLive plan e
      → IsLive plan (launch_one task rest e)
  unfolding launch_one
  launch_one-IsLive plan task rest e q k m l =
      let id = task.task_id in
      let first : elem id e.waiting ≡ true = rw q (elem_self id rest) in
      let d : IsDistinct (id ∷ rest) = rw q at l.queued.waiting_distinct in
      let p = l.queued.waiting_pending id first in
      let others : (x : String)
          → elem x rest ≡ true
          → (elem x e.waiting ≡ true) × (str_eq id x ≡ false) =
        λ x i. (rw q (ground arith), ground (arith, d.0, eq_iff id x)) in
      let r' = record (e.states id) { status = running } in
      record {
        threaded =
            launch_one-IsThreaded task rest e m (ground (arith, l.unstarted id p)) p l.threaded;
        queued =
            Queued-fewer e _ (λ x. refl)
              (λ x i. (
                i,
                pending-update e.states id x r' (l.queued.ready_pending x i)
                    (ground (arith, eq_iff id x, l.queued.disjoint x i)),
              ))
              (λ x i.
                let (j, o) = others x i in
                (j, pending-update e.states id x r' (l.queued.waiting_pending x j) o))
              l.queued.ready_distinct d.1 l.queued;
        unstarted = λ x i. ground (arith, l.unstarted x, eq_iff id x);
        listed = λ x i. ground (arith, elem-append x e.flights (id ∷ []), eq_iff id x, l.listed x);
        flights_distinct =
            IsDistinct-snoc e.flights id l.flights_distinct (elim (Bool-cases (elem id e.flights)) [
              | inl n ↦ absurd (
                  ground (
                    arith,
                    l.threaded.in_air id refl n,
                    pending_unlaunched true e.states e.threads e.flights e.inbox id l.threaded p,
                  ))
              | inr n ↦ n
            ]);
      }

  -- an ID that no task has is dropped
  pub drop_ready-IsLive :
      (plan : Plan) (id : String) (rest : List String) (e : Engine V)
      → e.ready ≡ id ∷ rest
      → IsLive plan e
      → IsLive plan (record e { ready = rest })
  drop_ready-IsLive plan id rest e q l =
      let (dr, p, free, out, others) = rest_of_ready id rest e q l.queued in
      record {
        threaded = l.threaded;
        queued =
            Queued-fewer e _ (λ x. refl)
              (λ x m. let (i, o) = others x m in (i, l.queued.ready_pending x i))
              (λ x m. (m, l.queued.waiting_pending x m)) dr l.queued.waiting_distinct l.queued;
        unstarted = l.unstarted;
        listed = l.listed;
        flights_distinct = l.flights_distinct;
      }

  pub drop_waiting-IsLive :
      (plan : Plan) (id : String) (rest : List String) (e : Engine V)
      → e.waiting ≡ id ∷ rest
      → IsLive plan e
      → IsLive plan (record e { waiting = rest })
  drop_waiting-IsLive plan id rest e q l =
      let d : IsDistinct (id ∷ rest) = rw q at l.queued.waiting_distinct in
      let others : (x : String) → elem x rest ≡ true → elem x e.waiting ≡ true =
        λ x i. rw q (ground arith) in
      record {
        threaded = l.threaded;
        queued =
            Queued-fewer e _ (λ x. refl) (λ x m. (m, l.queued.ready_pending x m))
              (λ x m. (others x m, l.queued.waiting_pending x (others x m))) l.queued.ready_distinct
              d.1 l.queued;
        unstarted = l.unstarted;
        listed = l.listed;
        flights_distinct = l.flights_distinct;
      }
