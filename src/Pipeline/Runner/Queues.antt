-- ===== src/Pipeline/Runner/Queues.antt =====
-- The two queues of pipeline/runner.py: what stands in them has not been started, and waits for no
-- dependency.
use file_automation.Base.{
  String, eq_iff, true, false, ◌&&◌, List, [], ◌∷◌, ◌++◌, elem, elem-append, ◌==◌, IsDistinct, ◌≡◌,
  refl, arith, inl, inr, Bool-cases,
}
use file_automation.Pipeline.Runner.{Plan, Engine, is_pending, dependents}
use file_automation.Pipeline.Runner.Moves.{release_one, release_all, release}

-- what stands in `ready` or `waiting` is pending and no longer blocked, and stands there once
pub record Queued {V : Type 0} (e : Engine V) : Type 0 where
  pub ready_pending : (x : String) → elem x e.ready ≡ true → is_pending (e.states x).status ≡ true
  pub ready_free : (x : String) → elem x e.ready ≡ true → e.blocked x ≡ 0
  pub waiting_pending :
      (x : String) → elem x e.waiting ≡ true → is_pending (e.states x).status ≡ true
  pub waiting_free : (x : String) → elem x e.waiting ≡ true → e.blocked x ≡ 0
  pub ready_distinct : IsDistinct e.ready
  pub waiting_distinct : IsDistinct e.waiting
  pub disjoint : (x : String) → elem x e.ready ≡ true → elem x e.waiting ≡ false

pub IsDistinct-snoc :
    (xs : List String) (x : String) → IsDistinct xs → elem x xs ≡ false → IsDistinct (xs ++ x ∷ [])
IsDistinct-snoc [] x d n = (refl, tt)
IsDistinct-snoc (y ∷ ys) x d n = (
  ground (arith, d.0, elem-append y ys (x ∷ []), eq_iff x y, eq_iff y x),
  IsDistinct-snoc ys x d.1 (ground arith),
)

module _ {V : Type 0} where
  release_one-Queued : (d : String) (e : Engine V) → Queued e → Queued (release_one d e)
  unfolding release_one
  release_one-Queued d e q =
      elim (Bool-cases (e.blocked d == 1 && is_pending (e.states d).status)) [
        | inl b ↦ rw b (record {
          ready_pending =
              λ x m. ground (arith, q.ready_pending x, elem-append x e.ready (d ∷ []), eq_iff d x);
          ready_free =
              λ x m. ground (arith, q.ready_free x, elem-append x e.ready (d ∷ []), eq_iff d x);
          waiting_pending = q.waiting_pending;
          waiting_free = λ x m. ground (arith, q.waiting_free x m, eq_iff d x);
          ready_distinct =
              IsDistinct-snoc e.ready d q.ready_distinct (ground (arith, q.ready_free d));
          waiting_distinct = q.waiting_distinct;
          disjoint = λ x m.
              ground
                (arith, q.disjoint x, q.waiting_free d, elem-append x e.ready (d ∷ []), eq_iff d x);
        })
        | inr b ↦ rw b (record {
          ready_pending = q.ready_pending;
          ready_free = λ x m. ground (arith, q.ready_free x m, eq_iff d x);
          waiting_pending = q.waiting_pending;
          waiting_free = λ x m. ground (arith, q.waiting_free x m, eq_iff d x);
          ready_distinct = q.ready_distinct;
          waiting_distinct = q.waiting_distinct;
          disjoint = q.disjoint;
        })
      ]

  release_all-Queued : (ds : List String) (e : Engine V) → Queued e → Queued (release_all ds e)
  unfolding release_all
  release_all-Queued [] e q = q
  release_all-Queued (d ∷ ds) e q =
      release_all-Queued ds (release_one d e) (release_one-Queued d e q)

  pub release-Queued :
      (plan : Plan) (id : String) (e : Engine V) → Queued e → Queued (release plan id e)
  unfolding release
  release-Queued plan id e q = release_all-Queued (dependents plan.tasks id) e q
