-- ===== src/Pipeline/Runner/Threads.antt =====
-- The threads of a run in pipeline/runner.py: their own steps, launches, cancellation, abortion.
use mathlib.Core.Option
use file_automation.Base.{
  ◌≤◌, String, str_eq, eq_iff, Bool, true, false, not, ◌&&◌, ◌||◌, Option, none, some, List, [],
  ◌∷◌, ◌++◌, elem, elem-append, elem_self, if◌then◌else◌, ◌≡◌, refl, arith, inl, inr, ◌⊎◌,
  Bool-cases,
}
use file_automation.Pipeline.Model.{TaskRun, Task, is_final}
use file_automation.Pipeline.Worker.{Flight, Signal, work, cancel}
use file_automation.Pipeline.Worker.Lock.{
  IsSound, work-IsSound, work_closed, work_abandoned, has_landed,
}
use file_automation.Pipeline.Runner.{Plan, Engine, is_pending, dependents, ids}
use file_automation.Pipeline.Runner.Moves.{
  release_one, release_all, release, launch_one, observe_cancel, abort,
}
use file_automation.Pipeline.Runner.Steps.{worked, is_gone}
use file_automation.Pipeline.Runner.Invariant.{is_closed, Threaded, pending_unlaunched, Threaded-at}

abbrev pub IsThreaded : {V : Type 0} → Bool → Engine V → Type 0
IsThreaded live e = Threaded live e.states e.threads e.flights e.inbox

pub is_gone-landed : (f : Flight) → is_gone f.phase ≡ true → has_landed f.phase ≡ true
is_gone-landed f g = ground arith

-- what became of a flight that may have been changed
pub told :
    (change : Flight → Flight) (b : Bool) (o : Option Flight) (f : Flight)
    → (if b then Option.map change o else o) ≡ some f
    → (g : Flight) × (o ≡ some g) × (((b ≡ false) × (f ≡ g)) ⊎ ((b ≡ true) × (f ≡ change g)))
told change true none f l = absurd (ground arith)
told change true (some g) f l = (g, refl, inr (refl, ground arith))
told change false none f l = absurd (ground arith)
told change false (some g) f l = (g, refl, inl (refl, ground arith))

pub retold :
    (change : Flight → Flight) (b : Bool) (o : Option Flight) (g : Flight)
    → o ≡ some g
    → (f : Flight) × ((if b then Option.map change o else o) ≡ some f) × ((f ≡ g) ⊎ (f ≡ change g))
retold change true o g l = (change g, rw l refl, inr refl)
retold change false o g l = (g, l, inl refl)

module _ {V : Type 0} where
  -- the same for any new flight and record that keep what a thread's statement keeps
  pub moved-IsThreaded :
      (id : String) (f f' : Flight) (r' : TaskRun V) (e : Engine V) (live : Bool)
      → e.threads id ≡ some f
      → IsThreaded live e
      → IsSound f' r'
      → f'.abandoned ≡ f.abandoned
      → (is_closed f ≡ true
          → (r' ≡ e.states id) × (f'.settled ≡ f.settled) × (f'.abandoned ≡ f.abandoned))
      → IsThreaded live (worked id f (f', r') e)
  moved-IsThreaded id f f' r' e live l t s kept closed =
      let after =
        if is_gone f'.phase && not (is_gone f.phase) then e.inbox ++ id ∷ [] else e.inbox in
      Threaded-at live e.states e.threads e.flights e.inbox e.flights after id r' f' t s
        (λ c. elim (Bool-cases (is_closed f)) [
          | inl shut ↦ rw (closed shut).0 (t.closed_final id f l shut)
          | inr ajar ↦ ground (arith, s.settled_final)
        ])
        (λ m. ground (arith, t.grounded id f l m, closed))
        (λ on m. let (g, l', a) = t.in_air id on m in ground arith)
        (λ m. elim (Bool-cases (is_gone f'.phase && not (is_gone f.phase))) [
          | inl new ↦ s.landed (is_gone-landed f' (ground arith))
          | inr old ↦ let (g, l', a) = t.posted id (rw old at m) in ground (arith, closed)
        ])
        (λ y other. refl) (λ y other. ground (arith, elem-append y e.inbox (id ∷ [])))

  pub worked-IsThreaded :
      (id : String) (s : Signal V) (f : Flight) (e : Engine V) (live : Bool)
      → e.threads id ≡ some f
      → IsThreaded live e
      → IsThreaded live (worked id f (work s f (e.states id)) e)
  worked-IsThreaded id s f e live l t =
      let sound = t.sound id f l in
      let (f', r') = work s f (e.states id) in
      moved-IsThreaded id f f' r' e live l t (work-IsSound s f (e.states id) sound)
        (work_abandoned s f (e.states id)) (work_closed s f (e.states id) sound)

  pub release_all-IsThreaded :
      (ds : List String) (e : Engine V) → IsThreaded true e → IsThreaded true (release_all ds e)
  unfolding release_all release_one
  release_all-IsThreaded [] e t = t
  release_all-IsThreaded (d ∷ ds) e t = release_all-IsThreaded ds (release_one d e) t

  pub release-IsThreaded :
      (plan : Plan) (id : String) (e : Engine V)
      → IsThreaded true e
      → IsThreaded true (release plan id e)
  unfolding release
  release-IsThreaded plan id e t = release_all-IsThreaded (dependents plan.tasks id) e t

  -- what a thread had learnt to be final stays as it is
  pub worked_final :
      (id : String) (s : Signal V) (f : Flight) (e : Engine V) (x : String) (live : Bool)
      → e.threads id ≡ some f
      → IsThreaded live e
      → is_final (e.states x).status ≡ true
      → (worked id f (work s f (e.states id)) e).states x ≡ e.states x
  worked_final id s f e x live l t fin = elim (Bool-cases (str_eq id x)) [
    | inl same ↦ elim (Bool-cases (is_closed f)) [
      | inl shut ↦
          ground
            (arith, (eq_iff id x).0 same, (work_closed s f (e.states id) (t.sound id f l) shut).0)
      | inr ajar ↦ absurd (ground (arith, (eq_iff id x).0 same, (t.sound id f l).open_running))
    ]
    | inr other ↦ rw other refl
  ]

  pub launch_one-IsThreaded :
      (task : Task) (rest : List String) (e : Engine V)
      → 1 ≤ task.retry.max_attempts
      → (e.states task.task_id).attempts ≤ task.retry.max_attempts
      → is_pending (e.states task.task_id).status ≡ true
      → IsThreaded true e
      → IsThreaded true (launch_one task rest e)
  unfolding launch_one
  launch_one-IsThreaded task rest e m a p t =
      let id = task.task_id in
      let unlaunched = pending_unlaunched true e.states e.threads e.flights e.inbox id t p in
      Threaded-at true e.states e.threads e.flights e.inbox (e.flights ++ id ∷ []) e.inbox id _ _ t
        (record {
          exclusive = refl;
          late = λ c. absurd (ground arith);
          landed = λ c. absurd (ground arith);
          open_running = λ c d. refl;
          settled_final = λ c. absurd (ground arith);
          attempt = (ground arith, m);
          counted = a;
        })
        (λ c. absurd (ground arith))
        (λ n. absurd (ground (arith, elem-append id e.flights (id ∷ []), elem_self id [])))
        (λ on n. refl) (λ n. let (g, l, b) = t.posted id n in absurd (ground arith))
        (λ y other. ground (arith, elem-append y e.flights (id ∷ []))) (λ y other. refl)

  pub observe_cancel-IsThreaded :
      (plan : Plan) (e : Engine V) → IsThreaded true e → IsThreaded true (observe_cancel plan e)
  unfolding observe_cancel cancel
  observe_cancel-IsThreaded plan e t = elim (Bool-cases (e.cancel_seen || not e.cancel_token)) [
    | inl idle ↦ rw idle t
    | inr acts ↦ rw acts (record {
      sound = λ x f l.
          let (g, l', o) = told cancel (elem x e.flights) (e.threads x) f l in
          ground (arith, t.sound x g l');
      closed_final = λ x f l c.
          let (g, l', o) = told cancel (elem x e.flights) (e.threads x) f l in
          ground (arith, t.closed_final x g l');
      grounded = λ x f l n.
          let (g, l', o) = told cancel (elem x e.flights) (e.threads x) f l in
          ground (arith, t.grounded x g l' n);
      in_air = λ x on m. let (g, l', a) = t.in_air x on m in (cancel g, rw (m, l') refl, a);
      posted = λ x m.
          let (g, l', a) = t.posted x m in
          let (f, l'', o) = retold cancel (elem x e.flights) (e.threads x) g l' in
          (f, l'', ground arith);
    })
  ]

  pub abort-IsThreaded :
      (plan : Plan) (text : String) (e : Engine V)
      → ((x : String) → elem x e.flights ≡ true → elem x (ids plan.tasks) ≡ true)
      → IsThreaded true e
      → IsThreaded false (abort plan text e)
  unfolding abort cancel
  abort-IsThreaded plan text e listed t =
      let change : Flight → Flight = λ f. cancel (record f { abandoned = not f.settled }) in
      record {
        sound = λ x f l.
            let (g, l', o) = told change (elem x e.flights) (e.threads x) f l in
            ground (arith, t.sound x g l', t.grounded x g l', listed x);
        closed_final = λ x f l c.
            let (g, l', o) = told change (elem x e.flights) (e.threads x) f l in
            ground (arith, t.closed_final x g l', t.sound x g l', listed x);
        grounded = λ x f l n.
            let (g, l', o) = told change (elem x e.flights) (e.threads x) f l in
            ground (arith, t.grounded x g l' n);
        in_air = λ x on m. absurd (ground arith);
        posted = λ x m.
            let (g, l', a) = t.posted x m in
            let (f, l'', o) = retold change (elem x e.flights) (e.threads x) g l' in
            (f, l'', ground arith);
      }
