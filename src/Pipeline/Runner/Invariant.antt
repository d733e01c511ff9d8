-- ===== src/Pipeline/Runner/Invariant.antt =====
-- The flights of pipeline/runner.py: the threads and the records of their tasks agree, and a final
-- record has no thread that could still change it.
use file_automation.Base.{
  String, str_eq, eq_iff, Bool, true, false, ◌||◌, Option, none, some, List, elem, update, ◌≡◌,
  refl, arith, inl, inr, Bool-cases, Option-cases,
}
use file_automation.Pipeline.Model.{TaskRun, is_final}
use file_automation.Pipeline.Worker.{Flight}
use file_automation.Pipeline.Worker.Lock.{IsSound}
use file_automation.Pipeline.Runner.{is_pending}

abbrev pub is_closed : Flight → Bool
is_closed f = f.settled || f.abandoned

-- What holds of the flights, the tasks' records and the threads between two steps of a run. While the
-- coordinator is at work, that is live, none of its flights is given up.
pub record Threaded {V : Type 0} (live : Bool) (states : String → TaskRun V)
    (threads : String → Option Flight) (flights inbox : List String) : Type 0 where
  pub sound : (x : String) (f : Flight) → threads x ≡ some f → IsSound f (states x)
  pub closed_final :
      (x : String) (f : Flight)
      → threads x ≡ some f
      → is_closed f ≡ true
      → is_final (states x).status ≡ true
  pub grounded :
      (x : String) (f : Flight) → threads x ≡ some f → elem x flights ≡ false → is_closed f ≡ true
  pub in_air :
      (x : String)
      → live ≡ true
      → elem x flights ≡ true
      → (f : Flight) × (threads x ≡ some f) × (f.abandoned ≡ false)
  pub posted :
      (x : String)
      → elem x inbox ≡ true
      → (f : Flight) × (threads x ≡ some f) × (is_closed f ≡ true)

module _ {V : Type 0} where
  -- a task that is not started has no thread
  pub pending_unlaunched :
      (live : Bool) (states : String → TaskRun V) (threads : String → Option Flight)
      (flights inbox : List String) (x : String)
      → Threaded live states threads flights inbox
      → is_pending (states x).status ≡ true
      → threads x ≡ none
  pending_unlaunched live states threads flights inbox x t p = elim (Option-cases (threads x)) [
    | inl e ↦ e
    | inr (f, e) ↦ elim (Bool-cases (is_closed f)) [
      | inl c ↦ absurd (ground (arith, t.closed_final x f e c))
      | inr c ↦ absurd (ground (arith, (t.sound x f e).open_running))
    ]
  ]

  -- the record of a task without a thread changes
  pub Threaded-record :
      (live : Bool) (states : String → TaskRun V) (threads : String → Option Flight)
      (flights inbox : List String) (x : String) (r : TaskRun V)
      → threads x ≡ none
      → Threaded live states threads flights inbox
      → Threaded live (update states x r) threads flights inbox
  Threaded-record live states threads flights inbox x r n t = record {
    sound = λ y f e. elim (Bool-cases (str_eq x y)) [
      | inl same ↦ absurd (ground (arith, (eq_iff x y).0 same))
      | inr other ↦ rw other (t.sound y f e)
    ];
    closed_final = λ y f e c. elim (Bool-cases (str_eq x y)) [
      | inl same ↦ absurd (ground (arith, (eq_iff x y).0 same))
      | inr other ↦ rw other (t.closed_final y f e c)
    ];
    grounded = t.grounded;
    in_air = t.in_air;
    posted = t.posted;
  }

  -- one task gets a new record and a new flight
  module _ (live : Bool) (states : String → TaskRun V) (threads : String → Option Flight)
      (flights inbox flights' inbox' : List String) (x : String) (r : TaskRun V) (f : Flight) where
    pub Threaded-at :
        Threaded live states threads flights inbox
        → IsSound f r
        → (is_closed f ≡ true → is_final r.status ≡ true)
        → (elem x flights' ≡ false → is_closed f ≡ true)
        → (live ≡ true → elem x flights' ≡ true → f.abandoned ≡ false)
        → (elem x inbox' ≡ true → is_closed f ≡ true)
        → ((y : String) → str_eq x y ≡ false → elem y flights' ≡ elem y flights)
        → ((y : String) → str_eq x y ≡ false → elem y inbox' ≡ elem y inbox)
        → Threaded live (update states x r) (update threads x (some f)) flights' inbox'
    Threaded-at t s c g a p fl ib = record {
      sound = λ y f' e. elim (Bool-cases (str_eq x y)) [
        | inl same ↦ ground (arith, s, (eq_iff x y).0 same)
        | inr other ↦ rw other (t.sound y f' (rw other at e))
      ];
      closed_final = λ y f' e cl. elim (Bool-cases (str_eq x y)) [
        | inl same ↦ ground (arith, c, (eq_iff x y).0 same)
        | inr other ↦ rw other (t.closed_final y f' (rw other at e) cl)
      ];
      grounded = λ y f' e m. elim (Bool-cases (str_eq x y)) [
        | inl same ↦ ground (arith, g, (eq_iff x y).0 same)
        | inr other ↦ ground (arith, t.grounded y f' (rw other at e), fl y other)
      ];
      in_air = λ y on m. elim (Bool-cases (str_eq x y)) [
        | inl same ↦ (f, rw same refl, ground (arith, a, (eq_iff x y).0 same))
        | inr other ↦ rw other (t.in_air y on (ground (arith, fl y other)))
      ];
      posted = λ y m. elim (Bool-cases (str_eq x y)) [
        | inl same ↦ (f, rw same refl, ground (arith, p, (eq_iff x y).0 same))
        | inr other ↦ rw other (t.posted y (ground (arith, ib y other)))
      ];
    }
