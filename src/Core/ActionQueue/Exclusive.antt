-- ===== src/Core/ActionQueue/Exclusive.antt =====
-- core/action_queue.py over a whole life of the queue: a claimed row is claimed by one consumer.
use file_automation.Base.{
  ℕ, suc, ◌+◌, ◌≤◌, String, Bool, true, false, ◌||◌, Option, none, some, List, [], ◌∷◌, ◌++◌,
  filter, All, All-append, All-map, ◌==◌, ==_iff, ◌≡◌, refl, arith, inl, inr, Bool-cases,
}
use file_automation.Base.Json.{Json}
use file_automation.Core.ActionQueue.{
  Row, Table, is_ready, is_action, next_due, update_row, claimed, returned, claim, insert_row,
  empty_table, enqueue, dequeue, ack, nack, purge,
}
use file_automation.Core.ActionQueue.Rows.{Chosen, next_due-Chosen, All-middle}
use file_automation.Core.ActionQueue.Life.{
  Op, enqueuing, dequeuing, acking, nacking, purging, gives_back, id_of, claims_of, is_in, step,
  run, claims,
}

-- every row's ID was given by the table
abbrev pub IsNumbered : Table → Type 0
IsNumbered t = All (λ r. r.id ≤ t.last_id) t.rows

-- row `i` was given out before, and cannot be claimed
abbrev pub IsHeld : ℕ → Table → Type 0
IsHeld i t = (i ≤ t.last_id) × All (λ r. (r.id == i) ≡ true → is_ready r.status ≡ false) t.rows

start-IsNumbered : IsNumbered empty_table
unfolding empty_table
start-IsNumbered = tt

-- a predicate on rows that a change keeps, where it is made
All-update_row :
    (P : Row → Type 0) (i : ℕ) (change : Row → Row) (rs : List Row)
    → ((r : Row) → (r.id == i) ≡ true → P r → P (change r))
    → All P rs
    → All P (update_row i change rs)
unfolding update_row
All-update_row P i change [] f a = tt
All-update_row P i change (r ∷ rs) f a = elim (Bool-cases (r.id == i)) [
  | inl same ↦ rw same (f r same a.0, All-update_row P i change rs f a.1)
  | inr other ↦ rw other (a.0, All-update_row P i change rs f a.1)
]

-- after a claim of row `i` every row with this ID is claimed
update_row-held :
    (i : ℕ) (rs : List Row)
    → All (λ r. (r.id == i) ≡ true → is_ready r.status ≡ false) (update_row i claimed rs)
unfolding update_row
update_row-held i [] = tt
update_row-held i (r ∷ rs) = elim (Bool-cases (r.id == i)) [
  | inl same ↦ rw same (λ e. refl, update_row-held i rs)
  | inr other ↦ rw other (λ e. absurd (ground arith), update_row-held i rs)
]

All-filter : (P : Row → Type 0) (p : Row → Bool) (rs : List Row) → All P rs → All P (filter p rs)
All-filter P p [] a = tt
All-filter P p (r ∷ rs) a = elim (Bool-cases (p r)) [
  | inl keep ↦ rw keep (a.0, All-filter P p rs a.1)
  | inr drop ↦ rw drop (All-filter P p rs a.1)
]

-- what every call keeps of a row's ID is enough for both
module _ (dumps : Json → String) (loads : String → Option Json) where
  claim-All :
      (P : ℕ → Row → Type 0) (o : Option Row) (t : Table)
      → ((r : Row) → P t.last_id r → P t.last_id (claimed r))
      → All (P t.last_id) t.rows
      → All (P (claim loads o t).0.last_id) (claim loads o t).0.rows
  claim-All P none t f a = a
  claim-All P (some r) t f a = All-update_row (P t.last_id) r.id claimed t.rows (λ q e p. f q p) a

  claim-last : (o : Option Row) (t : Table) → (claim loads o t).0.last_id ≡ t.last_id
  claim-last none t = refl
  claim-last (some r) t = refl

  step-IsNumbered : (op : Op) (t : Table) → IsNumbered t → IsNumbered (step dumps loads op t)
  unfolding step enqueue dequeue ack nack purge insert_row
  step-IsNumbered (enqueuing action priority run_at now) t n =
      elim (Bool-cases (is_action action)) [
        | inl good ↦
            rw (step, good)
              (All-append (λ r. r.id ≤ suc t.last_id) t.rows _
                (All-map _ _ t.rows (λ r h. omega (arith, h)) n) (omega arith, tt))
        | inr bad ↦ rw (step, bad) n
      ]
  step-IsNumbered (dequeuing true now) t n = n
  step-IsNumbered (dequeuing false now) t n =
      claim-All (λ last r. r.id ≤ last) (next_due now t.rows) t (λ r h. h) n
  step-IsNumbered (acking i) t n = All-filter _ _ t.rows n
  step-IsNumbered (nacking i requeue reason delay now) t n =
      All-update_row _ i (returned requeue reason (now + delay)) t.rows (λ r e h. h) n
  step-IsNumbered purging t n = tt

  pub run-IsNumbered :
      (ops : List Op) (t : Table) → IsNumbered t → IsNumbered (run dumps loads ops t)
  unfolding run
  run-IsNumbered [] t n = n
  run-IsNumbered (op ∷ ops) t n =
      run-IsNumbered ops (step dumps loads op t) (step-IsNumbered op t n)

  step-IsHeld :
      (i : ℕ) (op : Op) (t : Table)
      → gives_back i op ≡ false
      → IsHeld i t
      → IsHeld i (step dumps loads op t)
  unfolding step enqueue dequeue ack nack purge insert_row
  step-IsHeld i (enqueuing action priority run_at now) t g h =
      elim (Bool-cases (is_action action)) [
        | inl good ↦
            rw (step, good)
              (
                omega (arith, h.0),
                All-append (λ r. (r.id == i) ≡ true → is_ready r.status ≡ false) t.rows _ h.1
                    ((λ e. absurd (ground (arith, h.0))), tt),
              )
        | inr bad ↦ rw (step, bad) h
      ]
  step-IsHeld i (dequeuing true now) t g h = h
  step-IsHeld i (dequeuing false now) t g h = (
    rw (claim-last (next_due now t.rows) t) (h.0),
    claim-All (λ last r. (r.id == i) ≡ true → is_ready r.status ≡ false) (next_due now t.rows) t
        (λ r k e. refl) h.1,
  )
  step-IsHeld i (acking j) t g h = (h.0, All-filter _ _ t.rows h.1)
  step-IsHeld i (nacking j requeue reason delay now) t g h = (
    h.0,
    All-update_row _ j (returned requeue reason (now + delay)) t.rows
        (λ r e k f. absurd (ground (arith, ==_iff r.id j, ==_iff r.id i, ==_iff j i))) h.1,
  )
  step-IsHeld i purging t g h = (h.0, tt)

  -- a held row is not claimed
  Chosen-held :
      (i now : ℕ) (rs : List Row) (o : Option Row)
      → Chosen now rs o
      → All (λ r. (r.id == i) ≡ true → is_ready r.status ≡ false) rs
      → is_in i (id_of o) ≡ false
  Chosen-held i now rs none c a = refl
  Chosen-held i now rs (some r) c a = ground (
    arith,
    c.due,
    All-middle (λ q. (q.id == i) ≡ true → is_ready q.status ≡ false) c.before r c.after
        (rw (c.found) at a),
  )

  is_in-append : (i : ℕ) (xs ys : List ℕ) → is_in i (xs ++ ys) ≡ (is_in i xs || is_in i ys)
  is_in-append i [] ys = refl
  is_in-append i (x ∷ xs) ys = ground (arith, is_in-append i xs ys)

  claims_of_held : (i : ℕ) (op : Op) (t : Table) → IsHeld i t → is_in i (claims_of op t) ≡ false
  unfolding claims_of
  claims_of_held i (dequeuing true now) t h = refl
  claims_of_held i (dequeuing false now) t h =
      Chosen-held i now t.rows (next_due now t.rows) (next_due-Chosen now t.rows) h.1
  claims_of_held i _ t h = refl

  claims_held :
      (i : ℕ) (ops : List Op) (t : Table)
      → All (λ op. gives_back i op ≡ false) ops
      → IsHeld i t
      → is_in i (claims dumps loads ops t) ≡ false
  unfolding claims
  claims_held i [] t g h = refl
  claims_held i (op ∷ ops) t g h = ground (
    arith,
    is_in-append i (claims_of op t) (claims dumps loads ops (step dumps loads op t)),
    claims_of_held i op t h,
    claims_held i ops (step dumps loads op t) g.1 (step-IsHeld i op t g.0 h),
  )

  -- the row that a call claims was given out by the table, and is held afterwards
  claim-IsHeld :
      (i now : ℕ) (o : Option Row) (t : Table)
      → Chosen now t.rows o
      → IsNumbered t
      → is_in i (id_of o) ≡ true
      → IsHeld i (claim loads o t).0
  claim-IsHeld i now none t c n m = absurd (ground arith)
  claim-IsHeld i now (some r) t c n m =
      let same : r.id ≡ i = ground (arith, ==_iff r.id i) in
      (
        rw (← same) (All-middle (λ q. q.id ≤ t.last_id) c.before r c.after (rw (c.found) at n)),
        rw same (update_row-held i t.rows),
      )

  step-IsHeld_claimed :
      (i : ℕ) (op : Op) (t : Table)
      → IsNumbered t
      → is_in i (claims_of op t) ≡ true
      → IsHeld i (step dumps loads op t)
  unfolding claims_of step dequeue
  step-IsHeld_claimed i (dequeuing true now) t n m = absurd (ground arith)
  step-IsHeld_claimed i (dequeuing false now) t n m =
      claim-IsHeld i now (next_due now t.rows) t (next_due-Chosen now t.rows) n m
  step-IsHeld_claimed i _ t n m = absurd (ground arith)

  -- No action is handed out twice: when a call claims a row, no later call claims it again, whatever
  -- the queue's users do before and afterwards, as long as none of them gives the row back with
  -- `nack`. That holds from an empty queue on, also for the IDs of rows that were deleted.
  pub claims-exclusive :
      (before after : List Op) (op : Op) (i : ℕ)
      → is_in i (claims_of op (run dumps loads before empty_table)) ≡ true
      → All (λ later. gives_back i later ≡ false) after
      → is_in i
          (claims dumps loads after (step dumps loads op (run dumps loads before empty_table)))
        ≡ false
  claims-exclusive before after op i m g =
      let t = run dumps loads before empty_table in
      claims_held i after (step dumps loads op t) g
        (step-IsHeld_claimed i op t (run-IsNumbered before empty_table start-IsNumbered) m)
