-- ===== src/Core/ActionQueue/Claims.antt =====
-- What `dequeue` of core/action_queue.py promises: the first due row is claimed, and no other one.
use file_automation.Base.{
  ℕ, suc, ◌<◌, ◌≤◌, String, true, false, Option, none, some, List, ◌∷◌, ◌++◌, All, All-map, ◌≡◌,
  refl, arith, ◌⊎◌, inl, inr, Bool-cases, Result, ok, err,
}
use file_automation.Base.Json.{Json}
use file_automation.Core.ActionQueue.{
  Status, ready, inflight, dead, Priority, from_zero, below_zero, at_least, Row, Table, QueueItem,
  QueueError, corrupt_row, is_ready, is_due, precedes, next_due, update_row, claimed, claim_item,
  claim, dequeue,
}
use file_automation.Core.ActionQueue.Rows.{
  Chosen, next_due-Chosen, HasDistinctIds, update_row-found,
}

-- a row waits and its time has come
abbrev pub IsDue : ℕ → Row → Type 0
IsDue now r = (r.status ≡ ready) × (r.run_at ≤ now)

-- one priority is higher than another
abbrev pub IsAbove : Priority → Priority → Type 0
IsAbove (from_zero a) (from_zero b) = b < a
IsAbove (from_zero a) (below_zero b) = Unit
IsAbove (below_zero a) (from_zero b) = ⊥
IsAbove (below_zero a) (below_zero b) = a < b

-- the order of the claims: the higher priority, and for the same one the lower ID
abbrev pub IsAhead : Row → Row → Type 0
IsAhead r q = IsAbove r.priority q.priority ⊎ ((r.priority ≡ q.priority) × (r.id ≤ q.id))

module _ (loads : String → Option Json) where
  -- The specification: nothing is due and nothing happens, or the due row ahead of all other due
  -- rows is marked and counted, the others stay as they are, and the item is made from the row.
  pub data Dequeues (now : ℕ) (t : Table)
      : Table → Result QueueError (Option QueueItem) → Type 0 where
    idle : All (λ r. ¬ (IsDue now r)) t.rows → Dequeues now t t (ok none)
    takes :
        (before : List Row) (r : Row) (after : List Row) (action : Json)
        → t.rows ≡ before ++ r ∷ after
        → IsDue now r
        → All (λ q. IsDue now q → IsAhead r q) t.rows
        → loads r.action ≡ some action
        → Dequeues now t
            (record {
              rows = before ++ record r { status = inflight; attempts = suc r.attempts } ∷ after;
              last_id = t.last_id;
            })
            (ok (
              some (record {
                id = r.id;
                action = action;
                attempts = suc r.attempts;
                enqueued_at = r.enqueued_at;
              })))
    takes_corrupt :
        (before : List Row) (r : Row) (after : List Row)
        → t.rows ≡ before ++ r ∷ after
        → IsDue now r
        → All (λ q. IsDue now q → IsAhead r q) t.rows
        → loads r.action ≡ none
        → Dequeues now t
            (record {
              rows = before ++ record r { status = inflight; attempts = suc r.attempts } ∷ after;
              last_id = t.last_id;
            })
            (err (corrupt_row r.id))

is_ready-eq : (s : Status) → is_ready s ≡ true → s ≡ ready
is_ready-eq ready h = refl
is_ready-eq inflight h = absurd (ground arith)
is_ready-eq dead h = absurd (ground arith)

is_due-IsDue : (now : ℕ) (r : Row) → is_due now r ≡ true → IsDue now r
is_due-IsDue now r h = (is_ready-eq r.status (ground arith), ground arith)

IsDue-is_due : (now : ℕ) (r : Row) → IsDue now r → is_due now r ≡ true
IsDue-is_due now r (s, e) = rw s (ground arith)

is_due-not_IsDue : (now : ℕ) (r : Row) → is_due now r ≡ false → ¬ (IsDue now r)
is_due-not_IsDue now r h d = absurd (ground (arith, IsDue-is_due now r d))

at_least-IsAbove :
    (a b : Priority) → at_least a b ≡ true → IsAbove a b ⊎ ((a ≡ b) × (at_least b a ≡ true))
at_least-IsAbove (from_zero a) (from_zero b) h =
    elim (Bool-cases (at_least (from_zero b) (from_zero a))) [
      | inl e ↦ let same : a ≡ b = ground arith in inr (rw same refl, e)
      | inr e ↦ inl (ground arith)
    ]
at_least-IsAbove (from_zero a) (below_zero b) h = inl tt
at_least-IsAbove (below_zero a) (from_zero b) h = absurd (ground arith)
at_least-IsAbove (below_zero a) (below_zero b) h =
    elim (Bool-cases (at_least (below_zero b) (below_zero a))) [
      | inl e ↦ let same : a ≡ b = ground arith in inr (rw same refl, e)
      | inr e ↦ inl (ground arith)
    ]

precedes-IsAhead : (r q : Row) → precedes r q ≡ true → IsAhead r q
precedes-IsAhead r q h = elim (at_least-IsAbove r.priority q.priority (ground arith)) [
  | inl above ↦ inl above
  | inr (same, back) ↦ inr (same, ground arith)
]

module _ (loads : String → Option Json) where
  took-Dequeues :
      (now : ℕ) (t : Table) (before : List Row) (r : Row) (after : List Row) (o : Option Json)
      → t.rows ≡ before ++ r ∷ after
      → IsDue now r
      → All (λ q. IsDue now q → IsAhead r q) t.rows
      → loads r.action ≡ o
      → Dequeues loads now t (record t { rows = before ++ claimed r ∷ after }) (claim_item r o)
  took-Dequeues now t before r after none found due leads e =
      Dequeues.takes_corrupt before r after found due leads e
  took-Dequeues now t before r after (some action) found due leads e =
      Dequeues.takes before r after action found due leads e

  claim-Dequeues :
      (now : ℕ) (t : Table) (o : Option Row)
      → HasDistinctIds t.rows
      → Chosen now t.rows o
      → Dequeues loads now t (claim loads o t).0 (claim loads o t).1
  claim-Dequeues now t none d c = Dequeues.idle (All-map _ _ t.rows (is_due-not_IsDue now) c)
  claim-Dequeues now t (some r) d c =
      let done : update_row r.id claimed t.rows ≡ c.before ++ claimed r ∷ c.after =
        rw (c.found) (update_row-found claimed c.before r c.after (rw (c.found) at d)) in
      let leads : All (λ q. IsDue now q → IsAhead r q) t.rows =
        All-map _ _ t.rows (λ q f due. precedes-IsAhead r q (f (IsDue-is_due now q due))) c.leads in
      rw done (
        took-Dequeues now t c.before r c.after (loads r.action) c.found (is_due-IsDue now r c.due)
          leads refl)

  -- `dequeue` does what its specification says, whatever the payloads are, when the database is not
  -- locked and no two rows share an ID. Where no row is ready with its time come, nothing happens.
  -- Otherwise the first such row, by the higher priority and then by the lower ID, becomes
  -- `inflight` with one attempt more, and all others stay as they are. The item has the row's ID,
  -- payload and new count of attempts, and only a payload that cannot be read is an error.
  pub dequeue-Dequeues :
      (now : ℕ) (t : Table)
      → HasDistinctIds t.rows
      → Dequeues loads now t (dequeue loads false now t).0 (dequeue loads false now t).1
  unfolding dequeue
  dequeue-Dequeues now t d =
      claim-Dequeues now t (next_due now t.rows) d (next_due-Chosen now t.rows)
