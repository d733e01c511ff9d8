-- ===== src/Core/ActionQueue/Tests.antt =====
-- A queue of two actions, the second one more urgent.
use file_automation.Base.{
  ℕ, String, str_eq, true, false, Option, none, some, List, [], ◌∷◌, ◌≡◌, refl, err, if◌then◌else◌,
}
use file_automation.Base.Json.{Json, text, array, no_items, item}
use file_automation.Core.ActionQueue.{
  Table, from_zero, below_zero, empty_table, enqueue, dequeue, ack, nack, purge, size, insert_row,
  next_due, update_row, dead, ready, inflight, corrupt_row, Row, Priority,
}
use file_automation.Core.ActionQueue.Claims.{Dequeues, dequeue-Dequeues}
use file_automation.Core.ActionQueue.Life.{
  Op, enqueuing, dequeuing, acking, nacking, claims_of, is_in, step, run, claims,
}
use file_automation.Core.ActionQueue.Exclusive.{claims-exclusive}

-- a JSON library that knows lists of one word
abbrev dumps : Json → String
dumps (array (item (text word) no_items)) = word
dumps j = "?"

abbrev loads : String → Option Json
loads word = if str_eq word "?" then none else some (array (item (text word) no_items))

abbrev action : String → Json
action word = array (item (text word) no_items)

abbrev filled : List Op
filled =
    enqueuing (action "copy") (below_zero 0) none 5
    ∷ enqueuing (action "alert") (from_zero 2) (some 7) 6
    ∷ []

abbrev whole : List Op
whole =
    dequeuing false 6
    ∷ dequeuing false 7
    ∷ dequeuing false 8
    ∷ nacking 2 true none 3 9
    ∷ dequeuing true 20
    ∷ dequeuing false 20
    ∷ acking 2
    ∷ nacking 1 false (some "broken") 0 30
    ∷ dequeuing false 40
    ∷ []

claims-whole : claims dumps loads whole (run dumps loads filled empty_table) ≡ 1 ∷ 2 ∷ 2 ∷ []
unfolding claims claims_of run step empty_table enqueue dequeue ack nack purge insert_row next_due
    update_row
claims-whole = refl

-- row 1 is dead in the end, and row 2 is gone
sizes-whole :
    (size dead (run dumps loads whole (run dumps loads filled empty_table)) ≡ 1)
    × (size ready (run dumps loads whole (run dumps loads filled empty_table)) ≡ 0)
unfolding size claims claims_of run step empty_table enqueue dequeue ack nack purge insert_row
    next_due update_row
sizes-whole = (refl, refl)

abbrev stored : Table
stored = record {
  rows =
      (record {
        id = 4;
        action = "?";
        priority = from_zero 0;
        run_at = 3;
        enqueued_at = 3;
        attempts = 0;
        status = ready;
        last_error = none;
      })
      ∷ [];
  last_id = 9;
}

corrupt : (dequeue loads false 3 stored).1 ≡ err (corrupt_row 4)
unfolding dequeue next_due
corrupt = refl

-- a row before its time, and two rows of one priority
abbrev waiting : ℕ → ℕ → Priority → Row
waiting id run_at priority = record {
  id = id;
  action = "copy";
  priority = priority;
  run_at = run_at;
  enqueued_at = 3;
  attempts = 0;
  status = ready;
  last_error = none;
}

abbrev three_rows : Table
three_rows = record {
  rows = waiting 4 8 (from_zero 5) ∷ waiting 6 3 (from_zero 1) ∷ waiting 7 3 (from_zero 1) ∷ [];
  last_id = 9;
}

taken-sixth :
    (dequeue loads false 5 three_rows).0.rows
    ≡ waiting 4 8 (from_zero 5)
      ∷ record (waiting 6 3 (from_zero 1)) { status = inflight; attempts = 1 }
      ∷ waiting 7 3 (from_zero 1)
      ∷ []
unfolding dequeue next_due update_row
taken-sixth = refl

dequeue-Dequeues_example :
    Dequeues loads 5 three_rows
      (dequeue loads false 5 three_rows).0
      (dequeue loads false 5 three_rows).1
dequeue-Dequeues_example =
    dequeue-Dequeues loads 5 three_rows ((refl, (refl, tt)), ((refl, tt), (tt, tt)))

claimed-first : is_in 2 (claims_of (dequeuing false 7) (run dumps loads filled empty_table)) ≡ true
unfolding claims_of run step empty_table enqueue insert_row next_due
claimed-first = refl

claims-exclusive_example :
    is_in 2 (
      claims dumps loads
        (dequeuing false 9 ∷ acking 2 ∷ dequeuing false 20 ∷ [])
        (step dumps loads (dequeuing false 7) (run dumps loads filled empty_table)))
    ≡ false
claims-exclusive_example =
    claims-exclusive dumps loads filled (dequeuing false 9 ∷ acking 2 ∷ dequeuing false 20 ∷ [])
      (dequeuing false 7) 2 claimed-first (refl, (refl, (refl, tt)))
