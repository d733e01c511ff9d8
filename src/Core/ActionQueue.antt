-- ===== src/Core/ActionQueue.antt =====
-- core/action_queue.py: the durable queue of actions. The table is a list of rows in the order of
-- their IDs, and each method is the SQL that it sends, in the transaction that it sends it in.
-- Times count units of the clock. A method that only reads gives the table back as it was.
pub mod Rows
pub mod Claims
pub mod Life
pub mod Exclusive
mod Tests
use file_automation.Base.{
  ℕ, suc, ◌+◌, String, Bool, true, false, not, ◌&&◌, ◌||◌, Option, none, some, List, [], ◌∷◌, ◌++◌,
  map, filter, length, ltb, leb, ◌==◌, if◌then◌else◌, Result, ok, err,
}
use file_automation.Base.Json.{Json, array, object}

pub data Status : Type 0 where
  ready inflight dead : Status

-- a priority n from 0 on, or -1 - n
pub data Priority : Type 0 where
  from_zero below_zero : ℕ → Priority

-- a >= b
abbrev pub at_least : Priority → Priority → Bool
at_least (from_zero a) (from_zero b) = leb b a
at_least (from_zero a) (below_zero b) = true
at_least (below_zero a) (from_zero b) = false
at_least (below_zero a) (below_zero b) = leb a b

pub record Row : Type 0 where
  pub id : ℕ
  pub action : String
  pub priority : Priority
  pub run_at : ℕ
  pub enqueued_at : ℕ
  pub attempts : ℕ
  pub status : Status
  pub last_error : Option String

-- `last_id` is what AUTOINCREMENT keeps: an ID is never given twice
pub record Table : Type 0 where
  pub rows : List Row
  pub last_id : ℕ

pub record QueueItem : Type 0 where
  pub id : ℕ
  pub action : Json
  pub attempts : ℕ
  pub enqueued_at : ℕ

pub data QueueError : Type 0 where
  not_an_action : QueueError
  dequeue_failed : QueueError
  corrupt_row : ℕ → QueueError

abbrev pub is_ready : Status → Bool
is_ready ready = true
is_ready _ = false

abbrev pub is_dead : Status → Bool
is_dead dead = true
is_dead _ = false

abbrev pub has_status : Status → Status → Bool
has_status ready s = is_ready s
has_status inflight inflight = true
has_status inflight _ = false
has_status dead s = is_dead s

-- CREATE TABLE
unfoldable pub empty_table : Table
empty_table = record { rows = []; last_id = 0 }

-- isinstance(action, list | dict)
abbrev pub is_action : Json → Bool
is_action (array xs) = true
is_action (object fs) = true
is_action _ = false

abbrev pub due_at : ℕ → Option ℕ → ℕ
due_at now none = now
due_at now (some run_at) = run_at

-- INSERT, with the defaults of the columns
unfoldable pub insert_row : String → Priority → ℕ → ℕ → Table → Table
insert_row payload priority due now t = record {
  rows =
      t.rows
      ++ (record {
        id = suc t.last_id;
        action = payload;
        priority = priority;
        run_at = due;
        enqueued_at = now;
        attempts = 0;
        status = ready;
        last_error = none;
      })
        ∷ [];
  last_id = suc t.last_id;
}

-- WHERE status='ready' AND run_at<=now
abbrev pub is_due : ℕ → Row → Bool
is_due now r = is_ready r.status && leb r.run_at now

-- ORDER BY priority DESC, id ASC
abbrev pub precedes : Row → Row → Bool
precedes r q =
    at_least r.priority q.priority && (not (at_least q.priority r.priority) || leb r.id q.id)

abbrev pub better : Row → Option Row → Row
better r none = r
better r (some q) = if precedes r q then r else q

-- the SELECT of `dequeue`
unfoldable pub next_due : ℕ → List Row → Option Row
next_due now [] = none
next_due now (r ∷ rs) =
    let rest = next_due now rs in if is_due now r then some (better r rest) else rest

-- UPDATE ... WHERE id=?
unfoldable pub update_row : ℕ → (Row → Row) → List Row → List Row
update_row i change [] = []
update_row i change (r ∷ rs) = (if r.id == i then change r else r) ∷ update_row i change rs

abbrev pub claimed : Row → Row
claimed r = record r { status = inflight; attempts = suc r.attempts }

abbrev pub returned : Bool → Option String → ℕ → Row → Row
returned requeue reason run_at r = record r {
  status = (if requeue then ready else dead);
  last_error = reason;
  run_at = run_at;
}

unfoldable pub ack : ℕ → Table → Table
ack i t = record t { rows = filter (λ r. not (r.id == i)) t.rows }

-- `reason` is none when it is the empty text
unfoldable pub nack : ℕ → Bool → Option String → ℕ → ℕ → Table → Table
unfolding update_row
nack i requeue reason delay now t = record t {
  rows = update_row i (returned requeue reason (now + delay)) t.rows;
}

unfoldable pub size : Status → Table → ℕ
size s t = length (filter (λ r. has_status s r.status) t.rows)

unfoldable pub purge : Table → Table × ℕ
purge t = (record t { rows = [] }, length t.rows)

-- what `json.dumps` does
module _ (dumps : Json → String) where
  unfoldable pub enqueue : Json → Priority → Option ℕ → ℕ → Table → Table × Result QueueError ℕ
  unfolding insert_row
  enqueue action priority run_at now t =
      if is_action action
      then (insert_row (dumps action) priority (due_at now run_at) now t, ok (suc t.last_id))
      else (t, err not_an_action)

abbrev pub claim_item : Row → Option Json → Result QueueError (Option QueueItem)
claim_item r none = err (corrupt_row r.id)
claim_item r (some action) = ok (
    some (record {
      id = r.id;
      action = action;
      attempts = suc r.attempts;
      enqueued_at = r.enqueued_at;
    }))

-- what `json.loads` does
module _ (loads : String → Option Json) where
  -- the row is claimed before its payload is read
  abbrev pub claim : Option Row → Table → Table × Result QueueError (Option QueueItem)
  claim none t = (t, ok none)
  claim (some r) t =
      (record t { rows = update_row r.id claimed t.rows }, claim_item r (loads r.action))

  -- `locked`: the database answers with an OperationalError
  unfoldable pub dequeue : Bool → ℕ → Table → Table × Result QueueError (Option QueueItem)
  unfolding next_due update_row
  dequeue locked now t = if locked then (t, err dequeue_failed) else claim (next_due now t.rows) t

  abbrev pub dead_item : Row → Option Json → List QueueItem → List QueueItem
  dead_item r none rest = rest
  dead_item r (some action) rest =
      (record { id = r.id; action = action; attempts = r.attempts; enqueued_at = r.enqueued_at })
      ∷ rest

  unfoldable pub dead_rows : List Row → List QueueItem
  dead_rows [] = []
  dead_rows (r ∷ rs) =
      let rest = dead_rows rs in
      if is_dead r.status then dead_item r (loads r.action) rest else rest

  unfoldable pub dead_letters : Table → List QueueItem
  unfolding dead_rows
  dead_letters t = dead_rows t.rows
