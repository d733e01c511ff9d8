-- ===== src/Core/ActionQueue/Life.antt =====
-- The calls of core/action_queue.py in sequence, and the IDs that they claim.
use file_automation.Base.{
  ℕ, String, Bool, false, Option, none, some, List, [], ◌∷◌, ◌++◌, any, ◌==◌, if◌then◌else◌,
}
use file_automation.Base.Json.{Json}
use file_automation.Core.ActionQueue.{
  Priority, Row, Table, next_due, enqueue, dequeue, ack, nack, purge,
}

pub data Op : Type 0 where
  enqueuing : Json → Priority → Option ℕ → ℕ → Op
  dequeuing : Bool → ℕ → Op
  acking : ℕ → Op
  nacking : ℕ → Bool → Option String → ℕ → ℕ → Op
  purging : Op

-- whether a call gives row `i` back to the queue
abbrev pub gives_back : ℕ → Op → Bool
gives_back i (nacking j requeue reason delay now) = j == i
gives_back i _ = false

abbrev pub id_of : Option Row → List ℕ
id_of none = []
id_of (some r) = r.id ∷ []

-- the ID that a call claims
unfoldable pub claims_of : Op → Table → List ℕ
claims_of (dequeuing locked now) t = if locked then [] else id_of (next_due now t.rows)
claims_of _ t = []

abbrev pub is_in : ℕ → List ℕ → Bool
is_in i xs = any (λ j. j == i) xs

module _ (dumps : Json → String) (loads : String → Option Json) where
  unfoldable pub step : Op → Table → Table
  unfolding enqueue dequeue ack nack purge
  step (enqueuing action priority run_at now) t = (enqueue dumps action priority run_at now t).0
  step (dequeuing locked now) t = (dequeue loads locked now t).0
  step (acking i) t = ack i t
  step (nacking i requeue reason delay now) t = nack i requeue reason delay now t
  step purging t = (purge t).0

  unfoldable pub run : List Op → Table → Table
  unfolding step
  run [] t = t
  run (op ∷ ops) t = run ops (step op t)

  -- the IDs that are claimed, in their order
  unfoldable pub claims : List Op → Table → List ℕ
  unfolding step claims_of
  claims [] t = []
  claims (op ∷ ops) t = claims_of op t ++ claims ops (step op t)
