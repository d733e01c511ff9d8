-- ===== src/Scheduler/RunHistory/Latest.antt =====
-- scheduler/runs.py: a bounded history answers as an unbounded one would, of its latest records.
use file_automation.Base.{
  ℕ, zero, suc, ◌+◌, ◌-◌, ◌≤◌, String, Option, List, [], ◌∷◌, ◌++◌, length, length-append, ltb,
  Result, ok, err, ◌>>=◌, ◌≡◌, refl, arith, inl, inr, Bool-cases, sym, ◌∙◌, ap, subst,
}
use file_automation.Scheduler.RunHistory.{
  JobRun, RunState, HistoryError, RunHistory, create, drop, add, clear, matching, wanted_state,
  answered, query, Op, adding, clearing, steps,
}
use file_automation.Scheduler.RunHistory.Newest.{Newest, words, wanted_state-words, matching-Newest}

-- The specification: all records since the last `clear`, the oldest first, and the latest of them.
abbrev pub recorded : List Op → List JobRun → List JobRun
recorded [] all = all
recorded (adding r ∷ ops) all = recorded ops (all ++ r ∷ [])
recorded (clearing ∷ ops) all = recorded ops []

abbrev pub latest : ℕ → List JobRun → List JobRun
latest n rs = drop (length rs - n) rs

drop-append : (k : ℕ) (rs qs : List JobRun) → k ≤ length rs → drop k (rs ++ qs) ≡ drop k rs ++ qs
drop-append zero rs qs h = refl
drop-append (suc k) [] qs h = absurd (omega (arith, h))
drop-append (suc k) (r ∷ rs) qs h = drop-append k rs qs (omega (arith, h))

drop_nil : (k : ℕ) → drop k [] ≡ []
drop_nil zero = refl
drop_nil (suc k) = refl

drop-drop : (j k : ℕ) (rs : List JobRun) → drop j (drop k rs) ≡ drop (k + j) rs
drop-drop j zero rs = ap (λ n. drop n rs) (omega arith)
drop-drop j (suc k) [] = drop_nil j ∙ sym (drop_nil (suc k + j))
drop-drop j (suc k) (r ∷ rs) =
    let shifted : suc (k + j) ≡ suc k + j = omega arith in
    drop-drop j k rs ∙ ap (λ n. drop n (r ∷ rs)) shifted

length-drop : (k : ℕ) (rs : List JobRun) → length (drop k rs) ≡ length rs - k
length-drop zero rs = omega arith
length-drop (suc k) [] = omega arith
length-drop (suc k) (r ∷ rs) = omega (arith, length-drop k rs)

-- dropping before a record is added and after it comes to the same
latest-add :
    (n : ℕ) (rs : List JobRun) (r : JobRun)
    → latest n (latest n rs ++ r ∷ []) ≡ latest n (rs ++ r ∷ [])
latest-add n rs r =
    let gone = length rs - n in
    let joined : drop gone (rs ++ r ∷ []) ≡ drop gone rs ++ r ∷ [] =
      drop-append gone rs (r ∷ []) (omega arith) in
    let sizes : gone + (length (drop gone rs ++ r ∷ []) - n) ≡ length (rs ++ r ∷ []) - n = omega (
      arith,
      length-append (drop gone rs) (r ∷ []),
      length-append rs (r ∷ []),
      length-drop gone rs,
    ) in
    ap (drop (length (drop gone rs ++ r ∷ []) - n)) (sym joined)
    ∙ drop-drop (length (drop gone rs ++ r ∷ []) - n) gone (rs ++ r ∷ [])
    ∙ ap (λ k. drop k (rs ++ r ∷ [])) sizes

-- a history that holds the latest of all that was recorded
record IsLatest (n : ℕ) (all : List JobRun) (h : RunHistory) : Type 0 where
  limit : h.limit ≡ n
  runs : h.runs ≡ latest n all

add-IsLatest :
    (n : ℕ) (all : List JobRun) (r : JobRun) (h : RunHistory)
    → IsLatest n all h
    → IsLatest n (all ++ r ∷ []) (add r h)
unfolding add
add-IsLatest n all r h l = record {
  limit = l.limit;
  runs = rw (l.limit, l.runs) (latest-add n all r);
}

clear-IsLatest :
    (n : ℕ) (all : List JobRun) (h : RunHistory) → IsLatest n all h → IsLatest n [] (clear h)
clear-IsLatest n all h l = record { limit = l.limit; runs = sym (drop_nil (0 - n)) }

steps-IsLatest :
    (n : ℕ) (ops : List Op) (all : List JobRun) (h : RunHistory)
    → IsLatest n all h
    → IsLatest n (recorded ops all) (steps ops h)
unfolding steps
steps-IsLatest n [] all h l = l
steps-IsLatest n (adding r ∷ ops) all h l =
    steps-IsLatest n ops (all ++ r ∷ []) (add r h) (add-IsLatest n all r h l)
steps-IsLatest n (clearing ∷ ops) all h l =
    steps-IsLatest n ops [] (clear h) (clear-IsLatest n all h l)

create-IsLatest : (n : ℕ) (h : RunHistory) → create n ≡ ok h → IsLatest n [] h
unfolding create
create-IsLatest n h e = elim (Bool-cases (ltb n 1)) [
  | inl small ↦ absurd (ground arith)
  | inr fits ↦
      let made : record { limit = n; runs = [] } ≡ h = ground (arith, e, fits) in
      subst (IsLatest n []) made (record { limit = refl; runs = sym (drop_nil (0 - n)) })
]

answered-matching :
    (job : Option String) (w : Result HistoryError (Option RunState)) (k : ℕ) (h : RunHistory)
    (rs : List JobRun)
    → h.runs ≡ rs
    → answered job w k h ≡ (w >>= λ s. ok (matching job s k rs))
answered-matching job (err e) k h rs m = refl
answered-matching job (ok w) k h rs m = ap (λ x. ok (matching job w k x)) m

-- A history keeps at most as many records as its limit says, and a query for a job, a state, both
-- or neither answers with the records that fit, the newest first and no more than the query's own
-- limit, among the latest records since the last `clear`, as if all records had been kept: whatever
-- calls changed the history since it was made.
pub query-latest :
    (n : ℕ) (h : RunHistory) (ops : List Op) (job : Option String) (state : Option RunState) (k : ℕ)
    → create n ≡ ok h
    → (length ((steps ops h).runs) ≤ n)
      × ((found : List JobRun) × (query job (words state) k (steps ops h) ≡ ok found)
          × Newest job state k (latest n (recorded ops [])) found)
unfolding query
query-latest n h ops job state k e =
    let l = steps-IsLatest n ops [] h (create-IsLatest n h e) in
    let kept = latest n (recorded ops []) in
    (
      rw (l.runs) (omega (arith, length-drop (length (recorded ops []) - n) (recorded ops []))),
      (
        matching job state k kept,
        answered-matching job (wanted_state (words state)) k (steps ops h) kept (l.runs)
            ∙ rw (wanted_state-words state) refl,
        matching-Newest job state k kept,
      ),
    )
