-- ===== src/Scheduler/RunHistory/Newest.antt =====
-- scheduler/runs.py: what a query of a history means, told from the newest record on.
use file_automation.Base.{
  ℕ, zero, suc, String, eq_iff, Bool, true, false, ◌&&◌, &&-true, Option, none, some, List, [], ◌∷◌,
  ◌++◌, filter, reverse, ok, ◌≡◌, refl, arith, inl, inr, Bool-cases, subst,
}
use mathlib.Core.List.{reverse-cons, reverse-reverse}
use file_automation.Scheduler.RunHistory.{
  JobRun, RunState, scheduled, started, completed, failed, skipped, timeout, cancelled, same_state,
  as_run_state, of_job, in_state, take, matching, wanted_state,
}

-- a record of the job that is asked for, and in the state that is asked for; none asks for all
abbrev pub IsOf : Option String → JobRun → Type 0
IsOf none r = Unit
IsOf (some job) r = r.job ≡ job

abbrev pub IsIn : Option RunState → JobRun → Type 0
IsIn none r = Unit
IsIn (some state) r = r.state ≡ state

-- The records that a query finds among `rs`, of which the newest stands last: the newest one that
-- fits comes first, then those that fit among the older ones, up to the limit.
pub data Newest (job : Option String) (state : Option RunState)
    : ℕ → List JobRun → List JobRun → Type 0 where
  nothing : (limit : ℕ) → Newest job state limit [] []
  enough : (rs : List JobRun) → Newest job state 0 rs []
  taken :
      (limit : ℕ) (rs : List JobRun) (r : JobRun) (found : List JobRun)
      → IsOf job r
      → IsIn state r
      → Newest job state limit rs found
      → Newest job state (suc limit) (rs ++ r ∷ []) (r ∷ found)
  passed :
      (limit : ℕ) (rs : List JobRun) (r : JobRun) (found : List JobRun)
      → ¬ (IsOf job r × IsIn state r)
      → Newest job state limit rs found
      → Newest job state limit (rs ++ r ∷ []) found

-- the word of a state, as a caller gives it
abbrev pub state_word : RunState → String
state_word scheduled = "scheduled"
state_word started = "started"
state_word completed = "completed"
state_word failed = "failed"
state_word skipped = "skipped"
state_word timeout = "timeout"
state_word cancelled = "cancelled"

abbrev pub words : Option RunState → Option String
words none = none
words (some s) = some (state_word s)

as_run_state-state_word : (s : RunState) → as_run_state (state_word s) ≡ ok s
unfolding as_run_state
as_run_state-state_word scheduled = refl
as_run_state-state_word started = refl
as_run_state-state_word completed = refl
as_run_state-state_word failed = refl
as_run_state-state_word skipped = refl
as_run_state-state_word timeout = refl
as_run_state-state_word cancelled = refl

pub wanted_state-words : (w : Option RunState) → wanted_state (words w) ≡ ok w
wanted_state-words none = refl
wanted_state-words (some s) = rw (wanted_state, as_run_state-state_word s) refl

same_state-eq : (s t : RunState) → same_state s t ≡ true → s ≡ t
same_state-eq scheduled scheduled h = refl
same_state-eq started started h = refl
same_state-eq completed completed h = refl
same_state-eq failed failed h = refl
same_state-eq skipped skipped h = refl
same_state-eq timeout timeout h = refl
same_state-eq cancelled cancelled h = refl
same_state-eq _ _ h = absurd (ground arith)

same_state_self : (s : RunState) → same_state s s ≡ true
same_state_self scheduled = refl
same_state_self started = refl
same_state_self completed = refl
same_state_self failed = refl
same_state_self skipped = refl
same_state_self timeout = refl
same_state_self cancelled = refl

of_job-IsOf : (job : Option String) (r : JobRun) → of_job job r ≡ true → IsOf job r
of_job-IsOf none r h = tt
of_job-IsOf (some job) r h = (eq_iff r.job job).0 h

IsOf-of_job : (job : Option String) (r : JobRun) → IsOf job r → of_job job r ≡ true
IsOf-of_job none r h = refl
IsOf-of_job (some job) r h = (eq_iff r.job job).1 h

in_state-IsIn : (w : Option RunState) (r : JobRun) → in_state w r ≡ true → IsIn w r
in_state-IsIn none r h = tt
in_state-IsIn (some s) r h = same_state-eq r.state s h

IsIn-in_state : (w : Option RunState) (r : JobRun) → IsIn w r → in_state w r ≡ true
IsIn-in_state none r h = refl
IsIn-in_state (some s) r h = rw h (same_state_self s)

module _ (job : Option String) (state : Option RunState) where
  abbrev fits : JobRun → Bool
  fits r = of_job job r && in_state state r

  unfit : (r : JobRun) → fits r ≡ false → ¬ (IsOf job r × IsIn state r)
  unfit r h (o, i) = absurd (ground (arith, IsOf-of_job job r o, IsIn-in_state state r i))

  reversed-Newest :
      (k : ℕ) (qs : List JobRun) → Newest job state k (reverse qs) (take k (filter fits qs))
  reversed-Newest zero qs = Newest.enough (reverse qs)
  reversed-Newest (suc k) [] = Newest.nothing (suc k)
  reversed-Newest (suc k) (r ∷ qs) = elim (Bool-cases (fits r)) [
    | inl fit ↦
        let (o, i) = &&-true _ _ fit in
        rw (fit, reverse-cons r qs)
          (Newest.taken k (reverse qs) r (take k (filter fits qs)) (of_job-IsOf job r o)
            (in_state-IsIn state r i) (reversed-Newest k qs))
    | inr misfit ↦
        rw (misfit, reverse-cons r qs)
          (Newest.passed (suc k) (reverse qs) r (take (suc k) (filter fits qs)) (unfit r misfit)
            (reversed-Newest (suc k) qs))
  ]

  pub matching-Newest : (k : ℕ) (rs : List JobRun) → Newest job state k rs (matching job state k rs)
  matching-Newest k rs =
      subst (λ xs. Newest job state k xs (matching job state k rs)) (reverse-reverse rs)
        (reversed-Newest k (reverse rs))
