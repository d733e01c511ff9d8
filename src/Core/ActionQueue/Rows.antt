-- ===== src/Core/ActionQueue/Rows.antt =====
-- The rows of core/action_queue.py: the order in which they are claimed, and their IDs.
use file_automation.Base.{
  ℕ, true, false, Option, none, some, List, [], ◌∷◌, ◌++◌, All, All-map, ◌==◌, ◌≡◌, refl, arith,
  inl, inr, Bool-cases,
}
use file_automation.Core.ActionQueue.{
  Priority, from_zero, below_zero, at_least, Row, is_due, precedes, better, next_due, update_row,
}

at_least-total : (a b : Priority) → at_least a b ≡ false → at_least b a ≡ true
at_least-total (from_zero a) (from_zero b) h = ground (arith, h)
at_least-total (from_zero a) (below_zero b) h = absurd (ground arith)
at_least-total (below_zero a) (from_zero b) h = refl
at_least-total (below_zero a) (below_zero b) h = ground (arith, h)

at_least_trans :
    (a b c : Priority) → at_least a b ≡ true → at_least b c ≡ true → at_least a c ≡ true
at_least_trans (from_zero a) (from_zero b) (from_zero c) h k = ground (arith, h, k)
at_least_trans (from_zero a) (from_zero b) (below_zero c) h k = refl
at_least_trans (from_zero a) (below_zero b) (from_zero c) h k = absurd (ground arith)
at_least_trans (from_zero a) (below_zero b) (below_zero c) h k = refl
at_least_trans (below_zero a) (from_zero b) c h k = absurd (ground arith)
at_least_trans (below_zero a) (below_zero b) (from_zero c) h k = absurd (ground arith)
at_least_trans (below_zero a) (below_zero b) (below_zero c) h k = ground (arith, h, k)

at_least_self : (a : Priority) → at_least a a ≡ true
at_least_self (from_zero a) = ground arith
at_least_self (below_zero a) = ground arith

pub precedes_self : (r : Row) → precedes r r ≡ true
precedes_self r = ground (arith, at_least_self r.priority)

pub precedes-total : (r q : Row) → precedes r q ≡ false → precedes q r ≡ true
precedes-total r q h =
    ground (arith, at_least-total r.priority q.priority, at_least-total q.priority r.priority)

pub precedes_trans : (r q s : Row) → precedes r q ≡ true → precedes q s ≡ true → precedes r s ≡ true
precedes_trans r q s h k = ground (
  arith,
  at_least_trans r.priority q.priority s.priority,
  at_least_trans s.priority r.priority q.priority,
  at_least_trans q.priority s.priority r.priority,
)

-- `r` is the first of the due rows
pub record IsFirst (now : ℕ) (rs : List Row) (r : Row) : Type 0 where
  pub before : List Row
  pub after : List Row
  pub found : rs ≡ before ++ r ∷ after
  pub due : is_due now r ≡ true
  pub leads : All (λ q. is_due now q ≡ true → precedes r q ≡ true) rs

abbrev pub Chosen : ℕ → List Row → Option Row → Type 0
Chosen now rs none = All (λ q. is_due now q ≡ false) rs
Chosen now rs (some r) = IsFirst now rs r

here-IsFirst :
    (now : ℕ) (r : Row) (rs : List Row)
    → is_due now r ≡ true
    → All (λ q. is_due now q ≡ true → precedes r q ≡ true) rs
    → IsFirst now (r ∷ rs) r
here-IsFirst now r rs d l = record {
  before = [];
  after = rs;
  found = refl;
  due = d;
  leads = (λ e. precedes_self r, l);
}

there-IsFirst :
    (now : ℕ) (r q : Row) (rs : List Row)
    → (is_due now r ≡ true → precedes q r ≡ true)
    → IsFirst now rs q
    → IsFirst now (r ∷ rs) q
there-IsFirst now r q rs p i = record {
  before = r ∷ i.before;
  after = i.after;
  found = rw (i.found) refl;
  due = i.due;
  leads = (p, i.leads);
}

better-Chosen :
    (now : ℕ) (r : Row) (rs : List Row) (o : Option Row)
    → is_due now r ≡ true
    → Chosen now rs o
    → Chosen now (r ∷ rs) (some (better r o))
better-Chosen now r rs none d c =
    here-IsFirst now r rs d (All-map _ _ rs (λ q e f. absurd (ground arith)) c)
better-Chosen now r rs (some q) d c = elim (Bool-cases (precedes r q)) [
  | inl p ↦
      rw p
        (here-IsFirst now r rs d (All-map _ _ rs (λ s e f. precedes_trans r q s p (e f)) c.leads))
  | inr n ↦ rw n (there-IsFirst now r q rs (λ e. precedes-total r q n) c)
]

skip-Chosen :
    (now : ℕ) (r : Row) (rs : List Row) (o : Option Row)
    → is_due now r ≡ false
    → Chosen now rs o
    → Chosen now (r ∷ rs) o
skip-Chosen now r rs none d c = (d, c)
skip-Chosen now r rs (some q) d c = there-IsFirst now r q rs (λ e. absurd (ground arith)) c

pub next_due-Chosen : (now : ℕ) (rs : List Row) → Chosen now rs (next_due now rs)
unfolding next_due
next_due-Chosen now [] = tt
next_due-Chosen now (r ∷ rs) =
    let rest = next_due-Chosen now rs in
    elim (Bool-cases (is_due now r)) [
      | inl d ↦ rw d (better-Chosen now r rs (next_due now rs) d rest)
      | inr n ↦ rw n (skip-Chosen now r rs (next_due now rs) n rest)
    ]

-- no two rows have the same ID
abbrev pub HasDistinctIds : List Row → Type 0
HasDistinctIds [] = Unit
HasDistinctIds (r ∷ rs) = All (λ q. (q.id == r.id) ≡ false) rs × HasDistinctIds rs

pub All-middle :
    (P : Row → Type 0) (before : List Row) (r : Row) (after : List Row)
    → All P (before ++ r ∷ after)
    → P r
All-middle P [] r after a = a.0
All-middle P (b ∷ before) r after a = All-middle P before r after a.1

update_row-none :
    (i : ℕ) (change : Row → Row) (rs : List Row)
    → All (λ q. (q.id == i) ≡ false) rs
    → update_row i change rs ≡ rs
unfolding update_row
update_row-none i change [] a = refl
update_row-none i change (r ∷ rs) a = rw (a.0, update_row-none i change rs a.1) refl

pub update_row-found :
    (change : Row → Row) (before : List Row) (r : Row) (after : List Row)
    → HasDistinctIds (before ++ r ∷ after)
    → update_row r.id change (before ++ r ∷ after) ≡ before ++ change r ∷ after
unfolding update_row
update_row-found change [] r after d =
    let self : (r.id == r.id) ≡ true = ground arith in
    rw (self, update_row-none r.id change after d.0) refl
update_row-found change (b ∷ before) r after d =
    let other : (b.id == r.id) ≡ false =
      ground (arith, All-middle (λ q. (q.id == b.id) ≡ false) before r after d.0) in
    rw (other, update_row-found change before r after d.1) refl
