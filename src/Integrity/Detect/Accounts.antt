-- ===== src/Integrity/Detect/Accounts.antt =====
-- integrity/detector.py: the paths that changes speak of, counted.
use file_automation.Base.{
  ℕ, suc, ◌+◌, String, str_eq, Bool, true, false, Option, none, some, List, [], ◌∷◌, ◌++◌,
  if◌then◌else◌, ◌≡◌, refl, arith, inl, inr, Bool-cases,
}
use file_automation.Integrity.Compare.{
  SnapshotEntry, ChangeKind, created, deleted, renamed, Change, content_differs,
  metadata_differences, metadata_change, numbers_differ, compare_entries,
}
use file_automation.Integrity.Snapshots.{Snapshot, entry_at}
use file_automation.Integrity.Detect.{
  deletions, creations, comes_after, insert_change, sort_changes, compare_found, compare_all,
}

-- how often a path is listed
abbrev pub count : String → List String → ℕ
count p [] = 0
count p (x ∷ xs) = let rest = count p xs in if str_eq x p then suc rest else rest

pub count-append : (p : String) (xs ys : List String) → count p (xs ++ ys) ≡ count p xs + count p ys
count-append p [] ys = omega arith
count-append p (x ∷ xs) ys = ground (arith, count-append p xs ys)

abbrev pub paths : List SnapshotEntry → List String
paths [] = []
paths (e ∷ es) = e.path ∷ paths es

pub paths-append : (xs ys : List SnapshotEntry) → paths (xs ++ ys) ≡ paths xs ++ paths ys
paths-append [] ys = refl
paths-append (x ∷ xs) ys = rw (paths-append xs ys) refl

abbrev pub or_no_path : Option String → List String
or_no_path none = []
or_no_path (some p) = p ∷ []

-- the path that a change takes away, and the one that it brings
abbrev pub departure : ChangeKind → Change → List String
departure deleted c = c.path ∷ []
departure renamed c = or_no_path c.previous_path
departure _ c = []

abbrev pub arrival : ChangeKind → Change → List String
arrival created c = c.path ∷ []
arrival renamed c = c.path ∷ []
arrival _ c = []

abbrev pub departures : List Change → List String
departures [] = []
departures (c ∷ cs) = departure c.kind c ++ departures cs

abbrev pub arrivals : List Change → List String
arrivals [] = []
arrivals (c ∷ cs) = arrival c.kind c ++ arrivals cs

-- changes that take and bring certain numbers of a path
pub record Moves (p : String) (cs : List Change) (taken brought : ℕ) : Type 0 where
  pub leaves : count p (departures cs) ≡ taken
  pub comes : count p (arrivals cs) ≡ brought

pub departures-append :
    (p : String) (cs ds : List Change)
    → count p (departures (cs ++ ds)) ≡ count p (departures cs) + count p (departures ds)
departures-append p [] ds = omega arith
departures-append p (c ∷ cs) ds = ground (
  arith,
  departures-append p cs ds,
  count-append p (departure c.kind c) (departures (cs ++ ds)),
  count-append p (departure c.kind c) (departures cs),
)

pub arrivals-append :
    (p : String) (cs ds : List Change)
    → count p (arrivals (cs ++ ds)) ≡ count p (arrivals cs) + count p (arrivals ds)
arrivals-append p [] ds = omega arith
arrivals-append p (c ∷ cs) ds = ground (
  arith,
  arrivals-append p cs ds,
  count-append p (arrival c.kind c) (arrivals (cs ++ ds)),
  count-append p (arrival c.kind c) (arrivals cs),
)

pub append-Moves :
    (p : String) (cs ds : List Change) (a b c d : ℕ)
    → Moves p cs a b
    → Moves p ds c d
    → Moves p (cs ++ ds) (a + c) (b + d)
append-Moves p cs ds a b c d m n = record {
  leaves = omega (arith, departures-append p cs ds, m.leaves, n.leaves);
  comes = omega (arith, arrivals-append p cs ds, m.comes, n.comes);
}

pub deletions-Moves :
    (p note : String) (es : List SnapshotEntry) → Moves p (deletions note es) (count p (paths es)) 0
deletions-Moves p note [] = record { leaves = refl; comes = refl }
deletions-Moves p note (e ∷ es) =
    let rest = deletions-Moves p note es in
    record { leaves = ground (arith, rest.leaves); comes = ground (arith, rest.comes) }

pub creations-Moves :
    (p note : String) (es : List SnapshotEntry) → Moves p (creations note es) 0 (count p (paths es))
creations-Moves p note [] = record { leaves = refl; comes = refl }
creations-Moves p note (e ∷ es) =
    let rest = creations-Moves p note es in
    record { leaves = ground (arith, rest.leaves); comes = ground (arith, rest.comes) }

-- a file that both snapshots hold neither leaves nor comes
metadata_change-Moves :
    (p : String) (names : List String) (b a : SnapshotEntry)
    → Moves p (metadata_change names b a) 0 0
metadata_change-Moves p [] b a = record { leaves = refl; comes = refl }
metadata_change-Moves p (n ∷ ns) b a = record { leaves = refl; comes = refl }

branch-Moves :
    (p : String) (b : Bool) (cs ds : List Change)
    → Moves p cs 0 0
    → Moves p ds 0 0
    → Moves p (if b then cs else ds) 0 0
branch-Moves p true cs ds m n = m
branch-Moves p false cs ds m n = n

compare_found-Moves :
    (p : String) (e : SnapshotEntry) (o : Option SnapshotEntry) → Moves p (compare_found e o) 0 0
unfolding compare_entries
compare_found-Moves p e none = record { leaves = refl; comes = refl }
compare_found-Moves p e (some a) =
    append-Moves p _ _ 0 0 0 0
      (branch-Moves p (content_differs e a) _ _ (record { leaves = refl; comes = refl })
        (metadata_change-Moves p (metadata_differences e a) e a))
      (branch-Moves p (numbers_differ e.mode a.mode) _ _ (record { leaves = refl; comes = refl })
        (record { leaves = refl; comes = refl }))

pub compare_all-Moves :
    (p : String) (current : Snapshot) (es : List SnapshotEntry)
    → Moves p (compare_all current es) 0 0
unfolding compare_all
compare_all-Moves p current [] = record { leaves = refl; comes = refl }
compare_all-Moves p current (e ∷ es) =
    append-Moves p _ _ 0 0 0 0 (compare_found-Moves p e (entry_at current e.path))
      (compare_all-Moves p current es)

-- sorting neither adds nor drops a change
insert_change-Moves :
    (p : String) (c : Change) (cs : List Change) (a b : ℕ)
    → Moves p (c ∷ cs) a b
    → Moves p (insert_change c cs) a b
unfolding insert_change
insert_change-Moves p c [] a b m = m
insert_change-Moves p c (d ∷ ds) a b m = elim (Bool-cases (comes_after c d)) [
  | inl later ↦
      let rest = insert_change-Moves p c ds _ _ (record { leaves = refl; comes = refl }) in
      rw later (record {
        leaves = omega (
          arith,
          m.leaves,
          rest.leaves,
          count-append p (departure d.kind d) (departures (insert_change c ds)),
          count-append p (departure d.kind d) (departures ds),
          count-append p (departure c.kind c) (departures ds),
          count-append p (departure c.kind c) (departures (d ∷ ds)),
        );
        comes = omega (
          arith,
          m.comes,
          rest.comes,
          count-append p (arrival d.kind d) (arrivals (insert_change c ds)),
          count-append p (arrival d.kind d) (arrivals ds),
          count-append p (arrival c.kind c) (arrivals ds),
          count-append p (arrival c.kind c) (arrivals (d ∷ ds)),
        );
      })
  | inr here ↦ rw here m
]

pub sort_changes-Moves :
    (p : String) (cs : List Change)
    → Moves p (sort_changes cs) (count p (departures cs)) (count p (arrivals cs))
unfolding sort_changes
sort_changes-Moves p [] = record { leaves = refl; comes = refl }
sort_changes-Moves p (c ∷ cs) =
    let rest = sort_changes-Moves p cs in
    insert_change-Moves p c (sort_changes cs) _ _ (record {
      leaves = omega (
        arith,
        rest.leaves,
        count-append p (departure c.kind c) (departures (sort_changes cs)),
        count-append p (departure c.kind c) (departures cs),
      );
      comes = omega (
        arith,
        rest.comes,
        count-append p (arrival c.kind c) (arrivals (sort_changes cs)),
        count-append p (arrival c.kind c) (arrivals cs),
      );
    })
