-- ===== src/Integrity/Detect/Complete.antt =====
-- integrity/detector.py: every file that is gone and every file that is new is in the report, once.
use file_automation.Base.{
  ℕ, ◌+◌, String, str_eq, eq_iff, true, not, List, [], ◌∷◌, ◌++◌, filter, ok, ◌≡◌, refl, arith, inl,
  inr, Bool-cases,
}
use file_automation.Integrity.Compare.{SnapshotEntry, Change}
use file_automation.Integrity.Snapshots.{Snapshot, holds_path}
use file_automation.Integrity.Detect.{
  ContentKey, content_key, same_key, Groups, add_to_group, group_onto, by_content, pop_group,
  sort_changes, compare_all, pair_note, halves, pair, pair_new, pair_all, detect_changes,
}
use file_automation.Integrity.Detect.Accounts.{
  count, count-append, paths, paths-append, departures, arrivals, Moves, append-Moves,
  deletions-Moves, creations-Moves, compare_all-Moves, sort_changes-Moves,
}

abbrev group_paths : Groups → List String
group_paths [] = []
group_paths ((k, es) ∷ groups) = paths es ++ group_paths groups

count-group :
    (p : String) (k : ContentKey) (es : List SnapshotEntry) (groups : Groups)
    → count p (group_paths ((k, es) ∷ groups)) ≡ count p (paths es) + count p (group_paths groups)
count-group p k es groups = count-append p (paths es) (group_paths groups)

count-paths_append :
    (p : String) (xs ys : List SnapshotEntry)
    → count p (paths (xs ++ ys)) ≡ count p (paths xs) + count p (paths ys)
count-paths_append p xs ys = rw (paths-append xs ys) (count-append p (paths xs) (paths ys))

count-add_to_group :
    (p : String) (k : ContentKey) (e : SnapshotEntry) (groups : Groups)
    → count p (group_paths (add_to_group k e groups))
      ≡ count p (e.path ∷ []) + count p (group_paths groups)
unfolding add_to_group
count-add_to_group p k e [] = omega (arith, count-group p k (e ∷ []) [])
count-add_to_group p k e ((l, es) ∷ groups) = elim (Bool-cases (same_key l k)) [
  | inl same ↦ rw same (
      omega (
        arith,
        count-group p l (es ++ e ∷ []) groups,
        count-group p l es groups,
        count-paths_append p es (e ∷ []),
      ))
  | inr differs ↦ rw differs (
      omega (
        arith,
        count-group p l es (add_to_group k e groups),
        count-group p l es groups,
        count-add_to_group p k e groups,
      ))
]

count-group_onto :
    (p : String) (groups : Groups) (es : List SnapshotEntry)
    → count p (group_paths (group_onto groups es))
      ≡ count p (group_paths groups) + count p (paths es)
count-group_onto p groups [] = omega arith
count-group_onto p groups (e ∷ es) = ground (
  arith,
  count-group_onto p (add_to_group (content_key e) e groups) es,
  count-add_to_group p (content_key e) e groups,
)

count-by_content :
    (p : String) (es : List SnapshotEntry)
    → count p (group_paths (by_content es)) ≡ count p (paths es)
unfolding by_content
count-by_content p es = omega (arith, count-group_onto p [] es)

count-pop_group :
    (p : String) (k : ContentKey) (groups : Groups)
    → count p (paths (pop_group k groups).0) + count p (group_paths (pop_group k groups).1)
      ≡ count p (group_paths groups)
unfolding pop_group
count-pop_group p k [] = refl
count-pop_group p k ((l, es) ∷ groups) = elim (Bool-cases (same_key l k)) [
  | inl same ↦ rw same (omega (arith, count-group p l es groups))
  | inr differs ↦ rw differs (
      omega (
        arith,
        count-group p l es groups,
        count-group p l es (pop_group k groups).1,
        count-pop_group p k groups,
      ))
]

-- the paths of one snapshot that another one does not have
abbrev pub lacking : Snapshot → Snapshot → List String
lacking other s = paths (filter (λ e. not (holds_path other e.path)) s.entries)

module _ (str : ℕ → String) where
  halves-Moves :
      (p : String) (gone new : List SnapshotEntry)
      → Moves p (halves str gone new) (count p (paths gone)) (count p (paths new))
  halves-Moves p gone new =
      let note = pair_note str gone new in
      let both =
        append-Moves p _ _ _ _ _ _ (deletions-Moves p note gone) (creations-Moves p note new) in
      record { leaves = omega (arith, both.leaves); comes = omega (arith, both.comes) }

  pair-Moves :
      (p : String) (gone new : List SnapshotEntry)
      → Moves p (pair str gone new) (count p (paths gone)) (count p (paths new))
  unfolding pair
  pair-Moves p (g ∷ []) (n ∷ []) = record { leaves = refl; comes = refl }
  pair-Moves p [] new = halves-Moves p [] new
  pair-Moves p (g ∷ []) [] = halves-Moves p (g ∷ []) []
  pair-Moves p (g ∷ []) (n ∷ m ∷ ns) = halves-Moves p (g ∷ []) (n ∷ m ∷ ns)
  pair-Moves p (g ∷ h ∷ gs) new = halves-Moves p (g ∷ h ∷ gs) new

  pair_new-Moves :
      (p : String) (new : Groups) → Moves p (pair_new str new) 0 (count p (group_paths new))
  unfolding pair_new
  pair_new-Moves p [] = record { leaves = refl; comes = refl }
  pair_new-Moves p ((k, es) ∷ groups) =
      let both = append-Moves p _ _ _ _ _ _ (pair-Moves p [] es) (pair_new-Moves p groups) in
      record { leaves = both.leaves; comes = omega (arith, both.comes, count-group p k es groups) }

  pair_all-Moves :
      (p : String) (gone new : Groups)
      → Moves p (pair_all str gone new) (count p (group_paths gone)) (count p (group_paths new))
  unfolding pair_all
  pair_all-Moves p [] new = pair_new-Moves p new
  pair_all-Moves p ((k, es) ∷ groups) new =
      let both =
        append-Moves p _ _ _ _ _ _ (pair-Moves p es (pop_group k new).0)
          (pair_all-Moves p groups (pop_group k new).1) in
      record {
        leaves = omega (arith, both.leaves, count-group p k es groups);
        comes = omega (arith, both.comes, count-pop_group p k new);
      }

  -- Two snapshots with one algorithm always get a report, and it accounts for every path: it is
  -- deleted or renamed away exactly as often as the baseline has it and the current snapshot does
  -- not, and created or the new name of a file exactly as often as the current snapshot has it and
  -- the baseline does not. So in the pairing of renames no file is lost and none is reported twice.
  pub detect_changes_complete :
      (baseline current : Snapshot)
      → baseline.algorithm ≡ current.algorithm
      → (changes : List Change) × (detect_changes str baseline current ≡ ok changes)
        × ((p : String)
            → (count p (departures changes) ≡ count p (lacking current baseline))
              × (count p (arrivals changes) ≡ count p (lacking baseline current)))
  unfolding detect_changes
  detect_changes_complete baseline current h =
      let gone = filter (λ e. not (holds_path current e.path)) baseline.entries in
      let new = filter (λ e. not (holds_path baseline e.path)) current.entries in
      let unsorted =
        compare_all current baseline.entries ++ pair_all str (by_content gone) (by_content new) in
      let same : str_eq baseline.algorithm current.algorithm ≡ true =
        ground (arith, eq_iff baseline.algorithm current.algorithm) in
      (
        sort_changes unsorted,
        rw same refl,
        λ p.
            let both =
              append-Moves p _ _ _ _ _ _ (compare_all-Moves p current baseline.entries)
                (pair_all-Moves p (by_content gone) (by_content new)) in
            let sorted = sort_changes-Moves p unsorted in
            (
              omega (arith, sorted.leaves, both.leaves, count-by_content p gone),
              omega (arith, sorted.comes, both.comes, count-by_content p new),
            ),
      )
