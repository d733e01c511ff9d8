-- ===== src/Integrity/Detect/Tests.antt =====
-- Two snapshots: one file renamed, one changed, one new.
use file_automation.Base.{String, none, some, List, [], ◌∷◌, insert, map, ok, ◌≡◌, refl}
use file_automation.Integrity.Compare.{SnapshotEntry, Change}
use file_automation.Integrity.Snapshots.{Snapshot, make_snapshot}
use file_automation.Integrity.Detect.{detect_changes}
use file_automation.Integrity.Detect.Accounts.{count, departures, arrivals}
use file_automation.Integrity.Detect.Complete.{lacking, detect_changes_complete}

abbrev file : String → String → SnapshotEntry
file path checksum = record {
  path = path;
  size = some 1;
  modified_at = none;
  checksum = checksum;
  algorithm = "sha256";
  content_type = none;
  backend = "local";
  version = none;
  etag = none;
  mode = none;
}

abbrev snapshot_of : List SnapshotEntry → Snapshot
snapshot_of entries = record {
  root = "local:///data";
  backend = "local";
  algorithm = "sha256";
  entries = entries;
  index = map (λ e. (e.path, e)) entries;
}

abbrev was_there : Snapshot
was_there = snapshot_of (file "a" "11" ∷ file "b" "22" ∷ [])

abbrev now_there : Snapshot
now_there = snapshot_of (file "b" "33" ∷ file "c" "11" ∷ file "d" "44" ∷ [])

was_there_made :
    make_snapshot "local:///data" "local" "sha256" (file "b" "22" ∷ file "a" "11" ∷ [])
    ≡ ok was_there
unfolding make_snapshot insert
was_there_made = refl

detect_changes_complete_example :
    (changes : List Change) × (detect_changes (λ n. "some") was_there now_there ≡ ok changes)
    × ((p : String)
        → (count p (departures changes) ≡ count p (lacking now_there was_there))
          × (count p (arrivals changes) ≡ count p (lacking was_there now_there)))
detect_changes_complete_example = detect_changes_complete (λ n. "some") was_there now_there refl
