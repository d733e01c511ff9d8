-- ===== src/Integrity/Compare/Tests.antt =====
-- A file before and after it was touched and opened to its group.
use file_automation.Base.{none, some, [], ◌∷◌, ◌≡◌, ◌↔◌, refl}
use file_automation.Integrity.Compare.{
  SnapshotEntry, metadata_changed, permission_changed, change_of, compare_entries, content_differs,
  metadata_differences,
}
use file_automation.Integrity.Compare.Agreement.{Agrees, compare_entries-eq-nil}

abbrev notes : SnapshotEntry
notes = record {
  path = "notes.txt";
  size = some 12;
  modified_at = some 100;
  checksum = "ab12";
  algorithm = "sha256";
  content_type = none;
  backend = "local";
  version = none;
  etag = some "v1";
  mode = some 384;
}

abbrev touched : SnapshotEntry
touched = record notes { modified_at = some 160; etag = none; mode = some 432 }

notes-touched :
    compare_entries notes touched
    ≡ change_of metadata_changed ("modified_at" ∷ []) notes touched
      ∷ change_of permission_changed ("mode" ∷ []) notes touched
      ∷ []
unfolding compare_entries content_differs metadata_differences
notes-touched = refl

compare_entries-eq-nil_example : (compare_entries notes touched ≡ []) ↔ Agrees notes touched
compare_entries-eq-nil_example = compare_entries-eq-nil notes touched
