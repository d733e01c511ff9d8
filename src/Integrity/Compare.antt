-- ===== src/Integrity/Compare.antt =====
-- integrity/detector.py: what has changed in a file that two snapshots hold. A time is a number of
-- its clock's units.
pub mod Agreement
mod Tests
use file_automation.Base.{
  ℕ, String, str_eq, Bool, true, false, not, ◌||◌, Option, none, some, List, [], ◌∷◌, ◌++◌, ◌==◌,
  if◌then◌else◌,
}

-- an entry of integrity/snapshot.py
pub record SnapshotEntry : Type 0 where
  pub path : String
  pub size : Option ℕ
  pub modified_at : Option ℕ
  pub checksum : String
  pub algorithm : String
  pub content_type : Option String
  pub backend : String
  pub version : Option String
  pub etag : Option String
  pub mode : Option ℕ

pub data ChangeKind : Type 0 where
  created modified deleted renamed metadata_changed permission_changed : ChangeKind

pub record Change : Type 0 where
  pub kind : ChangeKind
  pub path : String
  pub previous_path : Option String
  pub before : Option SnapshotEntry
  pub after : Option SnapshotEntry
  pub fields : List String
  pub note : String

-- both values are there, and they differ
abbrev pub numbers_differ : Option ℕ → Option ℕ → Bool
numbers_differ (some old) (some new) = not (old == new)
numbers_differ _ _ = false

abbrev pub texts_differ : Option String → Option String → Bool
texts_differ (some old) (some new) = not (str_eq old new)
texts_differ _ _ = false

unfoldable pub content_differs : SnapshotEntry → SnapshotEntry → Bool
content_differs before after =
    not (str_eq before.checksum after.checksum) || numbers_differ before.size after.size

abbrev pub named : Bool → String → List String → List String
named differs name rest = if differs then name ∷ rest else rest

unfoldable pub metadata_differences : SnapshotEntry → SnapshotEntry → List String
metadata_differences before after =
    named (numbers_differ before.modified_at after.modified_at) "modified_at" (
      named (texts_differ before.content_type after.content_type) "content_type" (
        named (texts_differ before.version after.version) "version"
          (named (texts_differ before.etag after.etag) "etag" [])))

abbrev pub change_of : ChangeKind → List String → SnapshotEntry → SnapshotEntry → Change
change_of kind fields before after = record {
  kind = kind;
  path = after.path;
  previous_path = none;
  before = some before;
  after = some after;
  fields = fields;
  note = "";
}

-- a change of the metadata, if any of them differ
abbrev pub metadata_change : List String → SnapshotEntry → SnapshotEntry → List Change
metadata_change [] before after = []
metadata_change (name ∷ names) before after =
    change_of metadata_changed (name ∷ names) before after ∷ []

-- `_compare`
unfoldable pub compare_entries : SnapshotEntry → SnapshotEntry → List Change
unfolding content_differs metadata_differences
compare_entries before after =
    (if content_differs before after
      then change_of modified [] before after ∷ []
      else metadata_change (metadata_differences before after) before after)
    ++ (if numbers_differ before.mode after.mode
        then change_of permission_changed ("mode" ∷ []) before after ∷ []
        else [])
