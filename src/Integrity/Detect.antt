-- ===== src/Integrity/Detect.antt =====
-- integrity/detector.py: the changes between two snapshots, with renames paired by content.
pub mod Accounts
pub mod Complete
mod Tests
use Prim.Native.String.{◌∷◌ as next_char, ◌++◌ as text_append}
use file_automation.Base.{
  ℕ, zero, suc, String, str_eq, Bool, true, false, not, ◌&&◌, ◌||◌, Option, none, some, List, [],
  ◌∷◌, ◌++◌, length, filter, ltb, ◌==◌, if◌then◌else◌, Result, ok, err,
}
use file_automation.Integrity.Compare.{
  SnapshotEntry, ChangeKind, created, modified, deleted, renamed, metadata_changed,
  permission_changed, Change, compare_entries,
}
use file_automation.Integrity.Snapshots.{Snapshot, follows, entry_at, holds_path}

pub data DetectError : Type 0 where
  other_algorithm : String → String → DetectError

pub record ContentKey : Type 0 where
  pub checksum : String
  pub size : Option ℕ
  pub own : String

-- `_content_key`
abbrev pub content_key : SnapshotEntry → ContentKey
content_key e = record {
  checksum = e.checksum;
  size = e.size;
  own = (if str_eq e.checksum "" then e.path else "");
}

abbrev pub same_size : Option ℕ → Option ℕ → Bool
same_size none none = true
same_size (some a) (some b) = a == b
same_size _ _ = false

abbrev pub same_key : ContentKey → ContentKey → Bool
same_key k l = str_eq k.checksum l.checksum && same_size k.size l.size && str_eq k.own l.own

-- a dict from content keys to lists of entries
abbrev pub Groups : Type 0
Groups = List (ContentKey × List SnapshotEntry)

-- grouped.setdefault(key, []).append(entry)
unfoldable pub add_to_group : ContentKey → SnapshotEntry → Groups → Groups
add_to_group k e [] = (k, e ∷ []) ∷ []
add_to_group k e ((l, es) ∷ groups) =
    if same_key l k then (l, es ++ e ∷ []) ∷ groups else (l, es) ∷ add_to_group k e groups

abbrev pub group_onto : Groups → List SnapshotEntry → Groups
group_onto groups [] = groups
group_onto groups (e ∷ es) = group_onto (add_to_group (content_key e) e groups) es

-- `_by_content`
unfoldable pub by_content : List SnapshotEntry → Groups
by_content es = group_onto [] es

-- grouped.pop(key, [])
unfoldable pub pop_group : ContentKey → Groups → List SnapshotEntry × Groups
pop_group k [] = ([], [])
pop_group k ((l, es) ∷ groups) =
    let (found, rest) = pop_group k groups in
    if same_key l k then (es, groups) else (found, (l, es) ∷ rest)

-- text[:n]
abbrev pub first_chars : ℕ → String → String
first_chars zero s = ""
first_chars (suc n) String.[] = ""
first_chars (suc n) (String.◌∷◌ c s) = String.◌∷◌ c (first_chars n s)

abbrev pub first_checksum : List SnapshotEntry → String
first_checksum [] = ""
first_checksum (e ∷ es) = e.checksum

abbrev pub is_nonempty : List SnapshotEntry → Bool
is_nonempty [] = false
is_nonempty (e ∷ es) = true

abbrev pub deletion : String → SnapshotEntry → Change
deletion note e = record {
  kind = deleted;
  path = e.path;
  previous_path = none;
  before = some e;
  after = none;
  fields = [];
  note = note;
}

abbrev pub creation : String → SnapshotEntry → Change
creation note e = record {
  kind = created;
  path = e.path;
  previous_path = none;
  before = none;
  after = some e;
  fields = [];
  note = note;
}

abbrev pub renaming : SnapshotEntry → SnapshotEntry → Change
renaming before after = record {
  kind = renamed;
  path = after.path;
  previous_path = some before.path;
  before = some before;
  after = some after;
  fields = [];
  note = "";
}

abbrev pub deletions : String → List SnapshotEntry → List Change
deletions note [] = []
deletions note (e ∷ es) = deletion note e ∷ deletions note es

abbrev pub creations : String → List SnapshotEntry → List Change
creations note [] = []
creations note (e ∷ es) = creation note e ∷ creations note es

abbrev pub kind_index : ChangeKind → ℕ
kind_index created = 0
kind_index modified = 1
kind_index deleted = 2
kind_index renamed = 3
kind_index metadata_changed = 4
kind_index permission_changed = 5

-- `_order`: whether a change comes after another one
abbrev pub comes_after : Change → Change → Bool
comes_after c d =
    follows c.path d.path || (str_eq c.path d.path && ltb (kind_index d.kind) (kind_index c.kind))

unfoldable pub insert_change : Change → List Change → List Change
insert_change c [] = c ∷ []
insert_change c (d ∷ ds) = if comes_after c d then d ∷ insert_change c ds else c ∷ d ∷ ds

unfoldable pub sort_changes : List Change → List Change
unfolding insert_change
sort_changes [] = []
sort_changes (c ∷ cs) = insert_change c (sort_changes cs)

abbrev pub compare_found : SnapshotEntry → Option SnapshotEntry → List Change
compare_found before none = []
compare_found before (some after) = compare_entries before after

-- the loop over the baseline
unfoldable pub compare_all : Snapshot → List SnapshotEntry → List Change
unfolding entry_at
compare_all current [] = []
compare_all current (e ∷ es) = compare_found e (entry_at current e.path) ++ compare_all current es

-- what `str` makes of a number
module _ (str : ℕ → String) where
  abbrev pub ambiguous : List SnapshotEntry → List SnapshotEntry → String
  ambiguous gone new = text_append "ambiguous rename: " (
      text_append (str (length gone)) (
        text_append " deleted and " (
          text_append (str (length new)) (
            text_append " created files share the checksum "
              (text_append (first_chars 12 (first_checksum gone)) "...; reported separately")))))

  abbrev pub pair_note : List SnapshotEntry → List SnapshotEntry → String
  pair_note gone new = if is_nonempty gone && is_nonempty new then ambiguous gone new else ""

  abbrev pub halves : List SnapshotEntry → List SnapshotEntry → List Change
  halves gone new = deletions (pair_note gone new) gone ++ creations (pair_note gone new) new

  -- `_pair`
  unfoldable pub pair : List SnapshotEntry → List SnapshotEntry → List Change
  pair (before ∷ []) (after ∷ []) = renaming before after ∷ []
  pair gone new = halves gone new

  unfoldable pub pair_new : Groups → List Change
  unfolding pair
  pair_new [] = []
  pair_new ((k, es) ∷ groups) = pair [] es ++ pair_new groups

  -- the loops over what is gone and over what is then left of the new
  unfoldable pub pair_all : Groups → Groups → List Change
  unfolding pair pair_new pop_group
  pair_all [] new = pair_new new
  pair_all ((k, es) ∷ groups) new =
      let (found, rest) = pop_group k new in pair es found ++ pair_all groups rest

  unfoldable pub detect_changes : Snapshot → Snapshot → Result DetectError (List Change)
  unfolding sort_changes compare_all pair_all by_content holds_path
  detect_changes baseline current =
      if not (str_eq baseline.algorithm current.algorithm)
      then err (other_algorithm baseline.algorithm current.algorithm)
      else ok (
          sort_changes (
            compare_all current baseline.entries
            ++ pair_all
                (by_content (filter (λ e. not (holds_path current e.path)) baseline.entries))
                (by_content (filter (λ e. not (holds_path baseline e.path)) current.entries))))
