-- ===== src/Integrity/Snapshots.antt =====
-- integrity/snapshot.py: what is known of the files below a root, with an index by path. The time at
-- which a snapshot was taken is left out.
use Prim.Native.Nat.{Ordering}
use Prim.Native.String.{compare}
use file_automation.Base.{
  String, Bool, true, false, not, Option, List, [], ◌∷◌, length, elem, ◌==◌, if◌then◌else◌, Dict,
  lookup, insert, has_key, Result, ok, err,
}
use file_automation.Integrity.Compare.{SnapshotEntry}

pub record Snapshot : Type 0 where
  pub root : String
  pub backend : String
  pub algorithm : String
  pub entries : List SnapshotEntry
  pub index : Dict SnapshotEntry

pub data SnapshotError : Type 0 where
  listed_twice : String → SnapshotError

-- a > b, by code points
abbrev pub follows : String → String → Bool
follows a b = elim (compare a b) [ Ordering.gt ↦ true | _ ↦ false ]

-- sorted(entries, key=path), a stable sort
unfoldable pub insert_by_path : SnapshotEntry → List SnapshotEntry → List SnapshotEntry
insert_by_path e [] = e ∷ []
insert_by_path e (f ∷ fs) = if follows e.path f.path then f ∷ insert_by_path e fs else e ∷ f ∷ fs

unfoldable pub by_path : List SnapshotEntry → List SnapshotEntry
unfolding insert_by_path
by_path [] = []
by_path (e ∷ es) = insert_by_path e (by_path es)

-- the entries on top of what the index has
abbrev pub index_onto : Dict SnapshotEntry → List SnapshotEntry → Dict SnapshotEntry
index_onto d [] = d
index_onto d (e ∷ es) = index_onto (insert e.path e d) es

-- {entry.path: entry for entry in entries}
unfoldable pub index_of : List SnapshotEntry → Dict SnapshotEntry
index_of es = index_onto [] es

-- `__post_init__`
unfoldable pub make_snapshot :
    String → String → String → List SnapshotEntry → Result SnapshotError Snapshot
unfolding by_path index_of
make_snapshot root backend algorithm entries =
    let ordered = by_path entries in
    if not (length (index_of ordered) == length ordered)
    then err (listed_twice root)
    else ok (record {
      root = root;
      backend = backend;
      algorithm = algorithm;
      entries = ordered;
      index = index_of ordered;
    })

unfoldable pub entry_at : Snapshot → String → Option SnapshotEntry
entry_at s path = lookup path s.index

-- path in snapshot
unfoldable pub holds_path : Snapshot → String → Bool
holds_path s path = has_key path s.index

abbrev pub kept_entries : List String → List SnapshotEntry → List SnapshotEntry
kept_entries dropped [] = []
kept_entries dropped (e ∷ es) =
    let rest = kept_entries dropped es in if elem e.path dropped then rest else e ∷ rest

abbrev pub values : Dict SnapshotEntry → List SnapshotEntry
values [] = []
values ((path, e) ∷ d) = e ∷ values d

-- `merged`
unfoldable pub merged :
    Snapshot → List String → List SnapshotEntry → String → String → Result SnapshotError Snapshot
unfolding make_snapshot index_of
merged s removed added root backend =
    make_snapshot root backend s.algorithm
      (values (index_onto (index_of (kept_entries removed s.entries)) added))
