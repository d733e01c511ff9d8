-- ===== src/Integrity/Compare/Agreement.antt =====
-- integrity/detector.py: when two entries count as the same.
use file_automation.Base.{
  ℕ, String, eq_iff, false, Option, none, some, [], ==_iff, ◌≡◌, ◌↔◌, refl, arith,
}
use file_automation.Integrity.Compare.{
  SnapshotEntry, numbers_differ, texts_differ, content_differs, metadata_differences,
  compare_entries,
}

-- what both sides know is the same
abbrev pub AgreesOn : {A : Type 0} → Option A → Option A → Type 0
AgreesOn {A = A} o o' = (old new : A) → o ≡ some old → o' ≡ some new → old ≡ new

-- the contents, the metadata and the permissions agree as far as both snapshots know them
pub record Agrees (before after : SnapshotEntry) : Type 0 where
  pub checksum : before.checksum ≡ after.checksum
  pub size : AgreesOn before.size after.size
  pub modified_at : AgreesOn before.modified_at after.modified_at
  pub content_type : AgreesOn before.content_type after.content_type
  pub version : AgreesOn before.version after.version
  pub etag : AgreesOn before.etag after.etag
  pub mode : AgreesOn before.mode after.mode

numbers_differ-false :
    (o o' : Option ℕ)
    → (numbers_differ o o' ≡ false → AgreesOn o o') × (AgreesOn o o' → numbers_differ o o' ≡ false)
numbers_differ-false (some a) (some b) =
    (λ h x y e e'. ground (arith, ==_iff a b), λ h. ground (arith, ==_iff a b, h a b refl refl))
numbers_differ-false (some a) none = (λ h x y e e'. absurd (ground arith), λ h. refl)
numbers_differ-false none o' = (λ h x y e e'. absurd (ground arith), λ h. refl)

texts_differ-false :
    (o o' : Option String)
    → (texts_differ o o' ≡ false → AgreesOn o o') × (AgreesOn o o' → texts_differ o o' ≡ false)
texts_differ-false (some a) (some b) =
    (λ h x y e e'. ground (arith, eq_iff a b), λ h. ground (arith, eq_iff a b, h a b refl refl))
texts_differ-false (some a) none = (λ h x y e e'. absurd (ground arith), λ h. refl)
texts_differ-false none o' = (λ h x y e e'. absurd (ground arith), λ h. refl)

-- nothing differs
abbrev Same : SnapshotEntry → SnapshotEntry → Type 0
Same b a =
    (content_differs b a ≡ false)
    × (numbers_differ b.modified_at a.modified_at ≡ false)
    × (texts_differ b.content_type a.content_type ≡ false)
    × (texts_differ b.version a.version ≡ false)
    × (texts_differ b.etag a.etag ≡ false)
    × (numbers_differ b.mode a.mode ≡ false)

compare_entries-Same :
    (b a : SnapshotEntry)
    → (compare_entries b a ≡ [] → Same b a) × (Same b a → compare_entries b a ≡ [])
unfolding compare_entries metadata_differences
compare_entries-Same b a = (λ h. ground arith, λ h. ground arith)

-- Two entries of a file are reported as unchanged exactly when their checksums are the same and
-- their sizes, times, content types, versions, ETags and permission bits agree wherever both
-- snapshots know them.
pub compare_entries-eq-nil :
    (before after : SnapshotEntry) → (compare_entries before after ≡ []) ↔ Agrees before after
unfolding content_differs
compare_entries-eq-nil b a = (
  λ h.
      let (content, times, types, versions, tags, modes) = (compare_entries-Same b a).0 h in
      record {
        checksum = ground (arith, eq_iff b.checksum a.checksum);
        size = (numbers_differ-false b.size a.size).0 (ground arith);
        modified_at = (numbers_differ-false b.modified_at a.modified_at).0 times;
        content_type = (texts_differ-false b.content_type a.content_type).0 types;
        version = (texts_differ-false b.version a.version).0 versions;
        etag = (texts_differ-false b.etag a.etag).0 tags;
        mode = (numbers_differ-false b.mode a.mode).0 modes;
      },
  λ g. (compare_entries-Same b a).1 (
    ground (
      arith,
      eq_iff b.checksum a.checksum,
      g.checksum,
      (numbers_differ-false b.size a.size).1 g.size,
    ),
    (numbers_differ-false b.modified_at a.modified_at).1 g.modified_at,
    (texts_differ-false b.content_type a.content_type).1 g.content_type,
    (texts_differ-false b.version a.version).1 g.version,
    (texts_differ-false b.etag a.etag).1 g.etag,
    (numbers_differ-false b.mode a.mode).1 g.mode,
  ),
)
