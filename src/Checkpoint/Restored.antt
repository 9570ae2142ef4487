-- ===== src/Checkpoint/Restored.antt =====
-- A store that is restored from a snapshot of another one (crates/mfs-store/src/store/raw.rs).
use memory_first_store.Prelude.{
  ℕ, suc, ◌≡◌, ◌∙◌, refl, ap, Option, none, some, List, [], ◌∷◌, length, map, All, Bool-cases, inl,
  inr,
}
use memory_first_store.Maps.{NamedKey, bytes_keyed, bytes_same, lookup}
use memory_first_store.Maps.Distinct.{IsDistinct}
use memory_first_store.Maps.Sorting.{
  pair, length-sort_by, All-sort_by, lookup-sort_by, sort_by-IsDistinct,
}
use memory_first_store.Store.{RawRecord, RawCollection, MfsStore}
use memory_first_store.Store.Table.{ConcurrentMap, is_some}
use memory_first_store.Store.Entries.{entry, record_in}
use memory_first_store.Checkpoint.{RawSnapshotRecord, RawCollectionSnapshot, RawStoreSnapshot}
use memory_first_store.Checkpoint.Snapshot.{
  record_key, snapshot_name, snapshot_record, snapshot_records, snapshot_collection, raw_snapshot,
}

-- What a snapshot says of a key.
abbrev pub record_of : RawSnapshotRecord → RawRecord
record_of r = record { value = r.value; version = r.version }

abbrev pub records_map : List RawSnapshotRecord → List (List ℕ × RawRecord)
records_map rs = map (pair record_key record_of) rs

abbrev snapshot_records_of : RawCollectionSnapshot → List RawSnapshotRecord
snapshot_records_of c = c.records

abbrev pub names_map : List RawCollectionSnapshot → List (List ℕ × List RawSnapshotRecord)
names_map cs = map (pair snapshot_name snapshot_records_of) cs

abbrev pub find_in : List ℕ → Option (List RawSnapshotRecord) → Option RawRecord
find_in key none = none
find_in key (some rs) = lookup key (records_map rs)

-- The record that a snapshot has for a collection and a key.
abbrev pub snapshot_entry : NamedKey → RawStoreSnapshot → Option RawRecord
snapshot_entry k snapshot = find_in k.1 (lookup k.0 (names_map snapshot.collections))

-- Names and keys occur once.
abbrev pub DistinctRecords : RawCollectionSnapshot → Type 0
DistinctRecords c = IsDistinct (records_map c.records)

abbrev pub DistinctSnapshot : RawStoreSnapshot → Type 0
DistinctSnapshot snapshot =
    IsDistinct (names_map snapshot.collections) × All DistinctRecords snapshot.collections

-- Packing the entries of a table and reading them as keys and values again.
records_map-entries : (m : List (List ℕ × RawRecord)) → records_map (map snapshot_record m) ≡ m
records_map-entries [] = refl
records_map-entries (x ∷ m) = ap (◌∷◌ x) (records_map-entries m)

module _ (t : ConcurrentMap RawRecord) where
  lookup-snapshot_records :
      (key : List ℕ) (col : RawCollection t.Table)
      → lookup key (records_map (snapshot_records t col)) ≡ t.get key col.records
  unfolding snapshot_records
  lookup-snapshot_records key col =
      lookup-sort_by record_key record_of key (map snapshot_record (t.entries col.records))
      ∙ rw (records_map-entries (t.entries col.records)) (t.lookup-entries key col.records)

  find_in-snapshot :
      (k : NamedKey) (cs : List (List ℕ × RawCollection t.Table))
      → find_in k.1 (lookup k.0 (names_map (map (snapshot_collection t) cs)))
        ≡ record_in t k.1 (lookup k.0 cs)
  unfolding lookup
  find_in-snapshot k [] = refl
  find_in-snapshot k (x ∷ cs) = elim (Bool-cases (bytes_same x.0 k.0)) [
    | inl here ↦ rw here (lookup-snapshot_records k.1 x.1)
    | inr other ↦ rw other (find_in-snapshot k cs)
  ]

  -- A snapshot says of every key what the store has.
  pub snapshot_entry-raw_snapshot :
      (k : NamedKey) (s : MfsStore t.Table) → snapshot_entry k (raw_snapshot t s) ≡ entry t k s
  unfolding raw_snapshot
  snapshot_entry-raw_snapshot k s =
      ap (find_in k.1) (
        lookup-sort_by snapshot_name snapshot_records_of k.0
          (map (snapshot_collection t) s.collections))
      ∙ find_in-snapshot k s.collections

  names-IsDistinct :
      (cs : List (List ℕ × RawCollection t.Table))
      → IsDistinct cs
      → IsDistinct (names_map (map (snapshot_collection t) cs))
  unfolding lookup
  names-IsDistinct [] h = tt
  names-IsDistinct (x ∷ cs) h = (missing cs h.0, names-IsDistinct cs h.1)
    where
      missing :
          (m : List (List ℕ × RawCollection t.Table))
          → lookup x.0 m ≡ none
          → lookup x.0 (names_map (map (snapshot_collection t) m)) ≡ none
      missing [] e = refl
      missing (y ∷ m) e = elim (Bool-cases (bytes_same y.0 x.0)) [
        | inl here ↦ cc (rw here at e)
        | inr other ↦ rw other (missing m (rw other at e))
      ]

  records-IsDistinct :
      (cs : List (List ℕ × RawCollection t.Table))
      → All DistinctRecords (map (snapshot_collection t) cs)
  unfolding snapshot_records
  records-IsDistinct [] = tt
  records-IsDistinct ((name, col) ∷ cs) = (
    sort_by-IsDistinct record_key record_of (map snapshot_record (t.entries col.records))
        (rw (records_map-entries (t.entries col.records)) (t.entries-IsDistinct col.records)),
    records-IsDistinct cs,
  )

  pub raw_snapshot-DistinctSnapshot :
      (s : MfsStore t.Table) → IsDistinct s.collections → DistinctSnapshot (raw_snapshot t s)
  unfolding raw_snapshot
  raw_snapshot-DistinctSnapshot s h = (
    sort_by-IsDistinct snapshot_name snapshot_records_of (map (snapshot_collection t) s.collections)
        (names-IsDistinct s.collections h),
    All-sort_by snapshot_name DistinctRecords (map (snapshot_collection t) s.collections)
        (records-IsDistinct s.collections),
  )

  pub length-raw_snapshot :
      (s : MfsStore t.Table) → length (raw_snapshot t s).collections ≡ length s.collections
  unfolding raw_snapshot
  length-raw_snapshot s =
      length-sort_by snapshot_name (map (snapshot_collection t) s.collections)
      ∙ mapped s.collections
    where
      mapped :
          (cs : List (List ℕ × RawCollection t.Table))
          → length (map (snapshot_collection t) cs) ≡ length cs
      mapped [] = refl
      mapped (c ∷ cs) = ap suc (mapped cs)

  pub names-raw_snapshot :
      (name : List ℕ) (s : MfsStore t.Table)
      → is_some (lookup name (names_map (raw_snapshot t s).collections))
        ≡ is_some (lookup name s.collections)
  unfolding raw_snapshot lookup
  names-raw_snapshot name s =
      ap is_some (
        lookup-sort_by snapshot_name snapshot_records_of name
          (map (snapshot_collection t) s.collections))
      ∙ mapped s.collections
    where
      mapped :
          (cs : List (List ℕ × RawCollection t.Table))
          → is_some (lookup name (names_map (map (snapshot_collection t) cs)))
            ≡ is_some (lookup name cs)
      mapped [] = refl
      mapped (c ∷ cs) = elim (Bool-cases (bytes_same c.0 name)) [
        | inl here ↦ rw here
        | inr other ↦ rw other (mapped cs)
      ]
