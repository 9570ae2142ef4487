-- ===== src/Wal/Compaction.antt =====
-- `compact_raw_wal` of crates/mfs-store/src/store/wal.rs. The temporary segment is removed before it
-- is opened, so it starts without a file; the rename puts it in the place of the segment.
pub mod Newest
pub mod Keeps
pub mod Compact
use memory_first_store.Prelude.{
  ℕ, ◌+◌, Option, none, some, List, [], ◌∷◌, map, foldl, length, get_elem?, leb, if◌then◌else◌,
}
use memory_first_store.Prelude.Fail.{Result, ok, err, ◌>>=◌}
use memory_first_store.Errors.{StoreError}
use memory_first_store.Maps.{NamedKey, named_keyed, insert}
use memory_first_store.Wal.{RawWalRecord, Crc}
use memory_first_store.Wal.Scan.{read_records}
use memory_first_store.Wal.Writer.{RawWalSegmentWriter, open_writer, append_record_exact, sync_now}

pub record RawWalCompactionStats : Type 0 where
  pub records_before : ℕ
  pub records_after : ℕ
  pub last_lsn : ℕ

-- The loop that fills the map of the newest index of every key.
unfoldable pub newest : ℕ → List (NamedKey × ℕ) → List RawWalRecord → List (NamedKey × ℕ)
newest index m [] = m
newest index m (r ∷ rs) = newest (index + 1) (insert (r.collection, r.key) index m) rs

unfoldable pub insert_sorted : List ℕ → ℕ → List ℕ
insert_sorted [] n = n ∷ []
insert_sorted (x ∷ xs) n = let more = insert_sorted xs n in if leb n x then n ∷ x ∷ xs else x ∷ more

-- `sort_unstable`
abbrev pub sort : List ℕ → List ℕ
sort xs = foldl insert_sorted [] xs

unfoldable pub retained : List RawWalRecord → List ℕ
retained records = sort (map (λ e. e.1) (newest 0 [] records))

-- `records[index]`, which panics out of range.
unfoldable pub record_at : List RawWalRecord → ℕ → Result StoreError RawWalRecord
record_at records index = elim (get_elem? records index) [
  | none ↦ err StoreError.stuck
  | some r ↦ ok r
]

-- `slice::last`
unfoldable pub last : List ℕ → Option ℕ
last [] = none
last (i ∷ []) = some i
last (i ∷ j ∷ is) = last (j ∷ is)

unfoldable pub retained_lsn : List RawWalRecord → List ℕ → Result StoreError ℕ
retained_lsn records is = elim (last is) [
  | none ↦ ok 0
  | some i ↦ do r ← record_at records i; ok r.lsn
]

module _ (c : Crc) where
  unfoldable pub append_each :
      List RawWalRecord → List ℕ → RawWalSegmentWriter → Result StoreError RawWalSegmentWriter
  append_each records [] w = ok w
  append_each records (i ∷ is) w = do
    r ← record_at records i
    let (w', done) = append_record_exact c r w
    u ← done
    append_each records is w'

  unfoldable pub compact_raw_wal :
      Option (List ℕ) → Result StoreError (RawWalCompactionStats × Option (List ℕ))
  compact_raw_wal none = ok (record { records_before = 0; records_after = 0; last_lsn = 0 }, none)
  compact_raw_wal (some bs) = do
    records ← read_records c (some bs)
    writer ← open_writer c none
    written ← append_each records (retained records) writer
    last_lsn ← retained_lsn records (retained records)
    ok (
      record {
        records_before = length records;
        records_after = length (retained records);
        last_lsn = last_lsn;
      },
      some (sync_now written).file,
    )
