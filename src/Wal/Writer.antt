-- ===== src/Wal/Writer.antt =====
-- `RawWalSegmentWriter` of crates/mfs-store/src/store/wal.rs. Writing to the file is assumed not to
-- fail. `file` is what the operating system has, `buffer` what the `BufWriter` still holds; the
-- model flushes only where the code does.
use memory_first_store.Prelude.{
  ℕ, ◌+◌, ◌-◌, ◌%◌, ◌^◌, min, max, Bool, true, false, Option, none, some, List, [], ◌++◌, length,
  take, ltb, if◌then◌else◌,
}
use memory_first_store.Prelude.Fail.{Result, ok, err, ◌>>=◌}
use memory_first_store.Errors.{StoreError}
use memory_first_store.Maps.{NamedKey, named_keyed, lookup, insert}
use memory_first_store.Wal.{Operation, RawWalRecord, Crc}
use memory_first_store.Wal.Encode.{emit_encoded}
use memory_first_store.Wal.Scan.{scan_records_with_offsets}

abbrev pub Versions : Type 0
Versions = List (NamedKey × ℕ)

pub record RawWalSegmentWriter : Type 0 where
  pub file : List ℕ
  pub buffer : List ℕ
  pub next_lsn : ℕ
  pub record_versions : Versions

pub record RawWalAppendState : Type 0 where
  pub next_lsn : ℕ
  pub last_good_offset : ℕ
  pub record_versions : Versions

abbrev pub u64_max : ℕ
u64_max = 2 ^ 64 - 1

abbrev pub saturating_add_one : ℕ → ℕ
saturating_add_one n = min (n + 1) u64_max

-- The variables that the callback of `append_state_for_path` writes.
pub record Seen : Type 0 where
  pub last_lsn : ℕ
  pub record_versions : Versions

unfoldable pub see : Seen → RawWalRecord → Result StoreError Seen
see s r = ok (record {
  last_lsn = r.lsn;
  record_versions = insert (r.collection, r.key) r.version s.record_versions;
})

abbrev pub nothing_seen : Seen
nothing_seen = record { last_lsn = 0; record_versions = [] }

-- The version that follows the one on record, as a `u64`.
unfoldable pub next_record_version : List ℕ → List ℕ → RawWalSegmentWriter → ℕ
next_record_version collection key w = elim (lookup (collection, key) w.record_versions) [
  | none ↦ 1
  | some current ↦ (current + 1) % 2 ^ 64
]

module _ (c : Crc) where
  unfoldable pub append_state_for_path : Option (List ℕ) → Result StoreError RawWalAppendState
  append_state_for_path none =
      ok (record { next_lsn = 1; last_good_offset = 0; record_versions = [] })
  append_state_for_path (some bs) = do
    (scan, seen) ← scan_records_with_offsets c see nothing_seen (some bs)
    ok (record {
      next_lsn = max (saturating_add_one seen.last_lsn) 1;
      last_good_offset = scan.last_good_offset;
      record_versions = seen.record_versions;
    })

  -- The file that `create(true)` opens.
  abbrev pub content : Option (List ℕ) → List ℕ
  content none = []
  content (some bs) = bs

  -- A torn tail is cut off.
  unfoldable pub open_writer : Option (List ℕ) → Result StoreError RawWalSegmentWriter
  open_writer file = do
    state ← append_state_for_path file
    let bs = content file
    ok (record {
      file = if ltb state.last_good_offset (length bs) then take state.last_good_offset bs else bs;
      buffer = [];
      next_lsn = state.next_lsn;
      record_versions = state.record_versions;
    })

  unfoldable pub append_record :
      List ℕ
      → Operation
      → List ℕ
      → Option (List ℕ)
      → ℕ
      → Bool
      → RawWalSegmentWriter
      → RawWalSegmentWriter × Result StoreError ℕ
  append_record collection op key value version track_version w =
      let lsn = w.next_lsn in
      let w' = record w { next_lsn = saturating_add_one w.next_lsn } in
      let r : RawWalRecord = record {
        lsn = lsn;
        version = version;
        collection = collection;
        op = op;
        key = key;
        value = value;
      } in
      elim (emit_encoded c r) [
        | err e ↦ (w', err e)
        | ok bs ↦ (
          record w' {
            buffer = w.buffer ++ bs;
            record_versions =
                if track_version
                then insert (collection, key) version w.record_versions
                else w.record_versions;
          },
          ok lsn,
        )
      ]

  unfoldable pub append_put :
      List ℕ → List ℕ → List ℕ → RawWalSegmentWriter → RawWalSegmentWriter × Result StoreError ℕ
  append_put collection key value w =
      append_record collection Operation.put key (some value) (next_record_version collection key w)
        true w

  unfoldable pub append_delete :
      List ℕ → List ℕ → RawWalSegmentWriter → RawWalSegmentWriter × Result StoreError ℕ
  append_delete collection key w =
      append_record collection Operation.delete key none (next_record_version collection key w) true
        w

  unfoldable pub append_put_versioned :
      List ℕ → List ℕ → List ℕ → ℕ → RawWalSegmentWriter → RawWalSegmentWriter × Result StoreError ℕ
  append_put_versioned collection key value version w =
      append_record collection Operation.put key (some value) version false w

  unfoldable pub append_delete_versioned :
      List ℕ → List ℕ → ℕ → RawWalSegmentWriter → RawWalSegmentWriter × Result StoreError ℕ
  append_delete_versioned collection key version w =
      append_record collection Operation.delete key none version false w

  -- Used by the compaction: the record keeps its LSN and version.
  unfoldable pub append_record_exact :
      RawWalRecord → RawWalSegmentWriter → RawWalSegmentWriter × Result StoreError (Unit {0})
  append_record_exact r w =
      let w' = record w { next_lsn = max w.next_lsn (saturating_add_one r.lsn) } in
      elim (emit_encoded c r) [
        | err e ↦ (w', err e)
        | ok bs ↦ (
          record w' {
            buffer = w.buffer ++ bs;
            record_versions = insert (r.collection, r.key) r.version w.record_versions;
          },
          ok tt,
        )
      ]

unfoldable pub flush : RawWalSegmentWriter → RawWalSegmentWriter
flush w = record w { file = w.file ++ w.buffer; buffer = [] }

-- `sync_data` asks the operating system to keep what the file has.
unfoldable pub sync_now : RawWalSegmentWriter → RawWalSegmentWriter
unfolding flush
sync_now w = flush w

-- All that was handed to the writer.
abbrev pub written : RawWalSegmentWriter → List ℕ
written w = w.file ++ w.buffer
