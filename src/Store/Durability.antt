-- ===== src/Store/Durability.antt =====
-- `StoreDurability` of crates/mfs-store/src/store/raw.rs: the store's side of the log.
use memory_first_store.Prelude.{ℕ, Bool, true, false, not, Option, none, some, List, if◌then◌else◌}
use memory_first_store.Prelude.Fail.{Result, ok, err}
use memory_first_store.Errors.{StoreError, ConfigField}
use memory_first_store.Wal.{Crc}
use memory_first_store.Wal.Writer.{
  RawWalSegmentWriter, open_writer, append_put_versioned, append_delete_versioned, sync_now,
}
use memory_first_store.Wal.Compaction.{RawWalCompactionStats, compact_raw_wal}
use memory_first_store.Store.{DurabilityMode, WriteAcknowledgement, MfsStoreConfig, StoreDurability}

-- `StoreDurability::new`, with what the file at the path holds.
unfoldable pub new_durability : MfsStoreConfig → Option (List ℕ) → StoreDurability
new_durability config file = record {
  wal_path = config.wal_path;
  wal = none;
  wal_dirty = false;
  file = file;
}

-- The durability with a writer in use.
abbrev pub with_writer : RawWalSegmentWriter → Bool → StoreDurability → StoreDurability
with_writer w dirty d = record d { wal = some w; wal_dirty = dirty; file = some w.file }

module _ (c : Crc) where
  -- The open writer, or one that is opened now.
  unfoldable pub writer_of : StoreDurability → Result StoreError RawWalSegmentWriter
  writer_of d = elim d.wal [
    | some w ↦ ok w
    | none ↦ elim d.wal_path [
      | none ↦ err (StoreError.invalid_config ConfigField.wal_path)
      | some path ↦ open_writer c d.file
    ]
  ]

  unfoldable pub append_value :
      List ℕ
      → List ℕ
      → Option (List ℕ)
      → ℕ
      → RawWalSegmentWriter
      → RawWalSegmentWriter × Result StoreError ℕ
  append_value collection key none version w = append_delete_versioned c collection key version w
  append_value collection key (some value) version w =
      append_put_versioned c collection key value version w

  unfoldable pub append_raw_wal :
      List ℕ
      → List ℕ
      → Option (List ℕ)
      → ℕ
      → Bool
      → StoreDurability
      → StoreDurability × Result StoreError ℕ
  append_raw_wal collection key value version sync d = elim (writer_of d) [
    | err e ↦ (d, err e)
    | ok w ↦
        let (w', appended) = append_value collection key value version w in
        elim appended [
          | err e ↦ (with_writer w' d.wal_dirty d, err e)
          | ok lsn ↦ (with_writer (if sync then sync_now w' else w') (not sync) d, ok lsn)
        ]
  ]

  -- The acknowledgement of a write that is appended.
  abbrev pub appended_as :
      (ℕ → WriteAcknowledgement)
      → StoreDurability × Result StoreError ℕ
      → StoreDurability × Result StoreError WriteAcknowledgement
  appended_as wrap (d, err e) = (d, err e)
  appended_as wrap (d, ok lsn) = (d, ok (wrap lsn))

  unfoldable pub acknowledge_write :
      DurabilityMode
      → List ℕ
      → List ℕ
      → Option (List ℕ)
      → ℕ
      → StoreDurability
      → StoreDurability × Result StoreError WriteAcknowledgement
  acknowledge_write DurabilityMode.memory_only collection key value version d =
      (d, ok WriteAcknowledgement.memory_only)
  acknowledge_write DurabilityMode.snapshot_only collection key value version d =
      (d, ok WriteAcknowledgement.snapshot_only)
  acknowledge_write DurabilityMode.wal_async collection key value version d =
      appended_as WriteAcknowledgement.wal_buffered
        (append_raw_wal collection key value version false d)
  acknowledge_write DurabilityMode.wal_group_commit collection key value version d =
      appended_as WriteAcknowledgement.wal_group_committed
        (append_raw_wal collection key value version true d)
  acknowledge_write DurabilityMode.wal_sync collection key value version d =
      appended_as WriteAcknowledgement.wal_synced
        (append_raw_wal collection key value version true d)

  unfoldable pub sync_wal : StoreDurability → StoreDurability × Result StoreError (Unit {0})
  sync_wal d = if not d.wal_dirty then (d, ok tt) else elim d.wal [
    | some w ↦ (with_writer (sync_now w) false d, ok tt)
    | none ↦ elim d.wal_path [
      | none ↦ (d, ok tt)
      | some path ↦ elim d.file [
        | none ↦ (d, ok tt)
        | some bs ↦ elim (open_writer c (some bs)) [
          | err e ↦ (d, err e)
          | ok w ↦ (with_writer (sync_now w) false d, ok tt)
        ]
      ]
    ]
  ]

  -- What `compact_wal` leaves before it compacts: the writer is closed, all that it had is in the
  -- file.
  abbrev pub closed : StoreDurability → StoreDurability
  closed d = record d {
    wal = none;
    wal_dirty = false;
    file = elim d.wal [ some w ↦ some (sync_now w).file | none ↦ d.file ];
  }

  unfoldable pub compact_wal :
      StoreDurability → StoreDurability × Result StoreError (Option RawWalCompactionStats)
  compact_wal d = elim d.wal_path [
    | none ↦ (d, ok none)
    | some path ↦ elim (closed d).file [
      | none ↦ (closed d, ok none)
      | some bs ↦ elim (compact_raw_wal c (some bs)) [
        | err e ↦ (closed d, err e)
        | ok compacted ↦
            let d' = record (closed d) { file = compacted.1 } in
            elim (open_writer c compacted.1) [
              | err e ↦ (d', err e)
              | ok w ↦ (with_writer w false d', ok (some compacted.0))
            ]
      ]
    ]
  ]
