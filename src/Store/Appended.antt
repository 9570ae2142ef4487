-- ===== src/Store/Appended.antt =====
-- A write of the raw store that goes to the log, step by step: the append, the acknowledgement and
-- the insert (crates/mfs-store/src/store/raw.rs).
use memory_first_store.Prelude.{
  ℕ, ◌+◌, ◌<◌, ◌≡◌, refl, Bool, true, false, not, Option, none, some, List, [], ◌∷◌, ◌++◌,
  append-nil, Bool-cases, inl, inr,
}
use memory_first_store.Prelude.Fail.{ok}
use memory_first_store.Maps.{bytes_keyed, named_keyed}
use memory_first_store.Wal.{Operation, RawWalRecord, Crc}
use memory_first_store.Wal.Frames.{FitsFrame}
use memory_first_store.Wal.Writer.{
  RawWalSegmentWriter, written, append_put_versioned, append_delete_versioned, flush, sync_now,
  u64_max,
}
use memory_first_store.Wal.Reopen.{Holds, last_lsn}
use memory_first_store.Wal.Append.{record_of, append_record-Holds}
use memory_first_store.Store.{
  DurabilityMode, WriteAcknowledgement, RawRecord, RawCollection, RawWriteContext, StoreDurability,
  effective_durability, ack_lsn,
}
use memory_first_store.Store.Table.{ConcurrentMap, is_some}
use memory_first_store.Store.Durability.{
  writer_of, with_writer, append_value, append_raw_wal, acknowledge_write,
}
use memory_first_store.Store.Collection.{
  admit, write_with_hooks, version_of, value_of, next_version, counted,
}
use memory_first_store.Store.Raw.{is_wal_mode, no_preflight}

abbrev pub op_of : Option (List ℕ) → Operation
op_of none = Operation.delete
op_of (some value) = Operation.put

-- The modes that sync before they acknowledge.
abbrev pub syncs : DurabilityMode → Bool
syncs DurabilityMode.wal_sync = true
syncs DurabilityMode.wal_group_commit = true
syncs _ = false

abbrev pub ack_of : DurabilityMode → ℕ → WriteAcknowledgement
ack_of DurabilityMode.memory_only lsn = WriteAcknowledgement.memory_only
ack_of DurabilityMode.snapshot_only lsn = WriteAcknowledgement.snapshot_only
ack_of DurabilityMode.wal_async lsn = WriteAcknowledgement.wal_buffered lsn
ack_of DurabilityMode.wal_group_commit lsn = WriteAcknowledgement.wal_group_committed lsn
ack_of DurabilityMode.wal_sync lsn = WriteAcknowledgement.wal_synced lsn

pub ack_lsn-ack_of :
    (mode : DurabilityMode) (lsn : ℕ)
    → is_wal_mode mode ≡ true
    → ack_lsn (ack_of mode lsn) ≡ some lsn
unfolding is_wal_mode ack_lsn
ack_lsn-ack_of DurabilityMode.memory_only lsn h = cc
ack_lsn-ack_of DurabilityMode.snapshot_only lsn h = cc
ack_lsn-ack_of DurabilityMode.wal_async lsn h = refl
ack_lsn-ack_of DurabilityMode.wal_group_commit lsn h = refl
ack_lsn-ack_of DurabilityMode.wal_sync lsn h = refl

module _ (c : Crc) where
  sync_now-Holds :
      (w : RawWalSegmentWriter) (rs : List RawWalRecord) → Holds c w rs → Holds c (sync_now w) rs
  unfolding sync_now flush
  sync_now-Holds w rs h = record {
    frames = rw (append-nil, h.frames);
    fits = h.fits;
    ascending = h.ascending;
    next = h.next;
  }

  append_value-Holds :
      (w : RawWalSegmentWriter) (rs : List RawWalRecord) (collection key : List ℕ)
      (value : Option (List ℕ)) (version : ℕ)
      → Holds c w rs
      → FitsFrame (record_of collection (op_of value) key value version w)
      → last_lsn 0 rs < u64_max
      → (w' : RawWalSegmentWriter) × (append_value c collection key value version w
          ≡ (w', ok (last_lsn 0 rs + 1)))
        × Holds c w' (rs ++ record_of collection (op_of value) key value version w ∷ [])
  unfolding append_value append_put_versioned append_delete_versioned
  append_value-Holds w rs collection key none version h fits room =
      let (w', e, holds, _) =
        append_record-Holds c w rs collection Operation.delete key none version false h fits room in
      (w', e, holds)
  append_value-Holds w rs collection key (some value) version h fits room =
      let (w', e, holds, _) =
        append_record-Holds c w rs collection Operation.put key (some value) version false h fits
          room in
      (w', e, holds)

  -- An append through the store, with or without a sync.
  append_raw_wal-Holds :
      (d : StoreDurability) (w : RawWalSegmentWriter) (rs : List RawWalRecord)
      (collection key : List ℕ) (value : Option (List ℕ)) (version : ℕ) (sync : Bool)
      → writer_of c d ≡ ok w
      → Holds c w rs
      → FitsFrame (record_of collection (op_of value) key value version w)
      → last_lsn 0 rs < u64_max
      → (w' : RawWalSegmentWriter) × (append_raw_wal c collection key value version sync d
          ≡ (with_writer w' (not sync) d, ok (last_lsn 0 rs + 1)))
        × Holds c w' (rs ++ record_of collection (op_of value) key value version w ∷ [])
        × (sync ≡ true → written w' ≡ w'.file)
  unfolding append_raw_wal sync_now flush
  append_raw_wal-Holds d w rs collection key value version true opened h fits room =
      let (w', e, holds) = append_value-Holds w rs collection key value version h fits room in
      (
        sync_now w',
        rw (opened, append_raw_wal, e, e),
        sync_now-Holds w' _ holds,
        λ s. append-nil (w'.file ++ w'.buffer),
      )
  append_raw_wal-Holds d w rs collection key value version false opened h fits room =
      let (w', e, holds) = append_value-Holds w rs collection key value version h fits room in
      (w', rw (opened, append_raw_wal, e, e), holds, λ s. cc)

  -- A write in a mode that uses the log is appended before it is acknowledged.
  pub acknowledge_write-Holds :
      (mode : DurabilityMode) (d : StoreDurability) (w : RawWalSegmentWriter)
      (rs : List RawWalRecord) (collection key : List ℕ) (value : Option (List ℕ)) (version : ℕ)
      → is_wal_mode mode ≡ true
      → writer_of c d ≡ ok w
      → Holds c w rs
      → FitsFrame (record_of collection (op_of value) key value version w)
      → last_lsn 0 rs < u64_max
      → (w' : RawWalSegmentWriter) × (acknowledge_write c mode collection key value version d
          ≡ (with_writer w' (not (syncs mode)) d, ok (ack_of mode (last_lsn 0 rs + 1))))
        × Holds c w' (rs ++ record_of collection (op_of value) key value version w ∷ [])
        × (syncs mode ≡ true → written w' ≡ w'.file)
  unfolding acknowledge_write is_wal_mode
  acknowledge_write-Holds DurabilityMode.memory_only d w rs collection key value version m opened h
        fits room =
      cc
  acknowledge_write-Holds DurabilityMode.snapshot_only d w rs collection key value version m opened
        h fits room =
      cc
  acknowledge_write-Holds DurabilityMode.wal_async d w rs collection key value version m opened h
        fits room =
      let (w', e, holds, synced) =
        append_raw_wal-Holds d w rs collection key value version false opened h fits room in
      (w', rw e, holds, synced)
  acknowledge_write-Holds DurabilityMode.wal_group_commit d w rs collection key value version m
        opened h fits room =
      let (w', e, holds, synced) =
        append_raw_wal-Holds d w rs collection key value version true opened h fits room in
      (w', rw e, holds, synced)
  acknowledge_write-Holds DurabilityMode.wal_sync d w rs collection key value version m opened h
        fits room =
      let (w', e, holds, synced) =
        append_raw_wal-Holds d w rs collection key value version true opened h fits room in
      (w', rw e, holds, synced)

  module _ (t : ConcurrentMap RawRecord) where
    -- A write that is admitted, acknowledged and taken by the table.
    pub write_with_hooks-ok :
        (key : List ℕ) (value : Option (List ℕ)) (context : RawWriteContext)
        (d d' : StoreDurability) (col : RawCollection t.Table) (old : Option RawRecord)
        (ack : WriteAcknowledgement)
        → t.get key col.records ≡ old
        → admit t no_preflight key context col ≡ ok tt
        → t.can_insert_or_replace key col.records ≡ true
        → acknowledge_write c
            (effective_durability context.options context.default_durability)
            context.collection
            key
            value
            (next_version (version_of old))
            d
          ≡ (d', ok ack)
        → write_with_hooks t no_preflight c key value context d col ≡ (
          (
            d',
            counted t
                (is_some value)
                (is_some (value_of old))
                (t.insert key
                  (record { value = value; version = next_version (version_of old) })
                  col.records).0
                col,
          ),
          ok (record {
            version = next_version (version_of old);
            lsn = ack_lsn ack;
            acknowledgement = ack;
          }),
        )
    unfolding write_with_hooks
    write_with_hooks-ok key value context d d' col old ack known admitted room acked =
        let r : RawRecord = record { value = value; version = next_version (version_of old) } in
        rw (admitted, write_with_hooks, known, acked, known, t.insert-fits key r col.records room)
          (elim (Bool-cases (is_some (t.get key col.records))) [
            | inl there ↦ rw (there, known, acked)
            | inr new ↦ rw (new, known, acked)
          ])
