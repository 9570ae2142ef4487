-- ===== src/Store/Replay.antt =====
-- Replaying the log into a store: `apply_raw_record` and the readers around it in
-- crates/mfs-store/src/store/wal.rs, and `apply_raw_replay_record` of
-- crates/mfs-store/src/store/raw.rs without schema indexes.
use memory_first_store.Prelude.{[], ◌∷◌, ℕ, ◌+◌, Option, none, some, List, ltb, if◌then◌else◌}
use memory_first_store.Prelude.Fail.{Result, ok, err, ◌>>=◌}
use memory_first_store.Errors.{StoreError, WalCorruptionKind}
use memory_first_store.Maps.{bytes_keyed, insert}
use memory_first_store.Wal.{Operation, RawWalRecord, Crc}
use memory_first_store.Wal.Encode.{corrupt}
use memory_first_store.Wal.Scan.{RawWalReplayStats, no_records, scan_records_with_offsets}
use memory_first_store.Store.{RawRecord, MfsStore}
use memory_first_store.Store.Table.{ConcurrentMap}
use memory_first_store.Store.Collection.{insert_replay_record_locked}
use memory_first_store.Store.Raw.{create_raw_collection, raw_collection, get_raw}

-- The key `__mfs_collection_probe__`.
abbrev probe : List ℕ
probe =
    b'_' ∷ b'_' ∷ b'm' ∷ b'f' ∷ b's' ∷ b'_' ∷ b'c' ∷ b'o' ∷ b'l' ∷ b'l' ∷ b'e' ∷ b'c' ∷ b't' ∷ b'i'
    ∷ b'o' ∷ b'n' ∷ b'_' ∷ b'p' ∷ b'r' ∷ b'o' ∷ b'b' ∷ b'e' ∷ b'_' ∷ b'_' ∷ []

module _ (t : ConcurrentMap RawRecord) where
  unfoldable pub apply_raw_replay_record :
      List ℕ
      → List ℕ
      → Option (List ℕ)
      → ℕ
      → MfsStore t.Table
      → Result StoreError (MfsStore t.Table)
  apply_raw_replay_record collection key value version s = do
    col ← raw_collection t collection s
    col' ← insert_replay_record_locked t collection key value version col
    ok (record s { collections = insert collection col' s.collections })

  unfoldable pub ensure_raw_collection :
      List ℕ → MfsStore t.Table → Result StoreError (MfsStore t.Table)
  ensure_raw_collection collection s = elim (create_raw_collection t collection s) [
    | ok made ↦ ok made.0
    | err e ↦ elim e [
      | StoreError.collection_already_exists name ↦ ok s
      | StoreError.collection_limit_exceeded n ↦ elim (get_raw t collection probe s) [
        | ok found ↦ ok s
        | err why ↦ err (StoreError.collection_limit_exceeded s.config.max_collections)
      ]
      | other ↦ err other
    ]
  ]

  -- The value that a record of the log applies: a put without one is malformed.
  unfoldable pub replayed_value : RawWalRecord → Result StoreError (Option (List ℕ))
  replayed_value r = elim r.op [
    | Operation.delete ↦ ok none
    | Operation.put ↦ elim r.value [
      | none ↦ err (corrupt r.lsn WalCorruptionKind.malformed_record)
      | some value ↦ ok (some value)
    ]
  ]

  unfoldable pub apply_raw_record :
      MfsStore t.Table → RawWalRecord → Result StoreError (MfsStore t.Table)
  apply_raw_record s r = do
    s' ← ensure_raw_collection r.collection s
    value ← replayed_value r
    apply_raw_replay_record r.collection r.key value r.version s'

  -- The engine and the statistics, which the callback of the scan writes.
  abbrev pub Replayed : Type 0
  Replayed = MfsStore t.Table × RawWalReplayStats

  unfoldable pub replay_record : Replayed → RawWalRecord → Result StoreError Replayed
  replay_record (s, stats) r = do
    s' ← apply_raw_record s r
    ok (s', record { records = stats.records + 1; last_lsn = r.lsn })

  unfoldable pub replay_record_after : ℕ → Replayed → RawWalRecord → Result StoreError Replayed
  replay_record_after after_lsn state r =
      if ltb after_lsn r.lsn then replay_record state r else ok state

  module _ (c : Crc) where
    unfoldable pub replay_into : Option (List ℕ) → MfsStore t.Table → Result StoreError Replayed
    replay_into file s = do
      (scan, replayed) ← scan_records_with_offsets c replay_record (s, no_records.stats) file
      ok replayed

    unfoldable pub replay_after :
        Option (List ℕ) → MfsStore t.Table → ℕ → Result StoreError Replayed
    replay_after file s after_lsn = do
      (scan, replayed) ←
          scan_records_with_offsets c (replay_record_after after_lsn) (s, no_records.stats) file
      ok replayed
