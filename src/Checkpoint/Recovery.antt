-- ===== src/Checkpoint/Recovery.antt =====
-- Recovery from a checkpoint and the log behind it (`recover_raw_checkpoint_then_wal` of
-- crates/mfs-store/src/store/checkpoint.rs).
use memory_first_store.Prelude.{
  ℕ, ◌≤◌, ◌≡◌, ◌∙◌, refl, sym, take_of_length-le, ap, Option, none, some, List, [], ◌∷◌, ◌++◌,
  arith, length, take, All, All-map, ltb, Bool-cases, inl, inr, ◌⊎◌,
}
use memory_first_store.Prelude.Fail.{ok, err, ◌>>=◌}
use memory_first_store.Errors.{StoreError}
use memory_first_store.Maps.{NamedKey, bytes_keyed, insert}
use memory_first_store.Maps.Distinct.{IsDistinct}
use memory_first_store.Wal.{RawWalRecord, Crc}
use memory_first_store.Wal.Scan.{RawWalReplayStats, no_records}
use memory_first_store.Wal.Frames.{FitsFrame}
use memory_first_store.Wal.Crash.{
  whole_records-all, emit_all, IsAscendingFrom, whole_records, call_each,
  scan_records_with_offsets-cut,
}
use memory_first_store.Wal.Reopen.{last_lsn, All-whole_records}
use memory_first_store.Wal.Whole.{length-emit_all}
use memory_first_store.Store.Logged.{Logged}
use memory_first_store.Store.{RawRecord, MfsStore, MfsStoreConfig}
use memory_first_store.Store.Table.{ConcurrentMap}
use memory_first_store.Store.Raw.{validate_store_config}
use memory_first_store.Store.Replay.{Replayed, replay_record, replay_record_after, replay_after}
use memory_first_store.Store.Entries.{entry}
use memory_first_store.Store.Applied.{last_record, call_each-replay_record}
use memory_first_store.Store.Recovery.{HasCollection, Stops, call_each-replay_record_total}
use memory_first_store.Checkpoint.{RawCheckpointMetadata, DecodedRawCheckpoint}
use memory_first_store.Checkpoint.Encode.{metadata_for_snapshot}
use memory_first_store.Checkpoint.Fits.{FitsSnapshot}
use memory_first_store.Checkpoint.Payload.{FitsNumbers, written_metadata}
use memory_first_store.Checkpoint.File.{decode_checkpoint-encode_checkpoint}
use memory_first_store.Checkpoint.Snapshot.{raw_snapshot, from_raw_snapshot}
use memory_first_store.Checkpoint.Loaded.{Overflows, from_raw_snapshot-raw_snapshot}
use memory_first_store.Checkpoint.Directory.{
  Directory, RawRecovery, existing, raw_checkpoint_path, write_raw_checkpoint,
  write_raw_checkpoint_to_dir, latest, load_latest_raw_checkpoint, recover_raw_checkpoint_then_wal,
}
use memory_first_store.Checkpoint.Latest.{
  IsOlder, latest_put, is_raw_checkpoint_file-raw_checkpoint_path,
}
use memory_first_store.Checkpoint.Newer.{newer, last_record_append, All-newer, newer-append}

module _ (c : Crc) (t : ConcurrentMap RawRecord) where
  call_each-replay_record_after :
      (lsn : ℕ) (s : Replayed t) (rs : List RawWalRecord)
      → call_each (replay_record_after t lsn) s rs ≡ call_each (replay_record t) s (newer lsn rs)
  unfolding call_each newer replay_record_after
  call_each-replay_record_after lsn s [] = refl
  call_each-replay_record_after lsn s (r ∷ rs) = elim (Bool-cases (ltb lsn r.lsn)) [
    | inl above ↦
        rw above (λ i. replay_record t s r >>= (λ s'. call_each-replay_record_after lsn s' rs i))
    | inr below ↦ rw below (call_each-replay_record_after lsn s rs)
  ]

  replay_after-cut :
      (lsn : ℕ) (s : MfsStore t.Table) (rs : List RawWalRecord) (k : ℕ) (file : List ℕ)
      → emit_all c rs ≡ ok file
      → All FitsFrame rs
      → IsAscendingFrom 0 rs
      → All (HasCollection t s) rs
      → ((s' : MfsStore t.Table) × (stats : RawWalReplayStats) × (replay_after t c
              (some (take k file))
              s
              lsn
            ≡ ok (s', stats))
          × ((key : NamedKey)
              → entry t key s' ≡ last_record key (entry t key s) (newer lsn (whole_records k rs)))
          × (stats.records ≡ length (newer lsn (whole_records k rs))))
        ⊎ ((e : StoreError) × (replay_after t c (some (take k file)) s lsn ≡ err e)
            × Stops t (s, no_records.stats) (newer lsn (whole_records k rs)) e)
  unfolding replay_after
  replay_after-cut lsn s rs k file frames fits ascending there =
      let whole = whole_records k rs in
      let kept = newer lsn whole in
      let start : Replayed t = (s, no_records.stats) in
      let kept_fits = All-newer FitsFrame lsn _ (All-whole_records FitsFrame k rs fits) in
      let (bytes, emitted, scans) =
        scan_records_with_offsets-cut c (replay_record_after t lsn) rs k start fits ascending in
      let same : bytes ≡ file = ground (arith, emitted, frames) in
      let above = call_each-replay_record_after lsn start whole in
      elim (call_each-replay_record_total t start kept
        (All-newer (HasCollection t s) lsn _ (All-whole_records (HasCollection t s) k rs there))
        kept_fits) [
          | inr (e, failed, stops) ↦ inr (e, rw (← same, scans, above, failed), stops)
          | inl ((s', stats), called) ↦
              let (entries, count) = call_each-replay_record t start kept kept_fits called in
              inl (s', stats, rw (← same, scans, above, called), entries, omega (arith, count))
        ]

  -- Why a recovery fails: a collection of the checkpoint does not fit its new table, or the
  -- checkpoint is loaded and a table refuses the key of one of the records behind it.
  abbrev pub RecoveryFails :
      MfsStoreConfig → MfsStore t.Table → Option (List ℕ) → List RawWalRecord → StoreError → Type 0
  RecoveryFails config s file rs e =
      Overflows t config (raw_snapshot t s).collections e
      ⊎ ((loaded : MfsStore t.Table) × (from_raw_snapshot t config (raw_snapshot t s) file
            ≡ ok loaded)
          × ((key : NamedKey) → entry t key loaded ≡ entry t key s)
          × Stops t (loaded, no_records.stats) rs e)

  -- Loading what was the latest checkpoint, and replaying the log behind it.
  load_then_replay :
      (s : MfsStore t.Table) (lsn : ℕ) (config : MfsStoreConfig) (rs : List RawWalRecord) (k : ℕ)
      (file name : List ℕ) (dir : Directory)
      → IsDistinct s.collections
      → validate_store_config config ≡ ok tt
      → length s.collections ≤ config.max_collections
      → emit_all c rs ≡ ok file
      → All FitsFrame rs
      → IsAscendingFrom 0 rs
      → All (HasCollection t s) rs
      → latest c dir none
        ≡ ok (
            some (
              name,
              record {
                metadata = written_metadata s.config lsn (raw_snapshot t s);
                snapshot = raw_snapshot t s;
              },
            ))
      → ((r : RawRecovery t.Table) × (recover_raw_checkpoint_then_wal c t
              (some dir)
              (some (take k file))
              config
            ≡ ok r)
          × ((key : NamedKey)
              → entry t key r.engine
                ≡ last_record key (entry t key s) (newer lsn (whole_records k rs)))
          × (r.wal.records ≡ length (newer lsn (whole_records k rs))))
        ⊎ ((e : StoreError) × (recover_raw_checkpoint_then_wal c t
                (some dir)
                (some (take k file))
                config
              ≡ err e)
            × RecoveryFails config s (some (take k file)) (newer lsn (whole_records k rs)) e)
  unfolding recover_raw_checkpoint_then_wal load_latest_raw_checkpoint metadata_for_snapshot
  load_then_replay s lsn config rs k file name dir once valid few frames framed ascending there
        found =
      let metadata = written_metadata s.config lsn (raw_snapshot t s) in
      elim (from_raw_snapshot-raw_snapshot t config s (some (take k file)) valid few once) [
        | inr (e, failed, o) ↦ inr (e, rw (found, failed), inl o)
        | inl (loaded, made, same_entries, same_names) ↦
            let has =
              All-map (HasCollection t s) (HasCollection t loaded)
                (λ r h. same_names r.collection ∙ h) rs there in
            elim (replay_after-cut lsn loaded rs k file frames framed ascending has) [
              | inr (e, failed, stops) ↦
                  inr (e, rw (found, made, failed), inr (loaded, made, same_entries, stops))
              | inl (s', stats, replayed, entries, count) ↦ inl (
                record {
                  engine = s';
                  checkpoint = some (record { path = name; metadata = metadata });
                  wal = stats;
                },
                rw (found, made, replayed),
                λ key.
                    entries key
                    ∙ ap (λ o. last_record key o (newer lsn (whole_records k rs)))
                        (same_entries key),
                count,
              )
            ]
      ]

  -- Write a checkpoint of a store into a directory that has none as new, and later recover from
  -- the directory and a log cut after any `k` bytes, with a valid configuration that allows as
  -- many collections, where the snapshot and its numbers fit, names occur once, and the store
  -- has the collections of the log's records, which fit and have ascending LSNs: the writing
  -- succeeds. The recovery succeeds, and the recovered store has for every collection and key
  -- what the last whole record above the checkpoint's LSN says, or what the store had at the
  -- checkpoint; or it fails with CollectionCapacityFull, because a new table refuses a key of
  -- the checkpoint, or a table one of a record above its LSN once all before it are applied.
  pub recover_raw_checkpoint_then_wal-cut :
      (s : MfsStore t.Table) (lsn : ℕ) (dir : Option Directory) (config : MfsStoreConfig)
      (rs : List RawWalRecord) (k : ℕ) (file : List ℕ)
      → IsDistinct s.collections
      → FitsSnapshot (raw_snapshot t s)
      → FitsNumbers s.config lsn
      → All (IsOlder c lsn) (existing dir)
      → validate_store_config config ≡ ok tt
      → length s.collections ≤ config.max_collections
      → emit_all c rs ≡ ok file
      → All FitsFrame rs
      → IsAscendingFrom 0 rs
      → All (HasCollection t s) rs
      → (dir' : Directory) × (metadata : RawCheckpointMetadata) × (write_raw_checkpoint_to_dir c t
            dir s lsn
          ≡ ok (dir', metadata))
        × (((r : RawRecovery t.Table) × (recover_raw_checkpoint_then_wal c t
                  (some dir')
                  (some (take k file))
                  config
                ≡ ok r)
              × ((key : NamedKey)
                  → entry t key r.engine
                    ≡ last_record key (entry t key s) (newer lsn (whole_records k rs)))
              × (r.wal.records ≡ length (newer lsn (whole_records k rs))))
            ⊎ ((e : StoreError) × (recover_raw_checkpoint_then_wal c t
                    (some dir')
                    (some (take k file))
                    config
                  ≡ err e)
                × RecoveryFails config s (some (take k file)) (newer lsn (whole_records k rs)) e))
  unfolding write_raw_checkpoint_to_dir write_raw_checkpoint metadata_for_snapshot insert
  recover_raw_checkpoint_then_wal-cut s lsn dir config rs k file once fits numbers older valid few
        frames framed ascending there =
      let name = raw_checkpoint_path lsn in
      let metadata = written_metadata s.config lsn (raw_snapshot t s) in
      let (bytes, encoded, size, decoded) =
        decode_checkpoint-encode_checkpoint c s.config lsn (raw_snapshot t s) fits numbers name in
      let checkpoint : DecodedRawCheckpoint = record {
        metadata = metadata;
        snapshot = raw_snapshot t s;
      } in
      let found : latest c (insert name bytes (existing dir)) none ≡ ok (some (name, checkpoint)) =
        latest_put c name bytes checkpoint (existing dir)
          (is_raw_checkpoint_file-raw_checkpoint_path lsn) decoded older in
      (
        insert name bytes (existing dir),
        metadata,
        rw encoded,
        load_then_replay s lsn config rs k file name (insert name bytes (existing dir)) once valid
            few frames framed ascending there found,
      )

  -- Memory and log of a store say the same at a checkpoint, written at the last LSN into a directory
  -- that has none as new, and again after more writes to its collections; the snapshot and its
  -- numbers fit, names occur once, and the configuration is valid and allows as many collections.
  -- Then the writing succeeds, and recovery from the directory and the file of the whole log
  -- succeeds and gives exactly the records of the later store, having replayed only those behind
  -- the checkpoint; or it fails with CollectionCapacityFull, because a new table refuses a key of
  -- the checkpoint, or a table one of a record behind it once all before it are applied.
  pub recover_raw_checkpoint_then_wal-Logged :
      (s later : MfsStore t.Table) (dir : Option Directory) (config : MfsStoreConfig)
      (rs more : List RawWalRecord) (file : List ℕ)
      → Logged c t s rs
      → Logged c t later (rs ++ more)
      → emit_all c (rs ++ more) ≡ ok file
      → IsDistinct s.collections
      → FitsSnapshot (raw_snapshot t s)
      → FitsNumbers s.config (last_lsn 0 rs)
      → All (IsOlder c (last_lsn 0 rs)) (existing dir)
      → validate_store_config config ≡ ok tt
      → length s.collections ≤ config.max_collections
      → All (HasCollection t s) (rs ++ more)
      → (dir' : Directory) × (metadata : RawCheckpointMetadata) × (write_raw_checkpoint_to_dir c t
            dir s
            (last_lsn 0 rs)
          ≡ ok (dir', metadata))
        × (((r : RawRecovery t.Table) × (recover_raw_checkpoint_then_wal c t
                  (some dir')
                  (some file)
                  config
                ≡ ok r)
              × ((key : NamedKey) → entry t key r.engine ≡ entry t key later)
              × (r.wal.records ≡ length more))
            ⊎ ((e : StoreError) × (recover_raw_checkpoint_then_wal c t
                    (some dir')
                    (some file)
                    config
                  ≡ err e)
                × RecoveryFails config s (some file) more e))
  recover_raw_checkpoint_then_wal-Logged s later dir config rs more file h after frames once fits
        numbers older valid few there =
      let all = rs ++ more in
      let n = length file in
      let lsn = last_lsn 0 rs in
      let framed = after.holds.fits in
      let (dir', metadata, wrote, ends) =
        recover_raw_checkpoint_then_wal-cut s lsn dir config all n file once fits numbers older
          valid few frames framed after.holds.ascending there in
      let whole : whole_records n all ≡ all =
        whole_records-all n all (omega (arith, length-emit_all c all framed frames)) in
      let behind : newer lsn (whole_records n all) ≡ more =
        ap (newer lsn) whole ∙ newer-append 0 rs more after.holds.ascending in
      let uncut = take_of_length-le n file (omega arith) in
      (
        dir',
        metadata,
        wrote,
        elim ends [
          | inr (e, failed, why) ↦ inr (e, rw uncut at failed, rw (uncut, behind) at why)
          | inl (r, recovered, entries, count) ↦ inl (
            r,
            rw uncut at recovered,
            λ key.
                entries key
                ∙ (rw (behind, h.entries key) (sym (last_record_append key none rs more))
                    ∙ sym (after.entries key)),
            count ∙ ap length behind,
          )
        ],
      )
