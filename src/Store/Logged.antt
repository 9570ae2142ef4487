-- ===== src/Store/Logged.antt =====
-- Writing to a raw store whose writes all go to the log (crates/mfs-store/src/store/raw.rs): memory
-- and log keep saying the same.
use memory_first_store.Prelude.{
  ℕ, ◌+◌, ◌<◌, ◌≡◌, refl, ◌∙◌, ap, true, false, not, Option, none, some, List, [], ◌∷◌, ◌++◌, arith,
  Bool-cases, inl, inr, ◌⊎◌,
}
use memory_first_store.Prelude.Fail.{ok}
use memory_first_store.Maps.{NamedKey, bytes_keyed, named_keyed, lookup, insert}
use memory_first_store.Wal.{RawWalRecord, Crc}
use memory_first_store.Wal.Crash.{emit_all}
use memory_first_store.Wal.Frames.{FitsFrame}
use memory_first_store.Wal.Writer.{RawWalSegmentWriter, u64_max}
use memory_first_store.Wal.Reopen.{Holds, last_lsn}
use memory_first_store.Store.{
  WriteOptions, RawRecord, RawCollection, RawWriteContext, MfsStore, effective_durability,
}
use memory_first_store.Store.Table.{ConcurrentMap, is_some}
use memory_first_store.Store.Durability.{writer_of, with_writer}
use memory_first_store.Store.Collection.{
  admit, version_of, value_of, next_version, counted, mismatch,
}
use memory_first_store.Store.Raw.{is_wal_mode, write_raw, raw_collection, no_preflight}
use memory_first_store.Store.Entries.{entry, entry-write}
use memory_first_store.Store.Applied.{last_record-append, last_record}
use memory_first_store.Store.Appended.{
  op_of, syncs, ack_of, ack_lsn-ack_of, acknowledge_write-Holds, write_with_hooks-ok,
}

module _ (c : Crc) where
  module _ (t : ConcurrentMap RawRecord) where
    -- Memory and log say the same: the writer holds the frames of some records, and every
    -- collection and key has what the last of its records left.
    pub record Logged (s : MfsStore t.Table) (rs : List RawWalRecord) : Type 0 where
      pub writer : RawWalSegmentWriter
      pub opened : writer_of c s.durability ≡ ok writer
      pub holds : Holds c writer rs
      pub entries : (k : NamedKey) → entry t k s ≡ last_record k none rs

    -- The record that a write adds to the log.
    abbrev pub logged_record : List ℕ → List ℕ → Option (List ℕ) → List RawWalRecord → RawWalRecord
    logged_record name key value rs = record {
      lsn = last_lsn 0 rs + 1;
      version = next_version (version_of (last_record (name, key) none rs));
      collection = name;
      op = op_of value;
      key = key;
      value = value;
    }

    -- A put or a delete in a mode that uses the log, to a collection that is there, with the
    -- expected version if one is given, room in the table, a record that fits a frame and an LSN
    -- left for it: it succeeds with the version after the one of the key's last record and with
    -- the next LSN, memory and log say the same with its record added, and if the mode syncs, the
    -- file holds the frames of all records.
    pub write_raw-Logged :
        (s : MfsStore t.Table) (rs : List RawWalRecord) (name key : List ℕ)
        (value : Option (List ℕ)) (options : WriteOptions) (col : RawCollection t.Table)
        → Logged s rs
        → lookup name s.collections ≡ some col
        → mismatch options.expected_version (version_of (last_record (name, key) none rs)) ≡ false
        → t.can_insert_or_replace key col.records ≡ true
        → is_wal_mode (effective_durability options s.config.durability) ≡ true
        → FitsFrame (logged_record name key value rs)
        → last_lsn 0 rs < u64_max
        → (s' : MfsStore t.Table) × (write_raw t c name key value options no_preflight s ≡ (
          s',
          ok (record {
            version = next_version (version_of (last_record (name, key) none rs));
            lsn = some (last_lsn 0 rs + 1);
            acknowledgement =
                ack_of (effective_durability options s.config.durability) (last_lsn 0 rs + 1);
          }),
        ))
          × Logged s' (rs ++ logged_record name key value rs ∷ [])
          × ((syncs (effective_durability options s.config.durability) ≡ false)
              ⊎ ((file : List ℕ) × (s'.durability.file ≡ some file)
                  × (emit_all c (rs ++ logged_record name key value rs ∷ []) ≡ ok file)))
    unfolding write_raw raw_collection admit writer_of
    write_raw-Logged s rs name key value options col h found fresh room mode fits below =
        let known : t.get key col.records ≡ last_record (name, key) none rs =
          rw found at (h.entries (name, key)) in
        let version = next_version (version_of (last_record (name, key) none rs)) in
        let next : h.writer.next_lsn ≡ last_lsn 0 rs + 1 = omega (arith, h.holds.next) in
        let (w', acked, holds, synced) =
          acknowledge_write-Holds c (effective_durability options s.config.durability) s.durability
            h.writer rs name key value version mode h.opened h.holds (rw next fits) below in
        let context : RawWriteContext = record {
          collection = name;
          options = options;
          default_durability = s.config.durability;
        } in
        let admitted : admit t no_preflight key context col ≡ ok tt = rw (known, fresh, room) in
        let ack = ack_of (effective_durability options s.config.durability) (last_lsn 0 rs + 1) in
        let old = last_record (name, key) none rs in
        let r : RawRecord = record { value = value; version = version } in
        let d' =
          with_writer w' (not (syncs (effective_durability options s.config.durability)))
            s.durability in
        let col' =
          counted t (is_some value) (is_some (value_of old)) (t.insert key r col.records).0 col in
        let wrote =
          write_with_hooks-ok c t key value context s.durability d' col old ack known admitted room
            acked in
        let s' : MfsStore t.Table = record s {
          durability = d';
          collections = insert name col' s.collections;
        } in
        let holds' : Holds c w' (rs ++ logged_record name key value rs ∷ []) = rw next at holds in
        (
          s',
          rw (found, write_raw, wrote, ack_lsn-ack_of _ (last_lsn 0 rs + 1) mode),
          record {
            writer = w';
            opened = refl;
            holds = holds';
            entries = λ k.
                entry-write t k name key r col col' s s' found refl
                  (λ j. t.get-insert key j r col.records room)
                ∙ rw (last_record-append, h.entries k);
          },
          elim (Bool-cases (syncs (effective_durability options s.config.durability))) [
            | inl now ↦ inr (w'.file, refl, holds'.frames ∙ ap ok (synced now))
            | inr later ↦ inl later
          ],
        )
