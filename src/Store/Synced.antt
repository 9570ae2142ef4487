-- ===== src/Store/Synced.antt =====
-- The flag `wal_dirty` of crates/mfs-store/src/store/raw.rs: what it says of the writer's buffer, and
-- what `sync_wal` makes of it.
use memory_first_store.Prelude.{
  ℕ, ◌≡◌, refl, ◌∙◌, ap, Bool, true, false, not, Option, none, some, List, [], arith, append-nil,
  if◌then◌else◌, Bool-cases, Option-cases, inl, inr,
}
use memory_first_store.Prelude.Fail.{ok, err, Result-cases}
use memory_first_store.Errors.{StoreError}
use memory_first_store.Wal.{Operation, RawWalRecord, Crc}
use memory_first_store.Wal.Encode.{emit_encoded}
use memory_first_store.Wal.Writer.{
  RawWalSegmentWriter, append_state_for_path, open_writer, append_record, append_put_versioned,
  append_delete_versioned, flush, sync_now, written,
}
use memory_first_store.Store.{StoreDurability}
use memory_first_store.Store.Durability.{
  with_writer, writer_of, append_value, append_raw_wal, sync_wal,
}

-- The file is the writer's, and the writer has nothing in its buffer unless the flag is set.
pub record Honest (d : StoreDurability) : Type 0 where
  pub in_file : (w : RawWalSegmentWriter) → d.wal ≡ some w → d.file ≡ some w.file
  pub clean : (w : RawWalSegmentWriter) → d.wal ≡ some w → d.wal_dirty ≡ false → w.buffer ≡ []

with_writer-Honest :
    (w : RawWalSegmentWriter) (dirty : Bool) (d : StoreDurability)
    → (dirty ≡ false → w.buffer ≡ [])
    → Honest (with_writer w dirty d)
with_writer-Honest w dirty d h = record {
  in_file = λ x e. let same : w ≡ x = ground (arith, e) in rw same;
  clean = λ x e k. let same : w ≡ x = ground (arith, e) in rw same at (h k);
}

appended-Honest :
    (sync : Bool) (w : RawWalSegmentWriter) (d : StoreDurability)
    → Honest (with_writer (if sync then sync_now w else w) (not sync) d)
unfolding sync_now flush
appended-Honest true w d = with_writer-Honest (sync_now w) false d (λ k. refl)
appended-Honest false w d = with_writer-Honest w true d (λ k. cc)

module _ (c : Crc) where
  open_writer-buffer :
      (file : Option (List ℕ)) (w : RawWalSegmentWriter) → open_writer c file ≡ ok w → w.buffer ≡ []
  unfolding open_writer
  open_writer-buffer file w h = elim (Result-cases (append_state_for_path c file)) [
    | inl (e, failed) ↦ cc (rw (failed, open_writer) at h)
    | inr (state, scanned) ↦ ground (arith, rw (scanned, open_writer) at h)
  ]

  writer_of-buffer :
      (d : StoreDurability) (w : RawWalSegmentWriter)
      → Honest d
      → writer_of c d ≡ ok w
      → d.wal_dirty ≡ false
      → w.buffer ≡ []
  unfolding writer_of
  writer_of-buffer d w h e clean = elim (Option-cases d.wal) [
    | inl none_yet ↦ elim (Option-cases d.wal_path) [
      | inl missing ↦ cc (rw (none_yet, missing) at e)
      | inr (path, there) ↦ open_writer-buffer d.file w (rw (none_yet, there) at e)
    ]
    | inr (x, in_use) ↦
        let same : x ≡ w = ground (arith, rw in_use at e) in rw same at (h.clean x in_use clean)
  ]

  append_record-buffer :
      (collection : List ℕ) (op : Operation) (key : List ℕ) (value : Option (List ℕ)) (version : ℕ)
      (track : Bool) (w : RawWalSegmentWriter) (e : StoreError)
      → (append_record c collection op key value version track w).1 ≡ err e
      → (append_record c collection op key value version track w).0.buffer ≡ w.buffer
  unfolding append_record
  append_record-buffer collection op key value version track w e h =
      let r : RawWalRecord = record {
        lsn = w.next_lsn;
        version = version;
        collection = collection;
        op = op;
        key = key;
        value = value;
      } in
      elim (Result-cases (emit_encoded c r)) [
        | inl (why, failed) ↦ rw (failed, append_record)
        | inr (bs, passed) ↦ cc (rw (passed, append_record) at h)
      ]

  append_value-buffer :
      (collection key : List ℕ) (value : Option (List ℕ)) (version : ℕ) (w : RawWalSegmentWriter)
      (e : StoreError)
      → (append_value c collection key value version w).1 ≡ err e
      → (append_value c collection key value version w).0.buffer ≡ w.buffer
  unfolding append_value append_put_versioned append_delete_versioned
  append_value-buffer collection key none version w e h =
      append_record-buffer collection Operation.delete key none version false w e h
  append_value-buffer collection key (some value) version w e h =
      append_record-buffer collection Operation.put key (some value) version false w e h

  -- An append through the store, whether it succeeds or fails and whether it syncs or not, keeps
  -- the flag honest: the file is the writer's, and a clear flag means an empty buffer.
  pub append_raw_wal-Honest :
      (collection key : List ℕ) (value : Option (List ℕ)) (version : ℕ) (sync : Bool)
      (d : StoreDurability)
      → Honest d
      → Honest (append_raw_wal c collection key value version sync d).0
  unfolding append_raw_wal
  append_raw_wal-Honest collection key value version sync d h =
      elim (Result-cases (writer_of c d)) [
        | inl (e, failed) ↦ rw (failed, append_raw_wal) h
        | inr (w, opened) ↦ elim (Result-cases (append_value c collection key value version w).1) [
          | inl (e, failed) ↦
              rw (opened, append_raw_wal, failed)
                (with_writer-Honest _ _ d (λ k.
                  append_value-buffer collection key value version w e failed
                  ∙ writer_of-buffer d w h opened k))
          | inr (lsn, passed) ↦ rw (opened, append_raw_wal, passed) (appended-Honest sync _ d)
        ]
      ]

  -- With a writer in use and an honest flag, a sync succeeds, the file then holds all that was
  -- handed to the writer, and the flag is clear and honest.
  pub sync_wal-Honest :
      (d : StoreDurability) (w : RawWalSegmentWriter)
      → Honest d
      → d.wal ≡ some w
      → let (d', result) = sync_wal c d in
        (result ≡ ok tt) × (d'.file ≡ some (written w)) × (d'.wal_dirty ≡ false) × Honest d'
  unfolding sync_wal sync_now flush
  sync_wal-Honest d w h in_use = elim (Bool-cases d.wal_dirty) [
    | inl dirty ↦
        rw (dirty, sync_wal, in_use) (refl, refl, refl, with_writer-Honest _ false d (λ k. refl))
    | inr clear ↦
        let all : w.file ≡ written w = rw (h.clean w in_use clear, append-nil) in
        rw (clear, sync_wal)
          (
            refl,
            h.in_file w in_use ∙ ap some all,
            refl,
            record { in_file = h.in_file; clean = λ x e k. h.clean x e clear },
          )
  ]
