-- ===== src/Store/Applied.antt =====
-- What replayed records leave (`apply_raw_record` of crates/mfs-store/src/store/wal.rs).
use memory_first_store.Prelude.{
  ◌++◌, ℕ, ◌+◌, ◌≡◌, refl, ◌∙◌, Option, none, some, List, [], ◌∷◌, arith, length, All,
  if◌then◌else◌,
}
use memory_first_store.Prelude.Fail.{ok, >>=-elim}
use memory_first_store.Maps.{NamedKey, bytes_keyed, named_keyed, named_same}
use memory_first_store.Wal.{Operation, RawWalRecord}
use memory_first_store.Wal.Codec.{FitsOp}
use memory_first_store.Wal.Frames.{FitsFrame}
use memory_first_store.Wal.Crash.{call_each}
use memory_first_store.Wal.Reopen.{record_key}
use memory_first_store.Store.{RawRecord, MfsStore}
use memory_first_store.Store.Table.{ConcurrentMap}
use memory_first_store.Store.Replay.{
  apply_raw_record, ensure_raw_collection, replayed_value, replay_record, Replayed,
}
use memory_first_store.Store.Entries.{
  entry, apply_raw_replay_record-eq-ok, ensure_raw_collection-eq-ok,
}

-- What a record of the log leaves for its key.
abbrev pub raw_record : RawWalRecord → RawRecord
raw_record r = record { value = r.value; version = r.version }

-- What the last record of a key leaves, or what was there before all of them.
unfoldable pub last_record : NamedKey → Option RawRecord → List RawWalRecord → Option RawRecord
last_record k found [] = found
last_record k found (r ∷ rs) =
    last_record k (if named_same (record_key r) k then some (raw_record r) else found) rs

pub last_record-append :
    (k : NamedKey) (found : Option RawRecord) (rs : List RawWalRecord) (r : RawWalRecord)
    → last_record k found (rs ++ r ∷ [])
      ≡ (if named_same (record_key r) k then some (raw_record r) else last_record k found rs)
unfolding last_record
last_record-append k found [] r = refl
last_record-append k found (x ∷ rs) r =
    last_record-append k (if named_same (record_key x) k then some (raw_record x) else found) rs r

module _ (t : ConcurrentMap RawRecord) where
  pub replayed_value-FitsOp :
      (r : RawWalRecord) → FitsOp r.op r.value → replayed_value t r ≡ ok r.value
  unfolding replayed_value
  replayed_value-FitsOp r h = by_op r.op r.value h
    where
      by_op :
          (op : Operation) (value : Option (List ℕ))
          → FitsOp op value
          → replayed_value t (record r { op = op; value = value }) ≡ ok value
      by_op Operation.put (some value) h = refl
      by_op Operation.put none h = absurd h
      by_op Operation.delete none h = refl
      by_op Operation.delete (some value) h = absurd h

  pub apply_raw_record-eq-ok :
      (s : MfsStore t.Table) (r : RawWalRecord) {s' : MfsStore t.Table}
      → FitsOp r.op r.value
      → apply_raw_record t s r ≡ ok s'
      → (k : NamedKey)
      → entry t k s' ≡ (if named_same (record_key r) k then some (raw_record r) else entry t k s)
  unfolding apply_raw_record
  apply_raw_record-eq-ok s r fits h k =
      >>=-elim (ensure_raw_collection t r.collection s) _ h λ s1 made rest.
        >>=-elim (replayed_value t r) _ rest λ value valued e.
          let same : r.value ≡ value = ground (arith, replayed_value-FitsOp r fits, valued) in
          rw (same, ← ensure_raw_collection-eq-ok t r.collection s made k)
            (apply_raw_replay_record-eq-ok t r.collection r.key value r.version s1 e k)

  -- The store and the statistics after some records.
  pub call_each-replay_record :
      (s : Replayed t) (rs : List RawWalRecord) {s' : Replayed t}
      → All FitsFrame rs
      → call_each (replay_record t) s rs ≡ ok s'
      → ((k : NamedKey) → entry t k s'.0 ≡ last_record k (entry t k s.0) rs)
        × (s'.1.records ≡ s.1.records + length rs)
  unfolding call_each last_record replay_record
  call_each-replay_record s [] {s'} fits h =
      let same : s ≡ s' = ground (arith, h) in (λ k. rw same, rw same (omega arith))
  call_each-replay_record s (r ∷ rs) {s'} fits h =
      >>=-elim (replay_record t s r) _ h λ s1 first rest.
        >>=-elim (apply_raw_record t s.0 r) _ first λ s2 applied e.
          let same : s1 ≡ (s2, record { records = s.1.records + 1; last_lsn = r.lsn }) =
            ground (arith, e) in
          let (entries, count) = call_each-replay_record s1 rs fits.1 rest in
          (
            λ k.
                entries k
                ∙ rw (same, apply_raw_record-eq-ok s.0 r fits.0.record_fits.value applied k),
            rw count (rw same (omega arith)),
          )
