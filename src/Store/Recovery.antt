-- ===== src/Store/Recovery.antt =====
-- A store that is rebuilt from the log (`replay_into` of crates/mfs-store/src/store/wal.rs).
use memory_first_store.Prelude.{
  ◌++◌, Bool-cases, All-map, Option-cases, inl, inr, ◌⊎◌, false, ap, ℕ, ◌+◌, ◌≡◌, refl, ◌∙◌, true,
  some, List, [], ◌∷◌, arith, length, take, All, if◌then◌else◌,
}
use memory_first_store.Prelude.Fail.{ok, err}
use memory_first_store.Errors.{StoreError}
use memory_first_store.Maps.{
  lookup-insert, NamedKey, bytes_keyed, named_keyed, bytes_same, named_same, lookup, insert,
}
use memory_first_store.Wal.{RawWalRecord, Crc}
use memory_first_store.Wal.Scan.{RawWalReplayStats, no_records}
use memory_first_store.Wal.Codec.{FitsOp}
use memory_first_store.Wal.Frames.{FitsFrame}
use memory_first_store.Wal.Crash.{whole_records, call_each, scan_records_with_offsets-cut}
use memory_first_store.Wal.Writer.{RawWalSegmentWriter, written}
use memory_first_store.Wal.Reopen.{record_key, Holds, All-whole_records}
use memory_first_store.Store.{RawRecord, RawCollection, MfsStore}
use memory_first_store.Store.Table.{ConcurrentMap, is_some}
use memory_first_store.Store.Raw.{create_raw_collection, raw_collection}
use memory_first_store.Store.Collection.{counted, value_of, insert_replay_record_locked}
use memory_first_store.Store.Replay.{
  apply_raw_record, apply_raw_replay_record, ensure_raw_collection, replay_record, replay_into,
  Replayed,
}
use memory_first_store.Store.Entries.{
  insert_replay_record_locked-fits, insert_replay_record_locked-full, entry,
}
use memory_first_store.Store.Applied.{
  raw_record, last_record, replayed_value-FitsOp, apply_raw_record-eq-ok, call_each-replay_record,
}

module _ (t : ConcurrentMap RawRecord) where
  abbrev pub HasCollection : MfsStore t.Table → RawWalRecord → Type 0
  HasCollection s r = is_some (lookup r.collection s.collections) ≡ true

  -- A collection that is there already is not made again.
  ensure_raw_collection-there :
      (name : List ℕ) (s : MfsStore t.Table)
      → is_some (lookup name s.collections) ≡ true
      → ensure_raw_collection t name s ≡ ok s
  unfolding ensure_raw_collection create_raw_collection
  ensure_raw_collection-there name s h = rw (h, ensure_raw_collection)

  -- A record whose key the table of its collection refuses.
  abbrev Refused : MfsStore t.Table → RawWalRecord → Type 0
  Refused s r =
      (col : RawCollection t.Table) × (lookup r.collection s.collections ≡ some col)
      × (t.can_insert_or_replace r.key col.records ≡ false)

  -- The record is applied, or the table of its collection refuses its key.
  apply_raw_record_total :
      (s : MfsStore t.Table) (r : RawWalRecord)
      → HasCollection s r
      → FitsOp r.op r.value
      → ((s' : MfsStore t.Table) × (apply_raw_record t s r ≡ ok s')
          × ((x : RawWalRecord) → HasCollection s x → HasCollection s' x))
        ⊎ (Refused s r
            × (apply_raw_record t s r ≡ err (StoreError.collection_capacity_full r.collection)))
  unfolding apply_raw_record apply_raw_replay_record raw_collection
  apply_raw_record_total s r there fits = elim (Option-cases (lookup r.collection s.collections)) [
    | inl missing ↦ cc (rw missing at there)
    | inr (col, found) ↦ elim (Bool-cases (t.can_insert_or_replace r.key col.records)) [
      | inl room ↦
          let taken : RawCollection t.Table =
            counted t (is_some r.value) (is_some (value_of (t.get r.key col.records)))
              (t.insert r.key (raw_record r) col.records).0 col in
          let put : insert_replay_record_locked t r.collection r.key r.value r.version col
              ≡ ok taken =
            insert_replay_record_locked-fits t r.collection r.key r.value r.version col room in
          inl (
            record s { collections = insert r.collection taken s.collections },
            rw (
              ensure_raw_collection-there r.collection s there,
              replayed_value-FitsOp t r fits,
              apply_raw_replay_record,
              raw_collection,
              found,
              put,
            ),
            λ x h.
                rw (lookup-insert r.collection x.collection taken s.collections)
                  (elim (Bool-cases (bytes_same r.collection x.collection)) [
                    | inl here ↦ rw here
                    | inr other ↦ rw other h
                  ]),
          )
      | inr full ↦
          let refused =
            insert_replay_record_locked-full t r.collection r.key r.value r.version col full in
          inr (
            (col, found, full),
            rw (
              ensure_raw_collection-there r.collection s there,
              replayed_value-FitsOp t r fits,
              apply_raw_replay_record,
              raw_collection,
              found,
              refused,
            ),
          )
    ]
  ]

  -- Why a replay stops: the records before one of them are applied, and the table of that one's
  -- collection, which then has what those records left, refuses its key.
  pub record Stops (s : Replayed t) (rs : List RawWalRecord) (e : StoreError) : Type 0 where
    pub before : List RawWalRecord
    pub refused : RawWalRecord
    pub behind : List RawWalRecord
    pub records : rs ≡ before ++ refused ∷ behind
    pub reached : Replayed t
    pub replayed : call_each (replay_record t) s before ≡ ok reached
    pub entries : (k : NamedKey) → entry t k reached.0 ≡ last_record k (entry t k s.0) before
    pub col : RawCollection t.Table
    pub there : lookup refused.collection reached.0.collections ≡ some col
    pub full : t.can_insert_or_replace refused.key col.records ≡ false
    pub error : e ≡ StoreError.collection_capacity_full refused.collection

  Stops-first :
      (s : Replayed t) (r : RawWalRecord) (rs : List RawWalRecord)
      → Refused s.0 r
      → Stops s (r ∷ rs) (StoreError.collection_capacity_full r.collection)
  unfolding call_each last_record
  Stops-first s r rs (col, found, full) = record {
    before = [];
    refused = r;
    behind = rs;
    records = refl;
    reached = s;
    replayed = refl;
    entries = λ k. refl;
    col = col;
    there = found;
    full = full;
    error = refl;
  }

  Stops-later :
      (s s1 : Replayed t) (r : RawWalRecord) (rs : List RawWalRecord) (e : StoreError)
      → replay_record t s r ≡ ok s1
      → ((k : NamedKey)
          → entry t k s1.0
            ≡ (if named_same (record_key r) k then some (raw_record r) else entry t k s.0))
      → Stops s1 rs e
      → Stops s (r ∷ rs) e
  unfolding call_each last_record
  Stops-later s s1 r rs e first entries h = record {
    before = r ∷ h.before;
    refused = h.refused;
    behind = h.behind;
    records = ap (◌∷◌ r) h.records;
    reached = h.reached;
    replayed = rw (first, call_each) h.replayed;
    entries = λ k. h.entries k ∙ ap (λ o. last_record k o h.before) (entries k);
    col = h.col;
    there = h.there;
    full = h.full;
    error = h.error;
  }

  -- All records are applied, or the replay stops at one that a table refuses.
  pub call_each-replay_record_total :
      (s : Replayed t) (rs : List RawWalRecord)
      → All (HasCollection s.0) rs
      → All FitsFrame rs
      → ((s' : Replayed t) × (call_each (replay_record t) s rs ≡ ok s'))
        ⊎ ((e : StoreError) × (call_each (replay_record t) s rs ≡ err e) × Stops s rs e)
  unfolding call_each replay_record
  call_each-replay_record_total s [] there fits = inl (s, refl)
  call_each-replay_record_total s (r ∷ rs) there fits =
      let value = fits.0.record_fits.value in
      elim (apply_raw_record_total s.0 r there.0 value) [
        | inr (refused, failed) ↦ inr (
          StoreError.collection_capacity_full r.collection,
          rw (failed, call_each),
          Stops-first s r rs refused,
        )
        | inl (s1, applied, kept) ↦
            let next : Replayed t = (s1, record { records = s.1.records + 1; last_lsn = r.lsn }) in
            elim (call_each-replay_record_total next rs
              (All-map (HasCollection s.0) (HasCollection s1) kept rs there.1) fits.1) [
                | inl (s', rest) ↦ inl (s', rw (applied, call_each) rest)
                | inr (e, failed, stops) ↦ inr (
                  e,
                  rw (applied, call_each) failed,
                  Stops-later s next r rs e (rw applied)
                      (apply_raw_record-eq-ok t s.0 r value applied) stops,
                )
              ]
      ]

  -- Cut what a writer holds after any `k` bytes, and replay it into a store that has the
  -- collections: the replay succeeds, counts the records whose frames lie whole before the cut, and
  -- leaves for every collection and key what the last of these records says, or what the store had
  -- before; or it fails with CollectionCapacityFull for the collection of one of these records,
  -- whose table, once the records before it are applied, refuses its key.
  pub replay_into-cut :
      (c : Crc) (w : RawWalSegmentWriter) (rs : List RawWalRecord) (k : ℕ) (s : MfsStore t.Table)
      → Holds c w rs
      → All (HasCollection s) rs
      → ((s' : MfsStore t.Table) × (stats : RawWalReplayStats) × (replay_into t c
              (some (take k (written w)))
              s
            ≡ ok (s', stats))
          × ((key : NamedKey)
              → entry t key s' ≡ last_record key (entry t key s) (whole_records k rs))
          × (stats.records ≡ length (whole_records k rs)))
        ⊎ ((e : StoreError) × (replay_into t c (some (take k (written w))) s ≡ err e)
            × Stops (s, no_records.stats) (whole_records k rs) e)
  unfolding replay_into
  replay_into-cut c w rs k s h there =
      let kept = whole_records k rs in
      let start : Replayed t = (s, no_records.stats) in
      let fits = All-whole_records FitsFrame k rs h.fits in
      let (file, frames, scans) =
        scan_records_with_offsets-cut c (replay_record t) rs k start h.fits h.ascending in
      let same : file ≡ written w = ground (arith, frames, h.frames) in
      elim (call_each-replay_record_total start kept
        (All-whole_records (HasCollection s) k rs there) fits) [
          | inl ((s', stats), called) ↦
              let (entries, count) = call_each-replay_record t start kept fits called in
              inl (s', stats, rw (← same, scans, called), entries, omega (arith, count))
          | inr (e, failed, stops) ↦ inr (e, rw (← same, scans, failed), stops)
        ]
