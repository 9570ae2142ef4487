-- ===== src/Wal/Append.antt =====
-- Appending to the log (`append_record`, `append_put` and `append_delete` of
-- crates/mfs-store/src/store/wal.rs), by what the writer stands for.
use mathlib.Core.Path.{subst}
use memory_first_store.Prelude.{
  sym, ◌∙◌, ap, Bool, min, ℕ, ◌+◌, ◌%◌, ◌^◌, ◌<◌, ◌≡◌, refl, true, Option, none, some, List, [],
  ◌∷◌, ◌++◌, arith, All-append, if◌then◌else◌, append_assoc, append-nil,
}
use memory_first_store.Prelude.Fail.{ok}
use memory_first_store.Maps.{insert, NamedKey, named_keyed, lookup-insert}
use memory_first_store.Wal.{Operation, RawWalRecord, Crc}
use memory_first_store.Wal.Frames.{FitsFrame, emit_encoded-FitsFrame}
use memory_first_store.Wal.Crash.{emit_all, emit_all-append, IsAscendingFrom}
use memory_first_store.Wal.Writer.{
  RawWalSegmentWriter, append_record, append_put, append_delete, next_record_version, u64_max,
}
use memory_first_store.Wal.Encode.{emit_encoded}
use memory_first_store.Wal.Writer.{written, saturating_add_one}
use memory_first_store.Wal.Reopen.{Holds, record_key, last_version, last_lsn, Represents}

IsAscendingFrom-append :
    (n : ℕ) (rs : List RawWalRecord) (r : RawWalRecord)
    → IsAscendingFrom n rs
    → last_lsn n rs < r.lsn
    → IsAscendingFrom n (rs ++ r ∷ [])
unfolding last_lsn
IsAscendingFrom-append n [] r h below = (below, tt)
IsAscendingFrom-append n (x ∷ rs) r h below = (h.0, IsAscendingFrom-append x.lsn rs r h.1 below)

pub last_lsn-append :
    (n : ℕ) (rs : List RawWalRecord) (r : RawWalRecord) → last_lsn n (rs ++ r ∷ []) ≡ r.lsn
unfolding last_lsn
last_lsn-append n [] r = refl
last_lsn-append n (x ∷ rs) r = last_lsn-append x.lsn rs r

last_version-append :
    (k : NamedKey) (found : Option ℕ) (rs : List RawWalRecord) (r : RawWalRecord)
    → last_version k found (rs ++ r ∷ [])
      ≡ (if named_keyed.same (record_key r) k then some r.version else last_version k found rs)
unfolding last_version
last_version-append k found [] r = refl
last_version-append k found (x ∷ rs) r =
    last_version-append k (if named_keyed.same (record_key x) k then some x.version else found) rs r

-- A record whose frame is written behind the others.
pub emitted-Holds :
    (c : Crc) (w w' : RawWalSegmentWriter) (rs : List RawWalRecord) (r : RawWalRecord) {bs : List ℕ}
    → Holds c w rs
    → FitsFrame r
    → last_lsn 0 rs < r.lsn
    → emit_encoded c r ≡ ok bs
    → written w' ≡ written w ++ bs
    → w'.next_lsn ≡ min (r.lsn + 1) u64_max
    → Holds c w' (rs ++ r ∷ [])
unfolding emit_all
emitted-Holds c w w' rs r h fits above e bytes next = record {
  frames = rw (emit_all-append, h.frames, e, append-nil, bytes);
  fits = All-append FitsFrame rs (r ∷ []) h.fits (fits, tt);
  ascending = IsAscendingFrom-append 0 rs r h.ascending above;
  next = rw (last_lsn-append, next);
}

-- The record that an append writes.
abbrev pub record_of :
    List ℕ → Operation → List ℕ → Option (List ℕ) → ℕ → RawWalSegmentWriter → RawWalRecord
record_of collection op key value version w = record {
  lsn = w.next_lsn;
  version = version;
  collection = collection;
  op = op;
  key = key;
  value = value;
}

abbrev next_record :
    List ℕ → Operation → List ℕ → Option (List ℕ) → RawWalSegmentWriter → RawWalRecord
next_record collection op key value w =
    record_of collection op key value (next_record_version collection key w) w

-- An append of a record that fits, below the last LSN, is given the next LSN.
pub append_record-Holds :
    (c : Crc) (w : RawWalSegmentWriter) (rs : List RawWalRecord) (collection : List ℕ)
    (op : Operation) (key : List ℕ) (value : Option (List ℕ)) (version : ℕ) (track : Bool)
    → Holds c w rs
    → FitsFrame (record_of collection op key value version w)
    → last_lsn 0 rs < u64_max
    → (w' : RawWalSegmentWriter) × (append_record c collection op key value version track w
        ≡ (w', ok (last_lsn 0 rs + 1)))
      × Holds c w' (rs ++ record_of collection op key value version w ∷ [])
      × (w'.record_versions ≡ (
          if track then insert (collection, key) version w.record_versions else w.record_versions))
unfolding append_record
append_record-Holds c w rs collection op key value version track h fits room =
    let r = record_of collection op key value version w in
    let (bs, e, _, _, _) = emit_encoded-FitsFrame c r fits in
    let next : w.next_lsn ≡ last_lsn 0 rs + 1 = omega (arith, h.next) in
    let w' : RawWalSegmentWriter = record {
      file = w.file;
      buffer = w.buffer ++ bs;
      next_lsn = saturating_add_one w.next_lsn;
      record_versions =
          if track then insert (collection, key) version w.record_versions else w.record_versions;
    } in
    (
      w',
      rw (e, append_record, ← next),
      emitted-Holds c w w' rs r h fits (omega arith) e (rw append_assoc) refl,
      refl,
    )

-- The version behind the last one of a key, as a `u64`.
abbrev pub version_after : NamedKey → List RawWalRecord → ℕ
version_after k rs = elim (last_version k none rs) [ none ↦ 1 | some v ↦ (v + 1) % 2 ^ 64 ]

-- The record that comes behind the others.
abbrev pub following :
    List ℕ → Operation → List ℕ → Option (List ℕ) → List RawWalRecord → RawWalRecord
following collection op key value rs = record {
  lsn = last_lsn 0 rs + 1;
  version = version_after (collection, key) rs;
  collection = collection;
  op = op;
  key = key;
  value = value;
}

module _ (c : Crc) (w : RawWalSegmentWriter) (rs : List RawWalRecord) (h : Represents c w rs) where
  append_record-Represents :
      (collection : List ℕ) (op : Operation) (key : List ℕ) (value : Option (List ℕ))
      → FitsFrame (next_record collection op key value w)
      → last_lsn 0 rs < u64_max
      → let v = next_record_version collection key w in
        let (w', lsn) = append_record c collection op key value v true w in
        (lsn ≡ ok (last_lsn 0 rs + 1))
        × Represents c w' (rs ++ next_record collection op key value w ∷ [])
  append_record-Represents collection op key value fits room =
      let v = next_record_version collection key w in
      let (w', e, holds, versions) =
        append_record-Holds c w rs collection op key value v true h.holds fits room in
      rw e (
        refl,
        record {
          holds = holds;
          versions = λ k. rw (versions, last_version-append, lookup-insert, h.versions);
        },
      )

  -- The version that an append to a writer that stands for some records gives is one more than that
  -- of the key's last record, as a `u64`, or 1.
  next_record_version_lem :
      (collection key : List ℕ)
      → next_record_version collection key w ≡ version_after (collection, key) rs
  unfolding next_record_version
  next_record_version_lem collection key = rw (h.versions, next_record_version)

  following-next :
      (collection : List ℕ) (op : Operation) (key : List ℕ) (value : Option (List ℕ))
      → last_lsn 0 rs < u64_max
      → next_record collection op key value w ≡ following collection op key value rs
  following-next collection op key value room =
      let next : w.next_lsn ≡ last_lsn 0 rs + 1 = omega (arith, h.holds.next, room) in
      ap
        (λ (n : ℕ). record {
          lsn = n;
          version = next_record_version collection key w;
          collection = collection;
          op = op;
          key = key;
          value = value;
        })
        next
      ∙ ap
          (λ (v : ℕ). record {
            lsn = last_lsn 0 rs + 1;
            version = v;
            collection = collection;
            op = op;
            key = key;
            value = value;
          })
          (next_record_version_lem collection key)

  append_record-following :
      (collection : List ℕ) (op : Operation) (key : List ℕ) (value : Option (List ℕ))
      → FitsFrame (following collection op key value rs)
      → last_lsn 0 rs < u64_max
      → let v = next_record_version collection key w in
        let (w', lsn) = append_record c collection op key value v true w in
        (lsn ≡ ok (last_lsn 0 rs + 1))
        × Represents c w' (rs ++ following collection op key value rs ∷ [])
  append_record-following collection op key value fits room =
      let same = following-next collection op key value room in
      let version = next_record_version collection key w in
      let after = (append_record c collection op key value version true w).0 in
      let (lsn, represents) =
        append_record-Represents collection op key value (subst FitsFrame (sym same) fits) room in
      (lsn, subst (λ r. Represents c after (rs ++ r ∷ [])) same represents)

  -- A put to a writer that stands for some records, below the last LSN, where the record with
  -- the LSN after the last one, and as its version 1 or one more, as a `u64`, than that of the
  -- key's last record, fits: it is given that LSN, and the writer then stands for that record
  -- behind the others.
  pub append_put-Represents :
      (collection key value : List ℕ)
      → FitsFrame (following collection Operation.put key (some value) rs)
      → last_lsn 0 rs < u64_max
      → let (w', lsn) = append_put c collection key value w in
        (lsn ≡ ok (last_lsn 0 rs + 1))
        × Represents c w' (rs ++ following collection Operation.put key (some value) rs ∷ [])
  unfolding append_put
  append_put-Represents collection key value fits room =
      append_record-following collection Operation.put key (some value) fits room

  -- A delete to a writer that stands for some records, below the last LSN, where the record
  -- without a value, with the LSN after the last one, and as its version 1 or one more, as a
  -- `u64`, than that of the key's last record, fits: it is given that LSN, and the writer then
  -- stands for that record behind the others.
  pub append_delete-Represents :
      (collection key : List ℕ)
      → FitsFrame (following collection Operation.delete key none rs)
      → last_lsn 0 rs < u64_max
      → let (w', lsn) = append_delete c collection key w in
        (lsn ≡ ok (last_lsn 0 rs + 1))
        × Represents c w' (rs ++ following collection Operation.delete key none rs ∷ [])
  unfolding append_delete
  append_delete-Represents collection key fits room =
      append_record-following collection Operation.delete key none fits room
