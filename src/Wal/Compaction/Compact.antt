-- ===== src/Wal/Compaction/Compact.antt =====
-- The compacted segment holds the newest records (`compact_raw_wal` of
-- crates/mfs-store/src/store/wal.rs).
use memory_first_store.Prelude.{
  ℕ, ◌<◌, ◌≡◌, refl, ◌∙◌, max, none, some, List, [], ◌∷◌, ◌++◌, arith, length, All, append_assoc,
  append-nil,
}
use memory_first_store.Prelude.Fail.{ok}
use memory_first_store.Maps.{NamedKey, named_keyed, insert}
use memory_first_store.Wal.{RawWalRecord, Crc}
use memory_first_store.Wal.Frames.{FitsFrame, emit_encoded-FitsFrame}
use memory_first_store.Wal.Crash.{emit_all, IsAscendingFrom}
use memory_first_store.Wal.Writer.{
  RawWalSegmentWriter, open_writer, append_state_for_path, append_record_exact, flush, sync_now,
  written, saturating_add_one,
}
use memory_first_store.Wal.Reopen.{Holds, Represents, last_lsn, last_version}
use memory_first_store.Wal.Append.{emitted-Holds, last_lsn-append}
use memory_first_store.Wal.Whole.{read_records-Holds, open_writer-Holds}
use memory_first_store.Wal.Compaction.{
  retained, record_at, append_each, last, retained_lsn, compact_raw_wal,
}
use memory_first_store.Wal.Compaction.Newest.{indices, records, At, newest_records, retained_lem}
use memory_first_store.Wal.Compaction.Keeps.{
  All-newest_records, newest_records-IsAscendingFrom, last_lsn-newest_records,
  last_version-newest_records,
}

record_at-At :
    (rs : List RawWalRecord) (i : ℕ) (r : RawWalRecord) → At rs (i, r) → record_at rs i ≡ ok r
unfolding record_at
record_at-At rs i r h = rw (h, record_at)

module _ (c : Crc) where
  append_record_exact-Holds :
      (w : RawWalSegmentWriter) (rs : List RawWalRecord) (r : RawWalRecord)
      → Holds c w rs
      → FitsFrame r
      → last_lsn 0 rs < r.lsn
      → (w' : RawWalSegmentWriter) × (append_record_exact c r w ≡ (w', ok tt))
        × Holds c w' (rs ++ r ∷ [])
  unfolding append_record_exact
  append_record_exact-Holds w rs r h fits above =
      let (bs, e, _, _, _) = emit_encoded-FitsFrame c r fits in
      let w' : RawWalSegmentWriter = record {
        file = w.file;
        buffer = w.buffer ++ bs;
        next_lsn = max w.next_lsn (saturating_add_one r.lsn);
        record_versions = insert (r.collection, r.key) r.version w.record_versions;
      } in
      (
        w',
        rw (e, append_record_exact),
        emitted-Holds c w w' rs r h fits above e (rw append_assoc) (omega (arith, h.next)),
      )

  append_each-Holds :
      (rs : List RawWalRecord) (es : List (ℕ × RawWalRecord)) (w : RawWalSegmentWriter)
      (done : List RawWalRecord)
      → Holds c w done
      → All (At rs) es
      → All FitsFrame (records es)
      → IsAscendingFrom (last_lsn 0 done) (records es)
      → (w' : RawWalSegmentWriter) × (append_each c rs (indices es) w ≡ ok w')
        × Holds c w' (done ++ records es)
  unfolding append_each
  append_each-Holds rs [] w done h at fits above = (w, refl, rw append-nil h)
  append_each-Holds rs (e ∷ es) w done h at fits above =
      let (w1, appended, holds) = append_record_exact-Holds w done e.1 h fits.0 above.0 in
      let (w', rest, all) =
        append_each-Holds rs es w1 (done ++ e.1 ∷ []) holds at.1 fits.1
          (rw last_lsn-append above.1) in
      (w', rw (record_at-At rs e.0 e.1 at.0, appended, rest), rw append_assoc at all)

  last-indices :
      (rs : List RawWalRecord) (n : ℕ) (e : ℕ × RawWalRecord) (es : List (ℕ × RawWalRecord))
      → All (At rs) (e ∷ es)
      → (i : ℕ) × (r : RawWalRecord) × (last (indices (e ∷ es)) ≡ some i)
        × At rs (i, r)
        × (r.lsn ≡ last_lsn n (records (e ∷ es)))
  unfolding last last_lsn
  last-indices rs n e [] h = (e.0, e.1, refl, h.0, refl)
  last-indices rs n e (f ∷ es) h = last-indices rs e.1.lsn f es h.1

  retained_lsn-At :
      (rs : List RawWalRecord) (es : List (ℕ × RawWalRecord))
      → All (At rs) es
      → retained_lsn rs (indices es) ≡ ok (last_lsn 0 (records es))
  unfolding retained_lsn last last_lsn
  retained_lsn-At rs [] h = refl
  retained_lsn-At rs (e ∷ es) h =
      let (i, r, found, at, lsn) = last-indices rs 0 e es h in
      rw (found, retained_lsn, record_at-At rs i r at, lsn)

  abbrev new_writer : RawWalSegmentWriter
  new_writer = record { file = []; buffer = []; next_lsn = 1; record_versions = [] }

  open_writer-none : open_writer c none ≡ ok new_writer
  unfolding open_writer append_state_for_path
  open_writer-none = refl

  new_writer-Holds : Holds c new_writer []
  unfolding emit_all last_lsn
  new_writer-Holds = record { frames = refl; fits = tt; ascending = tt; next = refl }

  length-indices : (es : List (ℕ × RawWalRecord)) → length (indices es) ≡ length (records es)
  length-indices [] = refl
  length-indices (e ∷ es) = omega (arith, length-indices es)

  -- The compaction by the records that are retained.
  compact_raw_wal_kept :
      (w : RawWalSegmentWriter) (rs kept : List RawWalRecord) (es : List (ℕ × RawWalRecord))
      → Holds c w rs
      → retained rs ≡ indices es
      → records es ≡ kept
      → All (At rs) es
      → All FitsFrame kept
      → IsAscendingFrom 0 kept
      → (w1 : RawWalSegmentWriter) × (compact_raw_wal c (some (written w))
          ≡ ok (
            record {
              records_before = length rs;
              records_after = length kept;
              last_lsn = last_lsn 0 kept;
            },
            some (written w1),
          ))
        × Holds c w1 kept
  unfolding compact_raw_wal sync_now flush last_lsn
  compact_raw_wal_kept w rs kept es h places recs at fits above =
      let (w1, appended, holds) =
        append_each-Holds rs es new_writer [] new_writer-Holds at (rw recs fits) (rw recs above) in
      (
        w1,
        rw (
          read_records-Holds c w rs h,
          open_writer-none,
          places,
          appended,
          retained_lsn-At rs es at,
          length-indices es,
          recs,
        ),
        rw recs at holds,
      )

  -- Compacting the segment of a writer that holds some records succeeds, counts the records before
  -- and after and reports the last LSN; the new segment has the frames of the records without a
  -- later record of their key. Opened again, it gives a writer that stands for those records, goes
  -- on with the LSN that the old one had next, and knows the last version of every key of the old
  -- segment.
  pub compact_raw_wal-Represents :
      (w : RawWalSegmentWriter) (rs : List RawWalRecord)
      → Holds c w rs
      → (file : List ℕ) × (w' : RawWalSegmentWriter) × (compact_raw_wal c (some (written w))
          ≡ ok (
            record {
              records_before = length rs;
              records_after = length (newest_records rs);
              last_lsn = last_lsn 0 rs;
            },
            some file,
          ))
        × (emit_all c (newest_records rs) ≡ ok file)
        × (open_writer c (some file) ≡ ok w')
        × Represents c w' (newest_records rs)
        × (w'.next_lsn ≡ w.next_lsn)
        × ((k : NamedKey) → last_version k none (newest_records rs) ≡ last_version k none rs)
  compact_raw_wal-Represents w rs h =
      let kept = newest_records rs in
      let (es, places, recs, at) = retained_lem rs in
      let (w1, compacted, holds) =
        compact_raw_wal_kept w rs kept es h places recs at (All-newest_records FitsFrame rs h.fits)
          (newest_records-IsAscendingFrom 0 rs h.ascending) in
      let (w', opened, represents) = open_writer-Holds c w1 kept holds in
      (
        written w1,
        w',
        rw last_lsn-newest_records at compacted,
        holds.frames,
        opened,
        represents,
        represents.holds.next ∙ rw (last_lsn-newest_records, h.next),
        λ k. last_version-newest_records k none rs,
      )
