-- ===== src/Wal/Whole.antt =====
-- A segment that is not cut (crates/mfs-store/src/store/wal.rs).
use memory_first_store.Prelude.{
  ℕ, ◌≡◌, some, List, [], ◌∷◌, ◌++◌, arith, length, take, All, length-append, take_of_length-le,
}
use memory_first_store.Prelude.Fail.{ok, >>=-elim}
use memory_first_store.Wal.{RawWalRecord, Crc}
use memory_first_store.Wal.Scan.{read_records}
use memory_first_store.Wal.Frames.{FitsFrame, emit_encoded-FitsFrame}
use memory_first_store.Wal.Crash.{
  emit_all, sum_frames, whole_records, whole_records-all, read_records-cut,
}
use memory_first_store.Wal.Writer.{RawWalSegmentWriter, written, open_writer}
use memory_first_store.Wal.Reopen.{Holds, Represents, open_writer-cut}

pub length-emit_all :
    (c : Crc) (rs : List RawWalRecord) {file : List ℕ}
    → All FitsFrame rs
    → emit_all c rs ≡ ok file
    → length file ≡ sum_frames rs
unfolding emit_all
length-emit_all c [] h e = ground (arith, e)
length-emit_all c (r ∷ rs) {file} h e =
    let (bs, first, size, _, _) = emit_encoded-FitsFrame c r h.0 in
    >>=-elim (emit_all c rs) _ (rw (first, emit_all) at e) λ more rest whole.
      let same : bs ++ more ≡ file = ground (arith, whole) in
      rw (← same) (omega (arith, length-append bs more, size, length-emit_all c rs h.1 rest))

module _ (c : Crc) (w : RawWalSegmentWriter) (rs : List RawWalRecord) (h : Holds c w rs) where
  whole : whole_records (length (written w)) rs ≡ rs
  whole =
      whole_records-all (length (written w)) rs
        (omega (arith, length-emit_all c rs h.fits h.frames))

  all_bytes : take (length (written w)) (written w) ≡ written w
  all_bytes = take_of_length-le (length (written w)) (written w) (omega arith)

  pub read_records-Holds : read_records c (some (written w)) ≡ ok rs
  read_records-Holds =
      let (file, frames, reads) = read_records-cut c rs (length (written w)) h.fits h.ascending in
      let same : file ≡ written w = ground (arith, frames, h.frames) in
      rw (same, all_bytes, whole) at reads

  pub open_writer-Holds :
      (w' : RawWalSegmentWriter) × (open_writer c (some (written w)) ≡ ok w') × Represents c w' rs
  open_writer-Holds =
      let (w', opened, represents) = open_writer-cut c w rs (length (written w)) h in
      (w', rw all_bytes at opened, rw whole at represents)
