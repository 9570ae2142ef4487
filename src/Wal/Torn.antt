-- ===== src/Wal/Torn.antt =====
-- What a scan leaves behind its last good offset (crates/mfs-store/src/store/wal.rs): no whole frame.
use memory_first_store.Prelude.{
  ℕ, zero, suc, ◌+◌, ◌≡◌, refl, sym, ◌∙◌, ap, some, List, ◌++◌, arith, length, drop, drop-drop,
}
use memory_first_store.Prelude.Fail.{Result, ok}
use memory_first_store.Errors.{StoreError}
use memory_first_store.Wal.{RawWalRecord, Crc}
use memory_first_store.Wal.Encode.{emit_encoded}
use memory_first_store.Wal.Frames.{FitsFrame, frame_length, emit_encoded-FitsFrame}
use memory_first_store.Wal.Accepted.{next_record-found}
use memory_first_store.Wal.Scan.{
  RawWalScan, no_records, finished, found, next_record, scan_loop, scan_records_with_offsets,
  scan_loop-finished, scan_loop-found,
}
use memory_first_store.Wal.Recovery.{fails, finishes, goes, round, scan_loop_total}

-- The bytes do not start with the frame of a record.
abbrev pub IsTorn : Crc → List ℕ → Type 0
IsTorn c bs =
    (r : RawWalRecord) (frame more : List ℕ)
    → FitsFrame r
    → emit_encoded c r ≡ ok frame
    → ¬ (bs ≡ frame ++ more)

module _ (c : Crc) where
  finished-IsTorn : (offset : ℕ) (bs : List ℕ) → next_record c offset bs ≡ ok finished → IsTorn c bs
  finished-IsTorn offset bs ends r frame more fits framed starts =
      let (frame', framed', size, finds, cut) = emit_encoded-FitsFrame c r fits in
      let same : frame' ≡ frame = ground (arith, framed, framed') in
      let there : next_record c offset bs ≡ ok (found r (frame_length r) more) =
        rw (starts, ← same) (finds offset more) in
      cc (sym ends ∙ there)

  module _ {ℓ} {S : Type ℓ} (on_record : S → RawWalRecord → Result StoreError S) where
    scan_loop-IsTorn :
        (fuel start : ℕ) (scan : RawWalScan) (s : S) (bs : List ℕ) {scan' : RawWalScan} {s' : S}
        → scan.last_good_offset ≡ start
        → scan_loop c on_record fuel start scan s bs ≡ some (ok (scan', s'))
        → (n : ℕ) × (scan'.last_good_offset ≡ start + n) × IsTorn c (drop n bs)
    unfolding scan_loop
    scan_loop-IsTorn zero start scan s bs at h = cc
    scan_loop-IsTorn (suc fuel) start scan s bs {scan'} at h =
        elim (round c on_record start scan s bs) [
          | fails e p ↦ cc (p fuel)
          | finishes p ↦
              let same = sym (scan_loop-finished c on_record fuel start scan s bs p) ∙ h in
              let end : scan ≡ scan' = ground (arith, same) in
              (0, rw (← end) (omega (arith, at)), finished-IsTorn start bs p)
          | goes r len rest s'' p above passed ↦
              let (big, fits, e) = next_record-found c start bs p in
              let step = scan_loop-found c on_record fuel start scan s bs p above passed in
              let (n, good, torn) =
                scan_loop-IsTorn fuel (start + len) _ s'' rest refl (sym step ∙ h) in
              (len + n, omega (arith, good), rw (e, drop-drop n len bs) at torn)
        ]

    -- A scan that succeeds ends at a place where no whole frame starts.
    pub scan_records_with_offsets-IsTorn :
        (s s' : S) (file : List ℕ) (scan : RawWalScan)
        → scan_records_with_offsets c on_record s (some file) ≡ ok (scan, s')
        → IsTorn c (drop scan.last_good_offset file)
    unfolding scan_records_with_offsets
    scan_records_with_offsets-IsTorn s s' file scan h =
        let fuel = suc (length file) in
        let (r, done) = scan_loop_total c on_record fuel 0 no_records s file (omega arith) in
        let same : scan_loop c on_record fuel 0 no_records s file ≡ some (ok (scan, s')) =
          done ∙ ap some (rw done at h) in
        let (n, end, torn) = scan_loop-IsTorn fuel 0 no_records s file refl same in
        let at : n ≡ scan.last_good_offset = omega (arith, end) in rw at at torn
