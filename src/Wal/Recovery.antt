-- ===== src/Wal/Recovery.antt =====
-- The scan of arbitrary bytes (crates/mfs-store/src/store/wal.rs): it ends, and what it accepts is
-- a prefix that a second scan accepts whole.
use memory_first_store.Prelude.{
  ℕ, zero, suc, ◌+◌, ◌<◌, ◌≤◌, ◌≡◌, refl, sym, ◌∙◌, ap, false, some, List, [], ◌∷◌, arith, length,
  take, All, leb, Bool-cases, inl, inr, length-drop, length-take, All-drop, take_add, leb→lt,
}
use memory_first_store.Prelude.Fail.{Result, ok, err, Result-cases}
use memory_first_store.Errors.{StoreError, WalCorruptionKind}
use memory_first_store.Bytes.Words.{IsByte, IsBytes}
use memory_first_store.Wal.{RawWalRecord, Crc}
use memory_first_store.Wal.Encode.{corrupt}
use memory_first_store.Wal.Frames.{FitsFrame, frame_length, emit_encoded-FitsFrame}
use memory_first_store.Wal.Crash.{emit_all, IsAscendingFrom, call_each, scan_after}
use memory_first_store.Wal.Accepted.{next_record-found, next_record-emit_encoded}
use memory_first_store.Wal.Scan.{
  RawWalScan, no_records, Found, finished, found, next_record, scan_loop, scan_records_with_offsets,
  scan_loop-finished, scan_loop-found,
}

module _ (c : Crc) where
  module _ {ℓ} {S : Type ℓ} (on_record : S → RawWalRecord → Result StoreError S) where
    -- How a round of the loop goes.
    pub data Round (start : ℕ) (scan : RawWalScan) (s : S) (bs : List ℕ) : Type ℓ where
      fails :
          (e : StoreError)
          → ((fuel : ℕ) → scan_loop c on_record (suc fuel) start scan s bs ≡ some (err e))
          → Round start scan s bs
      finishes : next_record c start bs ≡ ok finished → Round start scan s bs
      goes :
          (r : RawWalRecord) (len : ℕ) (rest : List ℕ) (s' : S)
          → next_record c start bs ≡ ok (found r len rest)
          → leb r.lsn scan.stats.last_lsn ≡ false
          → on_record s r ≡ ok s'
          → Round start scan s bs

    pub round : (start : ℕ) (scan : RawWalScan) (s : S) (bs : List ℕ) → Round start scan s bs
    unfolding scan_loop
    round start scan s bs = at_found (next_record c start bs) refl
      where
        at_found :
            (f : Result StoreError Found) → next_record c start bs ≡ f → Round start scan s bs
        at_found (err e) p = fails e (λ fuel. rw (p, scan_loop))
        at_found (ok finished) p = finishes p
        at_found (ok (found r len rest)) p = elim (Bool-cases (leb r.lsn scan.stats.last_lsn)) [
          | inl low ↦
              fails (corrupt start WalCorruptionKind.non_monotonic_lsn)
                (λ fuel. rw (p, scan_loop, low))
          | inr above ↦ elim (Result-cases (on_record s r)) [
            | inl (e, failed) ↦ fails e (λ fuel. rw (p, scan_loop, above, failed))
            | inr (s', passed) ↦ goes r len rest s' p above passed
          ]
        ]

    -- The scan of any bytes ends.
    pub scan_loop_total :
        (fuel start : ℕ) (scan : RawWalScan) (s : S) (bs : List ℕ)
        → length bs < fuel
        → (r : Result StoreError (RawWalScan × S)) × (scan_loop c on_record fuel start scan s bs
            ≡ some r)
    scan_loop_total zero start scan s bs h = absurd (omega arith)
    scan_loop_total (suc fuel) start scan s bs h = elim (round start scan s bs) [
      | fails e p ↦ (err e, p fuel)
      | finishes p ↦ (ok (scan, s), scan_loop-finished c on_record fuel start scan s bs p)
      | goes r len rest s' p above passed ↦
          let (big, fits, e) = next_record-found c start bs p in
          let less : length rest < fuel = rw e (omega (arith, length-drop len bs)) in
          rw (scan_loop-found c on_record fuel start scan s bs p above passed)
            (scan_loop_total fuel (start + len) _ s' rest less)
    ]

    -- What the loop accepts: records whose frames are the front of the bytes.
    scan_loop-accepts :
        (fuel start : ℕ) (scan : RawWalScan) (s : S) (bs : List ℕ) {scan' : RawWalScan} {s' : S}
        → IsBytes bs
        → scan.last_good_offset ≡ start
        → scan_loop c on_record fuel start scan s bs ≡ some (ok (scan', s'))
        → (rs : List RawWalRecord) × (n : ℕ) × (emit_all c rs ≡ ok (take n bs))
          × (n ≤ length bs)
          × (scan'.last_good_offset ≡ start + n)
          × All FitsFrame rs
          × IsAscendingFrom scan.stats.last_lsn rs
          × (call_each on_record s rs ≡ ok s')
          × (scan_after start scan rs ≡ scan')
    unfolding scan_loop call_each scan_after emit_all
    scan_loop-accepts zero start scan s bs bytes at h = cc
    scan_loop-accepts (suc fuel) start scan s bs bytes at h = elim (round start scan s bs) [
      | fails e p ↦ cc (p fuel)
      | finishes p ↦
          let same = sym (scan_loop-finished c on_record fuel start scan s bs p) ∙ h in
          (
            [],
            0,
            refl,
            omega arith,
            ground (arith, same),
            tt,
            tt,
            ground (arith, same),
            ground (arith, same),
          )
      | goes r len rest s'' p above passed ↦
          let (big, fits, e) = next_record-found c start bs p in
          let (emitted, frame_fits) = next_record-emit_encoded c start bs bytes p in
          let (front, emitted', size, _, _) = emit_encoded-FitsFrame c r frame_fits in
          let same : front ≡ take len bs = ground (arith, emitted, emitted') in
          let len_eq : len ≡ frame_length r =
            omega (arith, ap length same, size, length-take len bs fits) in
          let step = scan_loop-found c on_record fuel start scan s bs p above passed in
          let rest_bytes : IsBytes rest = rw e (All-drop IsByte len bs bytes) in
          let (rs, n, file, inside, good, all, asc, called, after) =
            scan_loop-accepts fuel (start + len) _ s'' rest rest_bytes refl (sym step ∙ h) in
          (
            r ∷ rs,
            len + n,
            rw (emitted, file, e, take_add),
            omega (arith, length-drop len bs, rw e at inside),
            omega arith,
            (frame_fits, all),
            (leb→lt r.lsn scan.stats.last_lsn above, asc),
            rw (passed, called),
            rw (← len_eq) after,
          )
    ]

    -- If the scan of a file of bytes succeeds, the bytes up to `last_good_offset` are exactly what
    -- the writer writes for some records that fit and whose LSNs ascend, the callback has taken
    -- those records in turn, and the statistics are theirs.
    pub scan_records_with_offsets-accepts :
        (s s' : S) (file : List ℕ) (scan : RawWalScan)
        → IsBytes file
        → scan_records_with_offsets c on_record s (some file) ≡ ok (scan, s')
        → (rs : List RawWalRecord) × (emit_all c rs ≡ ok (take scan.last_good_offset file))
          × (scan.last_good_offset ≤ length file)
          × All FitsFrame rs
          × IsAscendingFrom 0 rs
          × (call_each on_record s rs ≡ ok s')
          × (scan_after 0 no_records rs ≡ scan)
    unfolding scan_records_with_offsets
    scan_records_with_offsets-accepts s s' file scan bytes h =
        let fuel = suc (length file) in
        let (r, done) = scan_loop_total fuel 0 no_records s file (omega arith) in
        let same : scan_loop c on_record fuel 0 no_records s file ≡ some (ok (scan, s')) =
          done ∙ ap some (rw done at h) in
        let (rs, n, written, inside, good, all, asc, called, after) =
          scan_loop-accepts fuel 0 no_records s file bytes refl same in
        let end : scan.last_good_offset ≡ n = omega arith in
        (rs, rw end written, rw end inside, all, asc, called, after)

    -- The scan of any bytes does not run out of the model's fuel.
    pub scan_records_with_offsets_total :
        (s : S) (file : List ℕ)
        → (r : Result StoreError (RawWalScan × S)) × (scan_loop c on_record
              (suc (length file))
              0
              no_records
              s
              file
            ≡ some r)
          × (scan_records_with_offsets c on_record s (some file) ≡ r)
    unfolding scan_records_with_offsets
    scan_records_with_offsets_total s file =
        let (r, done) = scan_loop_total (suc (length file)) 0 no_records s file (omega arith) in
        (r, done, rw done)
