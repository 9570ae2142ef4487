-- ===== src/Wal/Crash.antt =====
-- Reading a segment of the log that a crash may have cut at any byte
-- (`scan_records_with_offsets` of crates/mfs-store/src/store/wal.rs).
use memory_first_store.Prelude.{
  ℕ, zero, suc, ◌+◌, ◌-◌, ◌<◌, ◌≤◌, ◌≡◌, refl, some, List, [], ◌∷◌, ◌++◌, arith, length, take, All,
  leb, if◌then◌else◌, append_assoc, append-nil, length-append, take-nil, take-append_ge,
  take-append_le, Bool-cases, inl, inr, le→leb, lt→leb, leb→le, leb→lt,
}
use memory_first_store.Prelude.Fail.{Result, ok, ◌>>=◌, Result-cases}
use memory_first_store.Errors.{StoreError}
use memory_first_store.Wal.{RawWalRecord, Crc}
use memory_first_store.Wal.Encode.{emit_encoded}
use memory_first_store.Wal.Scan.{
  RawWalScan, no_records, finished, found, next_record, scan_loop, scan_loop-finished,
  scan_loop-failed, scan_loop-found, scan_records_with_offsets, read_records, collect,
}
use memory_first_store.Wal.Frames.{FitsFrame, frame_length, emit_encoded-FitsFrame}

-- What the writer puts into a segment, record by record.
unfoldable pub emit_all : Crc → List RawWalRecord → Result StoreError (List ℕ)
emit_all c [] = ok []
emit_all c (r ∷ rs) = do bs ← emit_encoded c r; more ← emit_all c rs; ok (bs ++ more)

-- The LSNs ascend from a number.
abbrev pub IsAscendingFrom : ℕ → List RawWalRecord → Type 0
IsAscendingFrom n [] = Unit
IsAscendingFrom n (r ∷ rs) = (n < r.lsn) × IsAscendingFrom r.lsn rs

-- The records whose frames lie whole in the first `k` bytes.
unfoldable pub whole_records : ℕ → List RawWalRecord → List RawWalRecord
whole_records k [] = []
whole_records k (r ∷ rs) =
    let more = whole_records (k - frame_length r) rs in
    if leb (frame_length r) k then r ∷ more else []

abbrev pub sum_frames : List RawWalRecord → ℕ
sum_frames [] = 0
sum_frames (r ∷ rs) = frame_length r + sum_frames rs

-- The callback of the scan, called with each record in turn.
unfoldable pub call_each {ℓ} :
    {S : Type ℓ}
    → (S → RawWalRecord → Result StoreError S)
    → S
    → List RawWalRecord
    → Result StoreError S
call_each f s [] = ok s
call_each f s (r ∷ rs) = do s' ← f s r; call_each f s' rs

-- The statistics after records that start at an offset.
unfoldable pub scan_after : ℕ → RawWalScan → List RawWalRecord → RawWalScan
scan_after start scan [] = scan
scan_after start scan (r ∷ rs) =
    scan_after (start + frame_length r)
      (record {
        stats = record { records = scan.stats.records + 1; last_lsn = r.lsn };
        last_good_offset = start + frame_length r;
      })
      rs

module _ {ℓ} (c : Crc) {S : Type ℓ} (on_record : S → RawWalRecord → Result StoreError S) where
  -- What the loop gives for `rs` in the first `k` bytes of `file`.
  abbrev ScansTo : List ℕ → List RawWalRecord → Type ℓ
  ScansTo file rs =
      (fuel start k : ℕ) (scan : RawWalScan) (s : S)
      → length (take k file) < fuel
      → IsAscendingFrom scan.stats.last_lsn rs
      → scan_loop c on_record fuel start scan s (take k file)
        ≡ some (do
          s' ← call_each on_record s (whole_records k rs)
          ok (scan_after start scan (whole_records k rs), s'))

  nil_ScansTo : ScansTo [] []
  unfolding scan_loop call_each whole_records scan_after next_record
  nil_ScansTo zero start k scan s h a = absurd (omega arith)
  nil_ScansTo (suc fuel) start k scan s h a = rw take-nil

  cons_ScansTo :
      (r : RawWalRecord) (rs : List RawWalRecord) (bs more : List ℕ)
      → length bs ≡ frame_length r
      → ((offset : ℕ) (rest : List ℕ)
          → next_record c offset (bs ++ rest) ≡ ok (found r (frame_length r) rest))
      → ((offset k : ℕ) → k < frame_length r → next_record c offset (take k bs) ≡ ok finished)
      → ScansTo more rs
      → ScansTo (bs ++ more) (r ∷ rs)
  unfolding scan_loop call_each whole_records scan_after
  cons_ScansTo r rs bs more size at cut ih zero start k scan s h a = absurd (omega arith)
  cons_ScansTo r rs bs more size at cut ih (suc fuel) start k scan s h a =
      elim (Bool-cases (leb (frame_length r) k)) [
        | inl fits ↦
            let behind = take (k - frame_length r) more in
            let split : take k (bs ++ more) ≡ bs ++ behind =
              rw (← size)
                (take-append_ge k bs more (omega (arith, leb→le (frame_length r) k fits))) in
            let here = at start behind in
            let above = lt→leb r.lsn scan.stats.last_lsn a.0 in
            let less : length behind < fuel =
              omega (arith, length-append bs behind, rw split at h) in
            rw (fits, split)
              (elim (Result-cases (on_record s r)) [
                | inl (e, failed) ↦ rw (
                  scan_loop-failed c on_record fuel start scan s (bs ++ behind) here above failed,
                  failed,
                )
                | inr (s', passed) ↦
                    rw
                      (
                        scan_loop-found c on_record fuel start scan s (bs ++ behind) here above
                            passed,
                        passed,
                      )
                      (ih fuel (start + frame_length r) (k - frame_length r) _ s' less a.1)
              ])
        | inr short ↦
            let below = leb→lt (frame_length r) k short in
            rw (short, take-append_le k bs more (omega arith))
              (scan_loop-finished c on_record fuel start scan s (take k bs) (cut start k below))
      ]

  emit_all-ScansTo :
      (rs : List RawWalRecord)
      → All FitsFrame rs
      → (file : List ℕ) × (emit_all c rs ≡ ok file) × ScansTo file rs
  unfolding emit_all
  emit_all-ScansTo [] h = ([], refl, nil_ScansTo)
  emit_all-ScansTo (r ∷ rs) h =
      let (bs, e, size, at, cut) = emit_encoded-FitsFrame c r h.0 in
      let (more, es, ih) = emit_all-ScansTo rs h.1 in
      (bs ++ more, rw (e, es), cons_ScansTo r rs bs more size at cut ih)

  -- Cut the segment of records that fit and whose LSNs ascend after any `k` bytes: the scan calls
  -- the callback with exactly the records whose frames lie whole before the cut, returns their
  -- number, the last LSN and the end of the last whole frame, and fails only if the callback does.
  pub scan_records_with_offsets-cut :
      (rs : List RawWalRecord) (k : ℕ) (s : S)
      → All FitsFrame rs
      → IsAscendingFrom 0 rs
      → (file : List ℕ) × (emit_all c rs ≡ ok file)
        × (scan_records_with_offsets c on_record s (some (take k file)) ≡ (do
          s' ← call_each on_record s (whole_records k rs)
          ok (scan_after 0 no_records (whole_records k rs), s')))
  unfolding scan_records_with_offsets
  scan_records_with_offsets-cut rs k s h a =
      let (file, e, scans) = emit_all-ScansTo rs h in
      (file, e, rw (scans (suc (length (take k file))) 0 k no_records s (omega arith) a))

call_each-collect : (acc rs : List RawWalRecord) → call_each collect acc rs ≡ ok (acc ++ rs)
unfolding call_each
call_each-collect acc [] = rw append-nil
call_each-collect acc (r ∷ rs) = rw (call_each-collect (acc ++ r ∷ []) rs, append_assoc)

-- The records of a segment that is not cut.
pub whole_records-all :
    (k : ℕ) (rs : List RawWalRecord) → sum_frames rs ≤ k → whole_records k rs ≡ rs
unfolding whole_records
whole_records-all k [] h = refl
whole_records-all k (r ∷ rs) h = rw (
  le→leb (frame_length r) k (omega arith),
  whole_records-all (k - frame_length r) rs (omega arith),
)

-- Reading back the segment of records that fit and whose LSNs ascend, cut after any `k` bytes, gives
-- exactly the records whose frames lie whole before the cut, in order and without an error.
pub read_records-cut :
    (c : Crc) (rs : List RawWalRecord) (k : ℕ)
    → All FitsFrame rs
    → IsAscendingFrom 0 rs
    → (file : List ℕ) × (emit_all c rs ≡ ok file)
      × (read_records c (some (take k file)) ≡ ok (whole_records k rs))
unfolding read_records
read_records-cut c rs k h a =
    let (file, e, scans) = scan_records_with_offsets-cut c collect rs k [] h a in
    (file, e, rw (scans, call_each-collect))

-- The bytes of a segment are the bytes of its parts.
pub emit_all-append :
    (c : Crc) (rs more : List RawWalRecord)
    → emit_all c (rs ++ more) ≡ (do a ← emit_all c rs; b ← emit_all c more; ok (a ++ b))
unfolding emit_all
emit_all-append c [] more = elim (Result-cases (emit_all c more)) [
  | inl (e, h) ↦ rw h
  | inr (b, h) ↦ rw h
]
emit_all-append c (r ∷ rs) more =
    rw (emit_all-append c rs more) (elim (Result-cases (emit_encoded c r)) [
      | inl (e, h) ↦ rw h
      | inr (x, h) ↦ rw h (elim (Result-cases (emit_all c rs)) [
        | inl (e, h') ↦ rw h'
        | inr (y, h') ↦ rw h' (elim (Result-cases (emit_all c more)) [
          | inl (e, h'') ↦ rw h''
          | inr (z, h'') ↦ rw (h'', append_assoc)
        ])
      ])
    ])
