-- ===== src/Wal/Reopen.antt =====
-- What a writer of the log stands for: the records that it has been handed
-- (`RawWalSegmentWriter` of crates/mfs-store/src/store/wal.rs).
use mathlib.Core.Path.{subst}
use memory_first_store.Prelude.{
  ℕ, ◌+◌, ◌-◌, ◌≤◌, ◌≡◌, refl, sym, ◌∙◌, ap, min, max, Option, none, some, List, [], ◌∷◌, ◌++◌,
  arith, length, take, drop, All, ltb, leb, if◌then◌else◌, append-nil, ltb→le, leb→le,
  take-append-drop, take-append_ge, take_add, take-append, drop-append, Bool-cases, inl, inr,
  take_of_length-le,
}
use memory_first_store.Prelude.Fail.{ok, Result-cases}
use memory_first_store.Maps.{NamedKey, named_keyed, lookup, insert, lookup-insert}
use memory_first_store.Bytes.Words.{IsBytes}
use memory_first_store.Wal.{RawWalRecord, Crc}
use memory_first_store.Wal.Scan.{RawWalScan, no_records, scan_records_with_offsets}
use memory_first_store.Wal.Frames.{FitsFrame, frame_length, emit_encoded-FitsFrame}
use memory_first_store.Wal.Crash.{
  emit_all, IsAscendingFrom, whole_records, sum_frames, call_each, scan_after,
  scan_records_with_offsets-cut,
}
use memory_first_store.Wal.Recovery.{scan_records_with_offsets-accepts}
use memory_first_store.Wal.Torn.{IsTorn, scan_records_with_offsets-IsTorn}
use memory_first_store.Wal.Writer.{
  RawWalSegmentWriter, Seen, see, nothing_seen, append_state_for_path, open_writer, written,
  u64_max, saturating_add_one,
}

abbrev pub record_key : RawWalRecord → NamedKey
record_key r = (r.collection, r.key)

-- The version of the last record of a key.
unfoldable pub last_version : NamedKey → Option ℕ → List RawWalRecord → Option ℕ
last_version k found [] = found
last_version k found (r ∷ rs) =
    last_version k (if named_keyed.same (record_key r) k then some r.version else found) rs

unfoldable pub last_lsn : ℕ → List RawWalRecord → ℕ
last_lsn n [] = n
last_lsn n (r ∷ rs) = last_lsn r.lsn rs

-- The writer holds the frames of the records and goes on behind their last LSN.
pub record Holds (c : Crc) (w : RawWalSegmentWriter) (rs : List RawWalRecord) : Type 0 where
  pub frames : emit_all c rs ≡ ok (written w)
  pub fits : All FitsFrame rs
  pub ascending : IsAscendingFrom 0 rs
  pub next : w.next_lsn ≡ min (last_lsn 0 rs + 1) u64_max

-- It knows the last version of every key as well.
pub record Represents (c : Crc) (w : RawWalSegmentWriter) (rs : List RawWalRecord) : Type 0 where
  pub holds : Holds c w rs
  pub versions : (k : NamedKey) → lookup k w.record_versions ≡ last_version k none rs

call_each-see :
    (s : Seen) (rs : List RawWalRecord) {s' : Seen}
    → call_each see s rs ≡ ok s'
    → (s'.last_lsn ≡ last_lsn s.last_lsn rs)
      × ((k : NamedKey)
          → lookup k s'.record_versions ≡ last_version k (lookup k s.record_versions) rs)
unfolding call_each see last_lsn last_version
call_each-see s [] {s'} h = let e : s ≡ s' = ground (arith, h) in (rw e, λ k. rw e)
call_each-see s (r ∷ rs) h =
    let s1 : Seen = record {
      last_lsn = r.lsn;
      record_versions = insert (record_key r) r.version s.record_versions;
    } in
    let (l, v) = call_each-see s1 rs h in
    (
      l,
      λ k.
          v k
          ∙ ap (λ o. last_version k o rs)
              (lookup-insert (record_key r) k r.version s.record_versions),
    )

see_total : (s : Seen) (rs : List RawWalRecord) → (s' : Seen) × (call_each see s rs ≡ ok s')
unfolding call_each see
see_total s [] = (s, refl)
see_total s (r ∷ rs) =
    see_total
      (record {
        last_lsn = r.lsn;
        record_versions = insert (record_key r) r.version s.record_versions;
      })
      rs

max-one : (n : ℕ) → max (saturating_add_one n) 1 ≡ min (n + 1) u64_max
max-one n = omega arith

pub All-whole_records {ℓ} :
    (P : RawWalRecord → Type ℓ) (k : ℕ) (rs : List RawWalRecord)
    → All P rs
    → All P (whole_records k rs)
unfolding whole_records
All-whole_records P k [] h = tt
All-whole_records P k (r ∷ rs) h = elim (Bool-cases (leb (frame_length r) k)) [
  | inl fits ↦ rw fits (h.0, All-whole_records P (k - frame_length r) rs h.1)
  | inr cut ↦ rw cut tt
]

whole_records-ascending :
    (k n : ℕ) (rs : List RawWalRecord)
    → IsAscendingFrom n rs
    → IsAscendingFrom n (whole_records k rs)
unfolding whole_records
whole_records-ascending k n [] h = tt
whole_records-ascending k n (r ∷ rs) h = elim (Bool-cases (leb (frame_length r) k)) [
  | inl fits ↦ rw fits (h.0, whole_records-ascending (k - frame_length r) r.lsn rs h.1)
  | inr cut ↦ rw cut tt
]

cut_file : (n : ℕ) (bs : List ℕ) → (if ltb n (length bs) then take n bs else bs) ≡ take n bs
cut_file n bs = elim (Bool-cases (ltb n (length bs))) [
  | inl long ↦ rw long
  | inr short ↦ rw short (sym (take_of_length-le n bs (ltb→le n (length bs) short)))
]

-- The writer that is opened on a file whose scan saw some records.
scanned-Represents :
    (c : Crc) (bs : List ℕ) (rs : List RawWalRecord) (scan : RawWalScan) (seen : Seen)
    → scan_records_with_offsets c see nothing_seen (some bs) ≡ ok (scan, seen)
    → call_each see nothing_seen rs ≡ ok seen
    → emit_all c rs ≡ ok (take scan.last_good_offset bs)
    → All FitsFrame rs
    → IsAscendingFrom 0 rs
    → (w : RawWalSegmentWriter) × (open_writer c (some bs) ≡ ok w)
      × Represents c w rs
      × (w.file ≡ take scan.last_good_offset bs)
      × (w.buffer ≡ [])
unfolding open_writer append_state_for_path lookup
scanned-Represents c bs rs scan seen scanned called frames fits ascending =
    let (lsn, versions) = call_each-see nothing_seen rs called in
    (
      record {
        file = take scan.last_good_offset bs;
        buffer = [];
        next_lsn = max (saturating_add_one seen.last_lsn) 1;
        record_versions = seen.record_versions;
      },
      rw (scanned, cut_file),
      record {
        holds = record {
          frames = rw (append-nil, frames);
          fits = fits;
          ascending = ascending;
          next = rw (max-one, lsn);
        };
        versions = versions;
      },
      refl,
      refl,
    )

-- A segment of bytes that opens starts with the frames of some records that fit, whose LSNs
-- ascend, and behind them no frame of a record that fits starts. The writer's file is exactly
-- those frames, what was behind them is cut off, and it goes on from those records, behind the
-- last LSN and with the last version of every key.
pub open_writer-Represents :
    (c : Crc) (bs : List ℕ) (w : RawWalSegmentWriter)
    → IsBytes bs
    → open_writer c (some bs) ≡ ok w
    → (rs : List RawWalRecord) × (rest : List ℕ) × (bs ≡ w.file ++ rest)
      × (emit_all c rs ≡ ok w.file)
      × IsTorn c rest
      × Represents c w rs
unfolding open_writer append_state_for_path
open_writer-Represents c bs w bytes h =
    elim (Result-cases (scan_records_with_offsets c see nothing_seen (some bs))) [
      | inl (e, failed) ↦ cc (rw failed at h)
      | inr ((scan, seen), scanned) ↦
          let n = scan.last_good_offset in
          let (rs, frames, inside, fits, ascending, called, _) =
            scan_records_with_offsets-accepts c see nothing_seen seen bs scan bytes scanned in
          let torn = scan_records_with_offsets-IsTorn c see nothing_seen seen bs scan scanned in
          let (w', opened, represents, file, buffer) =
            scanned-Represents c bs rs scan seen scanned called frames fits ascending in
          let same : w' ≡ w = ground (arith, opened, h) in
          let kept : w.file ≡ take n bs = rw (← same) file in
          (
            rs,
            drop n bs,
            rw (kept, take-append-drop n bs),
            rw kept frames,
            torn,
            subst (λ x. Represents c x rs) same represents,
          )
    ]

scan_after-offset :
    (start : ℕ) (scan : RawWalScan) (rs : List RawWalRecord)
    → scan.last_good_offset ≡ start
    → (scan_after start scan rs).last_good_offset ≡ start + sum_frames rs
unfolding scan_after
scan_after-offset start scan [] h = omega arith
scan_after-offset start scan (r ∷ rs) h = omega (
  arith,
  scan_after-offset (start + frame_length r)
      (record {
        stats = record { records = scan.stats.records + 1; last_lsn = r.lsn };
        last_good_offset = start + frame_length r;
      })
      rs refl,
)

front_cut :
    (bs more : List ℕ) {m : ℕ} (n k : ℕ)
    → length bs ≡ m
    → m ≤ k
    → take (m + n) (take k (bs ++ more)) ≡ bs ++ take n (take (k - m) more)
front_cut bs more n k size fits =
    rw (← size, take-append_ge k bs more (rw size fits), take_add, take-append, drop-append)

-- The whole records before a cut are the front of the file, up to the end of the last of them.
emit_all-whole_records :
    (c : Crc) (k : ℕ) (rs : List RawWalRecord)
    → All FitsFrame rs
    → (file : List ℕ) × (emit_all c rs ≡ ok file)
      × (emit_all c (whole_records k rs)
          ≡ ok (take (sum_frames (whole_records k rs)) (take k file)))
unfolding emit_all whole_records
emit_all-whole_records c k [] h = ([], refl, refl)
emit_all-whole_records c k (r ∷ rs) h =
    let (bs, e, size, _, _) = emit_encoded-FitsFrame c r h.0 in
    let (more, es, ih) = emit_all-whole_records c (k - frame_length r) rs h.1 in
    (
      bs ++ more,
      rw (e, es),
      elim (Bool-cases (leb (frame_length r) k)) [
        | inl fits ↦
            let n = sum_frames (whole_records (k - frame_length r) rs) in
            rw (fits, e, ih)
              (ap ok (sym (front_cut bs more n k size (leb→le (frame_length r) k fits))))
        | inr short ↦ rw short
      ],
    )

-- Cut what a writer that holds some records has written after any `k` bytes, and open it again: the
-- opened writer stands for exactly the records whose frames lie whole before the cut, with their
-- last LSN and versions.
pub open_writer-cut :
    (c : Crc) (w : RawWalSegmentWriter) (rs : List RawWalRecord) (k : ℕ)
    → Holds c w rs
    → (w' : RawWalSegmentWriter) × (open_writer c (some (take k (written w))) ≡ ok w')
      × Represents c w' (whole_records k rs)
open_writer-cut c w rs k h =
    let kept = whole_records k rs in
    let (seen, called) = see_total nothing_seen kept in
    let (file, frames, scans) =
      scan_records_with_offsets-cut c see rs k nothing_seen h.fits h.ascending in
    let (file', frames', front) = emit_all-whole_records c k rs h.fits in
    let same : file ≡ written w = ground (arith, frames, h.frames) in
    let same' : file' ≡ written w = ground (arith, frames', h.frames) in
    let scan = scan_after 0 no_records kept in
    let offset : scan.last_good_offset ≡ sum_frames kept =
      omega (arith, scan_after-offset 0 no_records kept refl) in
    let (w', opened, represents, _, _) =
      scanned-Represents c (take k (written w)) kept scan seen (rw (← same, scans, called)) called
        (rw (offset, ← same', front)) (All-whole_records FitsFrame k rs h.fits)
        (whole_records-ascending k 0 rs h.ascending) in
    (w', opened, represents)
