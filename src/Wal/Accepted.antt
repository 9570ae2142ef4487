-- ===== src/Wal/Accepted.antt =====
-- What a round of the scan accepts (`scan_records_with_offsets` of
-- crates/mfs-store/src/store/wal.rs) is a frame that the writer writes.
use memory_first_store.Prelude.{
  ℕ, ◌+◌, ◌-◌, ◌≤◌, ◌≡◌, refl, ap, List, ◌++◌, arith, length, take, drop, length-drop, length-take,
  All-take, All-drop, drop-drop, take_add, le→ltb, ◌^◌,
}
use memory_first_store.Prelude.Fail.{ok}
use memory_first_store.Bytes.Words.{IsByte, IsBytes, le_bytes, of_le_bytes, le_bytes-of_le_bytes}
use memory_first_store.Wal.{RawWalRecord, Crc, raw_wal_max_payload_bytes, raw_wal_record_magic}
use memory_first_store.Wal.Encode.{checksum, frame, emit_encoded}
use memory_first_store.Wal.Decode.{decode_payload}
use memory_first_store.Wal.Frames.{FitsFrame}
use memory_first_store.Wal.Codec.{decode_payload-encode_payload}
use memory_first_store.Wal.Canonical.{encode_payload-decode_payload}
use memory_first_store.Wal.Scan.{found, next_record}

module _ (c : Crc) where
  pub next_record-found :
      (offset : ℕ) (bs : List ℕ) {r : RawWalRecord} {len : ℕ} {rest : List ℕ}
      → next_record c offset bs ≡ ok (found r len rest)
      → (12 ≤ len) × (len ≤ length bs) × (rest ≡ drop len bs)
  unfolding next_record
  next_record-found offset bs h = ground arith

  -- A word that was read, written again.
  word_again :
      (n : ℕ) (bs : List ℕ)
      → IsBytes bs
      → n ≤ length bs
      → le_bytes n (of_le_bytes (take n bs)) ≡ take n bs
  word_again n bs h fits =
      let size = length-take n bs fits in
      rw size at (le_bytes-of_le_bytes (take n bs) (All-take IsByte n bs h))

  -- The four parts of a frame, each word written again.
  frame_parts :
      (n : ℕ) (bs : List ℕ)
      → IsBytes bs
      → 12 + n ≤ length bs
      → take (8 + n + 4) bs
        ≡ le_bytes 4 (of_le_bytes (take 4 bs))
          ++ (le_bytes 4 (of_le_bytes (take 4 (drop 4 bs)))
              ++ (take n (drop 8 bs) ++ le_bytes 4 (of_le_bytes (take 4 (drop n (drop 8 bs))))))
  frame_parts n bs h fits =
      let behind = All-drop IsByte n (drop 8 bs) (All-drop IsByte 8 bs h) in
      let sum : 8 + n + 4 ≡ 4 + (4 + (n + 4)) = omega arith in
      rw (
        word_again 4 bs h (omega arith),
        word_again 4 (drop 4 bs) (All-drop IsByte 4 bs h) (omega (arith, length-drop 4 bs)),
        word_again 4 (drop n (drop 8 bs)) behind
            (omega (arith, length-drop n (drop 8 bs), length-drop 8 bs)),
        sum,
        take_add 4 (4 + (n + 4)) bs,
        take_add 4 (n + 4) (drop 4 bs),
        drop-drop 4 4 bs,
        take_add n 4 (drop 8 bs),
      )

  -- What the round checked of a record that it found.
  next_record-checks :
      (offset : ℕ) (bs : List ℕ) {r : RawWalRecord} {len : ℕ} {rest : List ℕ}
      → next_record c offset bs ≡ ok (found r len rest)
      → (n : ℕ) × (n ≡ of_le_bytes (take 4 (drop 4 bs)))
        × (len ≡ 8 + n + 4)
        × (n ≤ raw_wal_max_payload_bytes)
        × (of_le_bytes (take 4 bs) ≡ raw_wal_record_magic)
        × (checksum c (take n (drop 8 bs)) ≡ of_le_bytes (take 4 (drop n (drop 8 bs))))
        × (decode_payload offset (take n (drop 8 bs)) ≡ ok r)
  unfolding next_record
  next_record-checks offset bs h = (
    of_le_bytes (take 4 (drop 4 bs)),
    refl,
    ground arith,
    ground arith,
    ground arith,
    ground arith,
    ground arith,
  )

  -- The bytes of a record that is found are the frame that the writer writes for it.
  pub next_record-emit_encoded :
      (offset : ℕ) (bs : List ℕ) {r : RawWalRecord} {len : ℕ} {rest : List ℕ}
      → IsBytes bs
      → next_record c offset bs ≡ ok (found r len rest)
      → (emit_encoded c r ≡ ok (take len bs)) × FitsFrame r
  unfolding emit_encoded frame
  next_record-emit_encoded offset bs {r} {len} h e =
      let (big, fits, _) = next_record-found offset bs e in
      let (n, en, elen, small, magic, crc, decoded) = next_record-checks offset bs e in
      let payload = take n (drop 8 bs) in
      let (record_fits, encoded) =
        encode_payload-decode_payload offset payload r
          (All-take IsByte n _ (All-drop IsByte 8 bs h)) decoded in
      let size : length payload ≡ n = length-take n (drop 8 bs) (omega (arith, length-drop 8 bs)) in
      let (p', encoded', size', _) = decode_payload-encode_payload r record_fits in
      let same : p' ≡ payload = ground (arith, encoded, encoded') in
      let parts = frame_parts n bs h (omega arith) in
      (
        rw (
          encoded,
          le→ltb (2 ^ 32 - 1) (length payload) (omega arith),
          elen,
          parts,
          ← magic,
          size,
          crc,
          en,
        ),
        record {
          record_fits = record_fits;
          payload_fits = omega (arith, ap length same, size, size');
        },
      )
