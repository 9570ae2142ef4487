-- ===== src/Wal/Frames.antt =====
-- One frame of the log: what a round of the scan finds at a whole frame and at a cut one
-- (crates/mfs-store/src/store/wal.rs).
use memory_first_store.Prelude.{
  ℕ, ◌+◌, ◌-◌, ◌^◌, ◌<◌, ◌≤◌, ◌≡◌, refl, true, List, ◌++◌, arith, length, take, drop, ◌==◌, ltb,
  append_assoc, length-append, length-take, le→ltb, lt→ltb, take-append_of_eq, drop-append_of_eq,
  take-append_ge, ==_iff, Bool-cases, inl, inr, ltb→le,
}
use memory_first_store.Prelude.Fail.{ok}
use memory_first_store.Bytes.Words.{le_bytes, of_le_bytes, length-le_bytes, of_le_bytes-le_bytes}
use memory_first_store.Wal.{RawWalRecord, Crc, raw_wal_record_magic, raw_wal_max_payload_bytes}
use memory_first_store.Wal.Encode.{checksum, frame, emit_encoded}
use memory_first_store.Wal.Decode.{decode_payload}
use memory_first_store.Wal.Codec.{FitsRecord, payload_length, decode_payload-encode_payload}
use memory_first_store.Wal.Scan.{finished, found, next_record}

-- A record that fits, with a payload that the scan accepts.
pub record FitsFrame (r : RawWalRecord) : Type 0 where
  pub record_fits : FitsRecord r
  pub payload_fits : payload_length r ≤ raw_wal_max_payload_bytes

abbrev pub frame_length : RawWalRecord → ℕ
frame_length r = 12 + payload_length r

module _ (c : Crc) where
  checksum-u32 : (payload : List ℕ) → checksum c payload < 2 ^ 32
  unfolding checksum
  checksum-u32 payload = c.crc32c_append_u32 _ payload

  abbrev sum_bytes : List ℕ → List ℕ
  sum_bytes payload = le_bytes 4 (checksum c payload)

  length-frame : (payload : List ℕ) → length (frame c payload) ≡ 12 + length payload
  unfolding frame
  length-frame payload = omega (
    arith,
    length-append (le_bytes 4 raw_wal_record_magic)
        (le_bytes 4 (length payload) ++ (payload ++ sum_bytes payload)),
    length-append (le_bytes 4 (length payload)) (payload ++ sum_bytes payload),
    length-append payload (sum_bytes payload),
    length-le_bytes 4 raw_wal_record_magic,
    length-le_bytes 4 (length payload),
    length-le_bytes 4 (checksum c payload),
  )

  -- The two words of a header, whatever follows them.
  header_magic :
      (n : ℕ) (rest : List ℕ)
      → of_le_bytes (take 4 (le_bytes 4 raw_wal_record_magic ++ (le_bytes 4 n ++ rest)))
        ≡ raw_wal_record_magic
  header_magic n rest =
      rw
        (take-append_of_eq (le_bytes 4 raw_wal_record_magic) (le_bytes 4 n ++ rest)
          (length-le_bytes 4 raw_wal_record_magic))
        (of_le_bytes-le_bytes 4 raw_wal_record_magic (omega arith))

  header_length :
      (n : ℕ) (rest : List ℕ)
      → n < 2 ^ 32
      → of_le_bytes (take 4 (drop 4 (le_bytes 4 raw_wal_record_magic ++ (le_bytes 4 n ++ rest))))
        ≡ n
  header_length n rest h =
      rw
        (
          drop-append_of_eq (le_bytes 4 raw_wal_record_magic) (le_bytes 4 n ++ rest)
              (length-le_bytes 4 raw_wal_record_magic),
          take-append_of_eq (le_bytes 4 n) rest (length-le_bytes 4 n),
        )
        (of_le_bytes-le_bytes 4 n h)

  header_rest :
      (n : ℕ) (rest : List ℕ)
      → drop 8 (le_bytes 4 raw_wal_record_magic ++ (le_bytes 4 n ++ rest)) ≡ rest
  header_rest n rest = rw (← append_assoc) (
      drop-append_of_eq {n = 8} (le_bytes 4 raw_wal_record_magic ++ le_bytes 4 n) rest (
        omega (
          arith,
          length-append (le_bytes 4 raw_wal_record_magic) (le_bytes 4 n),
          length-le_bytes 4 raw_wal_record_magic,
          length-le_bytes 4 n,
        )))

  ==_self : (n : ℕ) → (n == n) ≡ true
  ==_self n = (==_iff n n).1 refl

  module _ (offset : ℕ) (payload rest : List ℕ) where
    abbrev sealed : List ℕ
    sealed = payload ++ (sum_bytes payload ++ rest)

    abbrev whole : List ℕ
    whole = le_bytes 4 raw_wal_record_magic ++ (le_bytes 4 (length payload) ++ sealed)

    frame-append : frame c payload ++ rest ≡ whole
    unfolding frame
    frame-append = simp append_assoc

    length-whole : length whole ≡ 12 + length payload + length rest
    length-whole =
        rw (← frame-append)
          (omega (arith, length-append (frame c payload) rest, length-frame payload))

    drop-whole : drop (12 + length payload) whole ≡ rest
    drop-whole =
        rw (← frame-append) (drop-append_of_eq (frame c payload) rest (length-frame payload))

    stored_sum : of_le_bytes (take 4 (drop (length payload) sealed)) ≡ checksum c payload
    stored_sum =
        rw
          (
            drop-append_of_eq payload (sum_bytes payload ++ rest) refl,
            take-append_of_eq (sum_bytes payload) rest (length-le_bytes 4 (checksum c payload)),
          )
          (of_le_bytes-le_bytes 4 (checksum c payload) (omega (arith, checksum-u32 payload)))

    next_record-frame :
        (r : RawWalRecord)
        → length payload ≤ raw_wal_max_payload_bytes
        → decode_payload offset payload ≡ ok r
        → next_record c offset whole ≡ ok (found r (12 + length payload) rest)
    unfolding next_record
    next_record-frame r fits back =
        let len : 8 + length payload + 4 ≡ 12 + length payload = omega arith in
        rw (
          header_magic (length payload) sealed,
          header_length (length payload) sealed (omega arith),
          header_rest (length payload) sealed,
          take-append_of_eq payload (sum_bytes payload ++ rest) refl,
          stored_sum,
          ==_self,
          le→ltb (length whole) 8 (omega (arith, length-whole)),
          back,
          len,
          le→ltb (length whole) (12 + length payload) (omega (arith, length-whole)),
          le→ltb raw_wal_max_payload_bytes (length payload) fits,
          drop-whole,
        )

  -- A cut below the end of a frame, with any number of its bytes, ends the scan without an error.
  next_record-cut :
      (offset : ℕ) (payload : List ℕ) (k : ℕ)
      → length payload ≤ raw_wal_max_payload_bytes
      → k < 12 + length payload
      → next_record c offset (take k (frame c payload)) ≡ ok finished
  unfolding next_record
  next_record-cut offset payload k fits cut = elim (Bool-cases (ltb k 8)) [
    | inl short ↦ rw (size, short)
    | inr long ↦ rw (
      size,
      long,
      header (ltb→le k 8 long),
      header_magic (length payload) tail,
      header_length (length payload) tail (omega arith),
      lt→ltb k (8 + length payload + 4) (omega arith),
    )
  ]
    where
      size : length (take k (frame c payload)) ≡ k
      size = length-take k (frame c payload) (omega (arith, length-frame payload))

      tail : List ℕ
      tail = take (k - 4 - 4) (payload ++ sum_bytes payload)

      header :
          8 ≤ k
          → take k (frame c payload)
            ≡ le_bytes 4 raw_wal_record_magic ++ (le_bytes 4 (length payload) ++ tail)
      header h =
          let m = le_bytes 4 raw_wal_record_magic in
          let n = le_bytes 4 (length payload) in
          let lm : length m ≡ 4 = length-le_bytes 4 raw_wal_record_magic in
          let ln : length n ≡ 4 = length-le_bytes 4 (length payload) in
          unfold frame in
          rw (
            take-append_ge k m (n ++ (payload ++ sum_bytes payload)) (omega arith),
            lm,
            take-append_ge (k - 4) n (payload ++ sum_bytes payload) (omega arith),
            ln,
          )

  -- What `emit_encoded` writes for a record that fits.
  pub emit_encoded-FitsFrame :
      (r : RawWalRecord)
      → FitsFrame r
      → (bs : List ℕ) × (emit_encoded c r ≡ ok bs)
        × (length bs ≡ frame_length r)
        × ((offset : ℕ) (rest : List ℕ)
            → next_record c offset (bs ++ rest) ≡ ok (found r (frame_length r) rest))
        × ((offset k : ℕ) → k < frame_length r → next_record c offset (take k bs) ≡ ok finished)
  unfolding emit_encoded
  emit_encoded-FitsFrame r h =
      let (payload, e, size, back) = decode_payload-encode_payload r h.record_fits in
      let fits : length payload ≤ raw_wal_max_payload_bytes = omega (arith, size, h.payload_fits) in
      (
        frame c payload,
        rw (e, le→ltb (2 ^ 32 - 1) (length payload) (omega arith)),
        omega (arith, length-frame payload),
        λ offset rest.
            rw (frame-append offset payload rest, ← size)
              (next_record-frame offset payload rest r fits (back offset)),
        λ offset k cut. next_record-cut offset payload k fits (omega arith),
      )
