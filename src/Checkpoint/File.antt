-- ===== src/Checkpoint/File.antt =====
-- A checkpoint file is read back as it was written, and one that was cut short is refused
-- (crates/mfs-store/src/store/checkpoint.rs).
use memory_first_store.Prelude.{
  ℕ, ◌+◌, ◌<◌, ◌≤◌, ◌≡◌, refl, true, false, List, ◌++◌, arith, length, take, drop, ltb, ◌==◌,
  ==_iff, append_assoc, length-append, length-take, le→ltb, take-append_of_eq, take_of_length-le,
  drop-append_of_eq, take-take_le, window-take, Bool-cases, inl, inr, ltb→le,
}
use memory_first_store.Prelude.Fail.{ok, err}
use memory_first_store.Bytes.Words.{le_bytes, of_le_bytes, length-le_bytes, of_le_bytes-le_bytes}
use memory_first_store.Wal.{Crc}
use memory_first_store.Store.{MfsStoreConfig}
use memory_first_store.Checkpoint.{
  RawStoreSnapshot, raw_checkpoint_magic, raw_checkpoint_format_version,
  max_checkpoint_payload_bytes,
}
use memory_first_store.Checkpoint.Encode.{checkpoint_body, checkpoint_file, encode_checkpoint}
use memory_first_store.Checkpoint.Decode.{malformed, decode_payload, decode_checkpoint}
use memory_first_store.Checkpoint.Fits.{FitsSnapshot, payload_size}
use memory_first_store.Checkpoint.Payload.{FitsNumbers, written_metadata, payload_ReadsBack}

-- Five pieces in a row, of which the first three have 4, 2 and 8 bytes.
module _ (m v l p s : List ℕ) (hm : length m ≡ 4) (hv : length v ≡ 2) (hl : length l ≡ 8) where
  abbrev joined : List ℕ
  joined = (m ++ (v ++ (l ++ p))) ++ s

  piece_magic : take 4 joined ≡ m
  piece_magic = rw append_assoc (take-append_of_eq m _ hm)

  piece_version : take 2 (drop 4 joined) ≡ v
  piece_version =
      rw (append_assoc, append_assoc, drop-append_of_eq m (v ++ ((l ++ p) ++ s)) hm)
        (take-append_of_eq v _ hv)

  regroup : joined ≡ (m ++ v) ++ (l ++ (p ++ s))
  regroup = simp append_assoc

  piece_length : take 8 (drop 6 joined) ≡ l
  piece_length =
      rw
        (
          regroup,
          drop-append_of_eq {n = 6} (m ++ v) (l ++ (p ++ s)) (omega (arith, length-append m v)),
        )
        (take-append_of_eq l _ hl)

  behind_header : drop 14 joined ≡ p ++ s
  behind_header =
      let front : length ((m ++ v) ++ l) ≡ 14 =
        omega (arith, length-append (m ++ v) l, length-append m v) in
      rw (regroup, ← append_assoc (m ++ v) l (p ++ s)) (drop-append_of_eq ((m ++ v) ++ l) _ front)

  piece_payload : take (length p) (drop 14 joined) ≡ p
  piece_payload = rw behind_header (take-append_of_eq p s refl)

  length_body : length (m ++ (v ++ (l ++ p))) ≡ 14 + length p
  length_body =
      omega (arith, length-append m (v ++ (l ++ p)), length-append v (l ++ p), length-append l p)

  piece_sum : length s ≡ 4 → take 4 (drop (14 + length p) joined) ≡ s
  piece_sum hs =
      rw (drop-append_of_eq (m ++ (v ++ (l ++ p))) s length_body)
        (rw (← hs) (take_of_length-le (length s) s (omega arith)))

  piece_body : take (14 + length p) joined ≡ m ++ (v ++ (l ++ p))
  piece_body = take-append_of_eq (m ++ (v ++ (l ++ p))) s length_body

module _ (c : Crc) (config : MfsStoreConfig) (lsn : ℕ) (snapshot : RawStoreSnapshot) where
  module _ (payload : List ℕ) (few : length payload ≤ max_checkpoint_payload_bytes) where
    abbrev magic : List ℕ
    magic = le_bytes 4 raw_checkpoint_magic

    abbrev format : List ℕ
    format = le_bytes 2 raw_checkpoint_format_version

    abbrev size_word : List ℕ
    size_word = le_bytes 8 (length payload)

    abbrev body : List ℕ
    body = magic ++ (format ++ (size_word ++ payload))

    abbrev sum : List ℕ
    sum = le_bytes 4 (c.crc32c body)

    abbrev file : List ℕ
    file = body ++ sum

    sizes : (length magic ≡ 4) × (length format ≡ 2) × (length size_word ≡ 8) × (length sum ≡ 4)
    sizes = (
      length-le_bytes 4 raw_checkpoint_magic,
      length-le_bytes 2 raw_checkpoint_format_version,
      length-le_bytes 8 (length payload),
      length-le_bytes 4 (c.crc32c body),
    )

    length-file : length file ≡ 18 + length payload
    length-file =
        let (m, v, l, s) = sizes in
        omega (arith, length-append body sum, length_body magic format size_word payload sum m v l)

    header_magic : of_le_bytes (take 4 file) ≡ raw_checkpoint_magic
    header_magic =
        let (m, v, l, s) = sizes in
        rw (piece_magic magic format size_word payload sum m v l)
          (of_le_bytes-le_bytes 4 raw_checkpoint_magic (omega arith))

    header_version : of_le_bytes (take 2 (drop 4 file)) ≡ raw_checkpoint_format_version
    header_version =
        let (m, v, l, s) = sizes in
        rw (piece_version magic format size_word payload sum m v l)
          (of_le_bytes-le_bytes 2 raw_checkpoint_format_version (omega arith))

    header_length : of_le_bytes (take 8 (drop 6 file)) ≡ length payload
    header_length =
        let (m, v, l, s) = sizes in
        rw (piece_length magic format size_word payload sum m v l)
          (of_le_bytes-le_bytes 8 (length payload) (omega arith))

    stored_sum : of_le_bytes (take 4 (drop (14 + length payload) file)) ≡ c.crc32c body
    stored_sum =
        let (m, v, l, s) = sizes in
        rw (piece_sum magic format size_word payload sum m v l s)
          (of_le_bytes-le_bytes 4 (c.crc32c body) (omega (arith, c.crc32c_u32 body)))

    ==_self : (n : ℕ) → (n == n) ≡ true
    ==_self n = (==_iff n n).1 refl

    decode_checkpoint-file :
        (path : List ℕ)
        → decode_checkpoint path c file ≡ decode_payload path raw_checkpoint_format_version payload
    unfolding decode_checkpoint
    decode_checkpoint-file path =
        let (m, v, l, s) = sizes in
        rw (
          header_magic,
          header_version,
          header_length,
          length-file,
          stored_sum,
          piece_body magic format size_word payload sum m v l,
          piece_payload magic format size_word payload sum m v l,
          le→ltb (18 + length payload) 18 (omega arith),
          le→ltb max_checkpoint_payload_bytes (length payload) few,
          ==_self (c.crc32c body),
          (==_iff (18 + length payload) (14 + length payload + 4)).1 (omega arith),
        )

    decode_checkpoint-cut_file :
        (path : List ℕ) (k : ℕ)
        → k < length file
        → decode_checkpoint path c (take k file) ≡ err (malformed path)
    unfolding decode_checkpoint
    decode_checkpoint-cut_file path k h =
        let size = length-take k file (omega arith) in
        elim (Bool-cases (ltb k 18)) [
          | inl short ↦ rw (size, short)
          | inr long ↦
              let far = ltb→le k 18 long in
              let uneven : (k == 14 + length payload + 4) ≡ false =
                ground (arith, length-file, h) in
              rw (
                size,
                long,
                take-take_le 4 k file (omega arith),
                window-take 4 2 k file (omega arith),
                window-take 6 8 k file (omega arith),
                header_magic,
                header_version,
                header_length,
                le→ltb max_checkpoint_payload_bytes (length payload) few,
                uneven,
              )
        ]

  -- A snapshot whose names are text and not empty, whose fields and payload are within the
  -- limits, and whose versions and numbers are `u64`, the versions not zero, is encoded, and the
  -- file is decoded under any path to the same metadata and the same snapshot.
  pub decode_checkpoint-encode_checkpoint :
      FitsSnapshot snapshot
      → FitsNumbers config lsn
      → (path : List ℕ)
      → (bs : List ℕ) × (encode_checkpoint c (written_metadata config lsn snapshot) snapshot
          ≡ ok bs)
        × (length bs ≡ 18 + payload_size snapshot)
        × (decode_checkpoint path c bs
            ≡ ok (record { metadata = written_metadata config lsn snapshot; snapshot = snapshot }))
  unfolding encode_checkpoint checkpoint_file checkpoint_body
  decode_checkpoint-encode_checkpoint h numbers path =
      let (payload, e, size, back) = payload_ReadsBack config lsn snapshot h numbers in
      let few : length payload ≤ max_checkpoint_payload_bytes = omega (arith, h.1) in
      (
        file payload few,
        rw (e, le→ltb max_checkpoint_payload_bytes (length payload) few),
        omega (arith, length-file payload few),
        rw (decode_checkpoint-file payload few path) (back path),
      )

  -- Such a checkpoint cut short anywhere, as a crash while it is written can leave it, is refused
  -- as malformed.
  pub decode_checkpoint-cut :
      FitsSnapshot snapshot
      → FitsNumbers config lsn
      → (path : List ℕ) (k : ℕ) → k < 18 + payload_size snapshot
      → (bs : List ℕ) × (encode_checkpoint c (written_metadata config lsn snapshot) snapshot
          ≡ ok bs)
        × (decode_checkpoint path c (take k bs) ≡ err (malformed path))
  unfolding encode_checkpoint checkpoint_file checkpoint_body
  decode_checkpoint-cut h numbers path k below =
      let (payload, e, size, back) = payload_ReadsBack config lsn snapshot h numbers in
      let few : length payload ≤ max_checkpoint_payload_bytes = omega (arith, h.1) in
      (
        file payload few,
        rw (e, le→ltb max_checkpoint_payload_bytes (length payload) few),
        decode_checkpoint-cut_file payload few path k (omega (arith, length-file payload few)),
      )
