-- ===== src/Checkpoint/Decode.antt =====
-- `decode_checkpoint` and its readers in crates/mfs-store/src/store/checkpoint.rs. A reader takes
-- the bytes behind the cursor and returns what it read with those behind the new cursor.
use memory_first_store.Prelude.{
  ℕ, zero, suc, ◌+◌, ◌/◌, not, ◌||◌, Option, none, some, List, [], ◌∷◌, ◌++◌, length, take, drop,
  ltb, ◌==◌, if◌then◌else◌,
}
use memory_first_store.Prelude.Fail.{Result, ok, err, fail_if, ◌>>=◌, ◌>>◌}
use memory_first_store.Bytes.Words.{of_le_bytes}
use memory_first_store.Bytes.Readers.{split_exact}
use memory_first_store.Bytes.Loops.{read_into}
use memory_first_store.Bytes.Utf8.{is_utf8}
use memory_first_store.Errors.{StoreError, CheckpointCorruptionKind}
use memory_first_store.Wal.{Crc}
use memory_first_store.Wal.Decode.{is_empty}
use memory_first_store.Checkpoint.{
  RawSnapshotRecord, RawCollectionSnapshot, RawCheckpointCollectionMetadata, DecodedRawCheckpoint,
  raw_checkpoint_magic, raw_checkpoint_format_version, checkpoint_header_len,
  checkpoint_checksum_len, max_checkpoint_payload_bytes, max_checkpoint_field_bytes,
  min_collection_payload_bytes, min_record_payload_bytes, record_tombstone, record_value, u64_max,
}
use memory_first_store.Checkpoint.Encode.{checkpoint_corrupt}

module _ {ℓ} {A : Type ℓ} where
  -- `Vec::push`
  abbrev pub push : List A → A → List A
  push xs x = xs ++ x ∷ []

-- What the loop over the collections has so far.
pub record Collections : Type 0 where
  pub collections : List RawCollectionSnapshot
  pub collection_metadata : List RawCheckpointCollectionMetadata
  pub decoded_records : ℕ

abbrev pub no_collections : Collections
no_collections = record { collections = []; collection_metadata = []; decoded_records = 0 }

module _ (path : List ℕ) where
  abbrev pub malformed : StoreError
  malformed = checkpoint_corrupt path CheckpointCorruptionKind.malformed_checkpoint

  unfoldable pub read_u8 : List ℕ → Result StoreError (ℕ × List ℕ)
  read_u8 [] = err malformed
  read_u8 (b ∷ bs) = ok (b, bs)

  -- `read_u32` and `read_u64`, by their number of bytes.
  unfoldable pub read_word : ℕ → List ℕ → Result StoreError (ℕ × List ℕ)
  read_word n bs = do (word, rest) ← split_exact malformed n bs; ok (of_le_bytes word, rest)

  unfoldable pub read_usize_from_u64 : List ℕ → Result StoreError (ℕ × List ℕ)
  read_usize_from_u64 bs = do
    (n, rest) ← read_word 8 bs
    fail_if (ltb u64_max n) (checkpoint_corrupt path CheckpointCorruptionKind.field_too_large)
    ok (n, rest)

  unfoldable pub read_bytes : List ℕ → Result StoreError (List ℕ × List ℕ)
  read_bytes bs = do
    (len, rest) ← read_word 4 bs
    fail_if (ltb max_checkpoint_field_bytes len)
        (checkpoint_corrupt path CheckpointCorruptionKind.field_too_large)
    split_exact malformed len rest

  -- `validate_collection_count` and `validate_record_count`, by the least bytes of one.
  unfoldable pub validate_count : ℕ → ℕ → ℕ → Result StoreError (Unit {0})
  validate_count least count remaining_payload =
      fail_if (ltb (remaining_payload / least) count) malformed

  unfoldable pub read_value : ℕ → List ℕ → Result StoreError (Option (List ℕ) × List ℕ)
  read_value marker bs =
      if marker == record_tombstone
      then ok (none, bs)
      else if marker == record_value
      then (do (value, rest) ← read_bytes bs; ok (some value, rest))
      else err malformed

  unfoldable pub read_record : List ℕ → Result StoreError (RawSnapshotRecord × List ℕ)
  read_record bs = do
    (version, r1) ← read_word 8 bs
    fail_if (version == 0) malformed
    (key, r2) ← read_bytes r1
    (marker, r3) ← read_u8 r2
    (value, r4) ← read_value marker r3
    ok (record { key = key; value = value; version = version }, r4)

  unfoldable pub read_collection :
      ℕ → Collections → List ℕ → Result StoreError (Collections × List ℕ)
  read_collection record_count so_far bs = do
    (name, r1) ← read_bytes bs
    fail_if (not (is_utf8 name)) malformed
    fail_if (is_empty name) malformed
    (count, r2) ← read_usize_from_u64 r1
    validate_count min_record_payload_bytes count (length r2)
    fail_if
        (ltb u64_max (so_far.decoded_records + count)
          || ltb record_count (so_far.decoded_records + count))
        malformed
    (records, r3) ← read_into count read_record push [] r2
    ok (
      record {
        collections = push so_far.collections (record { name = name; records = records });
        collection_metadata =
            push so_far.collection_metadata (record { name = name; record_count = length records });
        decoded_records = so_far.decoded_records + count;
      },
      r3,
    )

  unfoldable pub read_collections :
      ℕ → ℕ → Collections → List ℕ → Result StoreError (Collections × List ℕ)
  read_collections record_count zero so_far bs = ok (so_far, bs)
  read_collections record_count (suc n) so_far bs = do
    (more, rest) ← read_collection record_count so_far bs
    read_collections record_count n more rest

  unfoldable pub decode_payload : ℕ → List ℕ → Result StoreError DecodedRawCheckpoint
  decode_payload version payload = do
    (checkpoint_lsn, r1) ← read_word 8 payload
    (max_collections, r2) ← read_usize_from_u64 r1
    (capacity, r3) ← read_usize_from_u64 r2
    (collection_count, r4) ← read_word 4 r3
    (record_count, r5) ← read_usize_from_u64 r4
    validate_count min_collection_payload_bytes collection_count (length r5)
    validate_count min_record_payload_bytes record_count (length r5)
    (all, rest) ← read_collections record_count collection_count no_collections r5
    fail_if (not (is_empty rest) || not (all.decoded_records == record_count)) malformed
    ok (record {
      metadata = record {
        format_version = version;
        checkpoint_lsn = checkpoint_lsn;
        engine_max_collections = max_collections;
        engine_raw_initial_capacity = capacity;
        collection_count = collection_count;
        record_count = record_count;
        collections = all.collection_metadata;
      };
      snapshot = record { collections = all.collections };
    })

  module _ (c : Crc) where
    unfoldable pub decode_checkpoint : List ℕ → Result StoreError DecodedRawCheckpoint
    decode_checkpoint bytes =
        let version = of_le_bytes (take 2 (drop 4 bytes)) in
        let payload_len = of_le_bytes (take 8 (drop 6 bytes)) in
        let checksum_offset = checkpoint_header_len + payload_len in
        let expected_len = checksum_offset + checkpoint_checksum_len in
        let stored_crc = of_le_bytes (take 4 (drop checksum_offset bytes)) in
        do
          fail_if (ltb (length bytes) (checkpoint_header_len + checkpoint_checksum_len)) malformed
          fail_if (not (of_le_bytes (take 4 bytes) == raw_checkpoint_magic))
              (checkpoint_corrupt path CheckpointCorruptionKind.bad_magic)
          fail_if (not (version == raw_checkpoint_format_version))
              (checkpoint_corrupt path CheckpointCorruptionKind.unknown_format_version)
          fail_if (ltb max_checkpoint_payload_bytes payload_len)
              (checkpoint_corrupt path CheckpointCorruptionKind.payload_too_large)
          fail_if (not (length bytes == expected_len)) malformed
          fail_if (not (c.crc32c (take checksum_offset bytes) == stored_crc))
              (checkpoint_corrupt path CheckpointCorruptionKind.checksum_mismatch)
          decode_payload version (take payload_len (drop checkpoint_header_len bytes))
