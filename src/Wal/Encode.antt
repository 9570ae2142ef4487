-- ===== src/Wal/Encode.antt =====
-- `encode_payload` and `emit_encoded` of crates/mfs-store/src/store/wal.rs.
use memory_first_store.Prelude.{ℕ, ◌-◌, ◌^◌, ◌||◌, Option, none, some, List, ◌∷◌, ◌++◌, length, ltb}
use memory_first_store.Prelude.Fail.{Result, ok, err, fail_if, ◌>>=◌, ◌>>◌}
use memory_first_store.Bytes.Words.{le_bytes}
use memory_first_store.Errors.{StoreError, WalCorruptionKind}
use memory_first_store.Wal.{
  Operation, RawWalRecord, Crc, op_code, raw_wal_record_magic, raw_wal_format_version,
  raw_wal_max_field_bytes,
}

abbrev pub corrupt : ℕ → WalCorruptionKind → StoreError
corrupt offset kind = StoreError.wal_corruption offset kind

unfoldable pub validate_field_len : ℕ → Result StoreError (Unit {0})
validate_field_len len =
    fail_if (ltb raw_wal_max_field_bytes len || ltb (2 ^ 32 - 1) len)
      (corrupt 0 WalCorruptionKind.field_too_large)

-- The length is below 2 ^ 32: every caller has checked it.
unfoldable pub write_len_prefixed : List ℕ → List ℕ
write_len_prefixed bs = le_bytes 4 (length bs) ++ bs

unfoldable pub validate_value : Option (List ℕ) → Result StoreError (Unit {0})
validate_value none = ok tt
validate_value (some value) = validate_field_len (length value)

unfoldable pub encode_op_value : Operation → Option (List ℕ) → Result StoreError (List ℕ)
encode_op_value Operation.put (some value) = ok (write_len_prefixed value)
encode_op_value Operation.delete none = ok (le_bytes 4 0)
encode_op_value _ _ = err (corrupt 0 WalCorruptionKind.malformed_record)

unfoldable pub encode_payload : RawWalRecord → Result StoreError (List ℕ)
encode_payload r = do
  validate_field_len (length r.collection)
  validate_field_len (length r.key)
  validate_value r.value
  value ← encode_op_value r.op r.value
  ok (
      le_bytes 2 raw_wal_format_version
      ++ (le_bytes 8 r.lsn
          ++ (le_bytes 8 r.version
              ++ (write_len_prefixed r.collection
                  ++ (op_code r.op ∷ (write_len_prefixed r.key ++ value))))))

module _ (c : Crc) where
  -- Over the magic, the length and the payload.
  unfoldable pub checksum : List ℕ → ℕ
  checksum payload =
      c.crc32c_append
        (c.crc32c_append (c.crc32c (le_bytes 4 raw_wal_record_magic)) (le_bytes 4 (length payload)))
        payload

  -- The four writes of a record.
  unfoldable pub frame : List ℕ → List ℕ
  frame payload =
      le_bytes 4 raw_wal_record_magic
      ++ (le_bytes 4 (length payload) ++ (payload ++ le_bytes 4 (checksum payload)))

  -- The bytes that `emit_encoded` hands to the file.
  unfoldable pub emit_encoded : RawWalRecord → Result StoreError (List ℕ)
  emit_encoded r = do
    payload ← encode_payload r
    fail_if (ltb (2 ^ 32 - 1) (length payload)) (corrupt 0 WalCorruptionKind.payload_too_large)
    ok (frame payload)
