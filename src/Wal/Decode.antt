-- ===== src/Wal/Decode.antt =====
-- `decode_payload` of crates/mfs-store/src/store/wal.rs. A reader takes the bytes behind the cursor
-- and returns what it read with those behind the new cursor; `offset` is where the record starts.
use memory_first_store.Prelude.{
  ℕ, Bool, true, false, not, Option, none, some, List, [], ◌∷◌, ltb, ◌==◌, if◌then◌else◌,
}
use memory_first_store.Prelude.Fail.{Result, ok, err, fail_if, ◌>>=◌, ◌>>◌}
use memory_first_store.Bytes.Words.{of_le_bytes}
use memory_first_store.Bytes.Readers.{split_exact}
use memory_first_store.Bytes.Utf8.{is_utf8}
use memory_first_store.Errors.{StoreError, WalCorruptionKind}
use memory_first_store.Wal.{
  Operation, RawWalRecord, raw_wal_format_version, raw_wal_max_field_bytes,
}
use memory_first_store.Wal.Encode.{corrupt}

abbrev pub is_empty : List ℕ → Bool
is_empty [] = true
is_empty (b ∷ bs) = false

module _ (offset : ℕ) where
  abbrev pub malformed : StoreError
  malformed = corrupt offset WalCorruptionKind.malformed_record

  unfoldable pub read_exact : ℕ → List ℕ → Result StoreError (List ℕ × List ℕ)
  read_exact n bs = split_exact malformed n bs

  unfoldable pub read_u8 : List ℕ → Result StoreError (ℕ × List ℕ)
  read_u8 [] = err malformed
  read_u8 (b ∷ bs) = ok (b, bs)

  -- `read_u16`, `read_u32` and `read_u64`, by their number of bytes.
  unfoldable pub read_word : ℕ → List ℕ → Result StoreError (ℕ × List ℕ)
  read_word n bs = do (word, rest) ← read_exact n bs; ok (of_le_bytes word, rest)

  unfoldable pub read_bytes : List ℕ → Result StoreError (List ℕ × List ℕ)
  read_bytes bs = do
    (len, rest) ← read_word 4 bs
    fail_if (ltb raw_wal_max_field_bytes len) (corrupt offset WalCorruptionKind.field_too_large)
    split_exact malformed len rest

  unfoldable pub decode_op : ℕ → Result StoreError Operation
  decode_op code =
      if code == 1
      then ok Operation.put
      else if code == 2
      then ok Operation.delete
      else err (corrupt offset WalCorruptionKind.unknown_operation)

  unfoldable pub decode_op_value : Operation → List ℕ → Result StoreError (Option (List ℕ))
  decode_op_value Operation.put value = ok (some value)
  decode_op_value Operation.delete [] = ok none
  decode_op_value Operation.delete (b ∷ bs) = err malformed

  unfoldable pub decode_payload : List ℕ → Result StoreError RawWalRecord
  decode_payload payload = do
    (format, r1) ← read_word 2 payload
    fail_if (not (format == raw_wal_format_version))
        (corrupt offset WalCorruptionKind.unknown_format_version)
    (lsn, r2) ← read_word 8 r1
    (version, r3) ← read_word 8 r2
    (collection, r4) ← read_bytes r3
    fail_if (not (is_utf8 collection)) malformed
    fail_if (is_empty collection) malformed
    (code, r5) ← read_u8 r4
    op ← decode_op code
    (key, r6) ← read_bytes r5
    (value_bytes, r7) ← read_bytes r6
    value ← decode_op_value op value_bytes
    fail_if (not (is_empty r7)) malformed
    ok (record {
      lsn = lsn;
      version = version;
      collection = collection;
      op = op;
      key = key;
      value = value;
    })
