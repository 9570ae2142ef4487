-- ===== src/Wal/Codec.antt =====
-- A record of the log survives `encode_payload` and `decode_payload`
-- (crates/mfs-store/src/store/wal.rs).
use memory_first_store.Prelude.{
  ℕ, ◌+◌, ◌-◌, ◌^◌, ◌<◌, ◌≤◌, ◌≡◌, refl, true, false, Option, none, some, List, [], ◌∷◌, ◌++◌,
  arith, length, append_assoc, append-nil, length-append, le→ltb,
}
use memory_first_store.Prelude.Fail.{ok}
use memory_first_store.Bytes.Words.{le_bytes, length-le_bytes, of_le_bytes-le_bytes}
use memory_first_store.Bytes.Readers.{split_exact-append}
use memory_first_store.Bytes.Utf8.{is_utf8}
use memory_first_store.Wal.{
  Operation, RawWalRecord, op_code, raw_wal_format_version, raw_wal_max_field_bytes,
}
use memory_first_store.Wal.Encode.{
  validate_field_len, validate_value, write_len_prefixed, encode_op_value, encode_payload,
}
use memory_first_store.Wal.Decode.{
  is_empty, read_exact, read_u8, read_word, read_bytes, decode_op, decode_op_value, decode_payload,
  malformed,
}

abbrev pub FitsFieldLen : List ℕ → Type 0
FitsFieldLen bs = length bs ≤ raw_wal_max_field_bytes

abbrev pub FitsOp : Operation → Option (List ℕ) → Type 0
FitsOp Operation.put (some value) = FitsFieldLen value
FitsOp Operation.delete none = Unit
FitsOp _ _ = ⊥

-- The records that the store hands to the writer: `u64` numbers, a name that is text and not
-- empty, fields within the limit, and a value exactly for a put.
pub record FitsRecord (r : RawWalRecord) : Type 0 where
  pub lsn : r.lsn < 2 ^ 64
  pub version : r.version < 2 ^ 64
  pub collection : FitsFieldLen r.collection
  pub text : is_utf8 r.collection ≡ true
  pub named : is_empty r.collection ≡ false
  pub key : FitsFieldLen r.key
  pub value : FitsOp r.op r.value

module _ (offset : ℕ) where
  read_word-le_bytes :
      (n w : ℕ) (rest : List ℕ)
      → w < 256 ^ n
      → read_word offset n (le_bytes n w ++ rest) ≡ ok (w, rest)
  unfolding read_word read_exact
  read_word-le_bytes n w rest h = rw (
    split_exact-append (malformed offset) (le_bytes n w) rest (length-le_bytes n w),
    of_le_bytes-le_bytes n w h,
  )

  read_bytes-write_len_prefixed :
      (bs rest : List ℕ)
      → FitsFieldLen bs
      → read_bytes offset (write_len_prefixed bs ++ rest) ≡ ok (bs, rest)
  unfolding read_bytes write_len_prefixed
  read_bytes-write_len_prefixed bs rest h =
      rw
        (
          append_assoc,
          read_word-le_bytes 4 (length bs) (bs ++ rest) (omega arith),
          le→ltb raw_wal_max_field_bytes (length bs) h,
        )
        (split_exact-append (malformed offset) bs rest refl)

pub validate_field_len-ok : (bs : List ℕ) → FitsFieldLen bs → validate_field_len (length bs) ≡ ok tt
unfolding validate_field_len
validate_field_len-ok bs h =
    rw (le→ltb raw_wal_max_field_bytes (length bs) h, le→ltb (2 ^ 32 - 1) (length bs) (omega arith))

abbrev value_length : Option (List ℕ) → ℕ
value_length none = 0
value_length (some value) = length value

-- The payload's length: the format version, two numbers, the operation, and three fields.
abbrev pub payload_length : RawWalRecord → ℕ
payload_length r = 31 + length r.collection + length r.key + value_length r.value

length-write_len_prefixed : (bs : List ℕ) → length (write_len_prefixed bs) ≡ 4 + length bs
unfolding write_len_prefixed
length-write_len_prefixed bs =
    omega (arith, length-append (le_bytes 4 (length bs)) bs, length-le_bytes 4 (length bs))

-- What the encoder writes for a value, and how it is read back.
value_ReadsBack :
    (op : Operation) (value : Option (List ℕ))
    → FitsOp op value
    → (bs : List ℕ) × (encode_op_value op value ≡ ok (write_len_prefixed bs))
      × FitsFieldLen bs
      × (validate_value value ≡ ok tt)
      × (length bs ≡ value_length value)
      × ((offset : ℕ) → decode_op_value offset op bs ≡ ok value)
unfolding encode_op_value validate_value decode_op_value write_len_prefixed
value_ReadsBack Operation.put (some value) h =
    (value, refl, h, validate_field_len-ok value h, refl, λ offset. refl)
value_ReadsBack Operation.put none h = absurd h
value_ReadsBack Operation.delete none h =
    ([], rw append-nil, omega arith, refl, refl, λ offset. refl)
value_ReadsBack Operation.delete (some value) h = absurd h

decode_op-op_code : (offset : ℕ) (op : Operation) → decode_op offset (op_code op) ≡ ok op
unfolding decode_op
decode_op-op_code offset Operation.put = refl
decode_op-op_code offset Operation.delete = refl

-- A record that fits is encoded, and its payload is decoded to the same record at any offset.
pub decode_payload-encode_payload :
    (r : RawWalRecord)
    → FitsRecord r
    → (payload : List ℕ) × (encode_payload r ≡ ok payload)
      × (length payload ≡ payload_length r)
      × ((offset : ℕ) → decode_payload offset payload ≡ ok r)
unfolding encode_payload decode_payload read_u8
decode_payload-encode_payload r h =
    let (v, e, fits, valid, size, back) = value_ReadsBack r.op r.value h.value in
    let tail = write_len_prefixed r.key ++ write_len_prefixed v in
    let named = write_len_prefixed r.collection ++ (op_code r.op ∷ tail) in
    (
      le_bytes 2 raw_wal_format_version ++ (le_bytes 8 r.lsn ++ (le_bytes 8 r.version ++ named)),
      rw (
        validate_field_len-ok r.collection h.collection,
        validate_field_len-ok r.key h.key,
        valid,
        e,
      ),
      omega (
        arith,
        size,
        length-append (le_bytes 2 raw_wal_format_version)
            (le_bytes 8 r.lsn ++ (le_bytes 8 r.version ++ named)),
        length-append (le_bytes 8 r.lsn) (le_bytes 8 r.version ++ named),
        length-append (le_bytes 8 r.version) named,
        length-append (write_len_prefixed r.collection) (op_code r.op ∷ tail),
        length-append (write_len_prefixed r.key) (write_len_prefixed v),
        length-le_bytes 2 raw_wal_format_version,
        length-le_bytes 8 r.lsn,
        length-le_bytes 8 r.version,
        length-write_len_prefixed r.collection,
        length-write_len_prefixed r.key,
        length-write_len_prefixed v,
      ),
      λ offset. rw (
        read_word-le_bytes offset 2 raw_wal_format_version
            (le_bytes 8 r.lsn ++ (le_bytes 8 r.version ++ named)) (omega arith),
        read_word-le_bytes offset 8 r.lsn (le_bytes 8 r.version ++ named) h.lsn,
        read_word-le_bytes offset 8 r.version named h.version,
        read_bytes-write_len_prefixed offset r.collection (op_code r.op ∷ tail) h.collection,
        h.text,
        h.named,
        decode_op-op_code,
        read_bytes-write_len_prefixed offset r.key (write_len_prefixed v) h.key,
        ← append-nil (write_len_prefixed v),
        read_bytes-write_len_prefixed offset v [] fits,
        back offset,
      ),
    )
