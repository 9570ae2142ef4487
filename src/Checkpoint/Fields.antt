-- ===== src/Checkpoint/Fields.antt =====
-- The fields of a checkpoint's payload survive their writers and readers
-- (crates/mfs-store/src/store/checkpoint.rs).
use memory_first_store.Prelude.{
  ℕ, ◌+◌, ◌/◌, ◌^◌, ◌<◌, ◌≤◌, ◌≡◌, refl, Option, none, some, List, [], ◌∷◌, ◌++◌, arith, length,
  append_assoc, length-append, le→ltb,
}
use memory_first_store.Prelude.Fail.{ok}
use memory_first_store.Bytes.Words.{le_bytes, length-le_bytes, of_le_bytes-le_bytes}
use memory_first_store.Bytes.Readers.{split_exact-append}
use memory_first_store.Checkpoint.{
  u32_max, u64_max, max_checkpoint_field_bytes, record_value, record_tombstone,
}
use memory_first_store.Checkpoint.Encode.{write_word, write_len_prefixed, encode_value}
use memory_first_store.Checkpoint.Decode.{
  malformed, read_word, read_usize_from_u64, read_bytes, read_value, validate_count,
}
use memory_first_store.Checkpoint.Fits.{FitsField, FitsValue, value_size}

pub write_word-ok :
    (greatest n value : ℕ) → value ≤ greatest → write_word greatest n value ≡ ok (le_bytes n value)
unfolding write_word
write_word-ok greatest n value h = rw (le→ltb greatest value h)

-- A field as it stands in the payload.
abbrev pub field : List ℕ → List ℕ
field bs = le_bytes 4 (length bs) ++ bs

pub write_len_prefixed-ok : (bs : List ℕ) → FitsField bs → write_len_prefixed bs ≡ ok (field bs)
unfolding write_len_prefixed
write_len_prefixed-ok bs h = rw (
  le→ltb max_checkpoint_field_bytes (length bs) h,
  write_word-ok u32_max 4 (length bs) (omega arith),
)

pub length-field : (bs : List ℕ) → length (field bs) ≡ 4 + length bs
length-field bs =
    omega (arith, length-append (le_bytes 4 (length bs)) bs, length-le_bytes 4 (length bs))

module _ (path : List ℕ) where
  pub read_word-le_bytes :
      (n w : ℕ) (rest : List ℕ)
      → w < 256 ^ n
      → read_word path n (le_bytes n w ++ rest) ≡ ok (w, rest)
  unfolding read_word
  read_word-le_bytes n w rest h = rw (
    split_exact-append (malformed path) (le_bytes n w) rest (length-le_bytes n w),
    of_le_bytes-le_bytes n w h,
  )

  pub read_usize_from_u64-le_bytes :
      (w : ℕ) (rest : List ℕ)
      → w ≤ u64_max
      → read_usize_from_u64 path (le_bytes 8 w ++ rest) ≡ ok (w, rest)
  unfolding read_usize_from_u64
  read_usize_from_u64-le_bytes w rest h =
      rw (read_word-le_bytes 8 w rest (omega arith), le→ltb u64_max w h)

  pub read_bytes-field :
      (bs rest : List ℕ) → FitsField bs → read_bytes path (field bs ++ rest) ≡ ok (bs, rest)
  unfolding read_bytes
  read_bytes-field bs rest h =
      rw
        (
          append_assoc,
          read_word-le_bytes 4 (length bs) (bs ++ rest) (omega arith),
          le→ltb max_checkpoint_field_bytes (length bs) h,
        )
        (split_exact-append (malformed path) bs rest refl)

  pub validate_count-ok :
      (least count remaining : ℕ)
      → count ≤ remaining / least
      → validate_count path least count remaining ≡ ok tt
  unfolding validate_count
  validate_count-ok least count remaining h = rw (le→ltb (remaining / least) count h)

-- What the encoder writes for a value, and how it is read back behind its marker.
pub value_ReadsBack :
    (value : Option (List ℕ))
    → FitsValue value
    → (marker : ℕ) × (bs : List ℕ) × (encode_value value ≡ ok (marker ∷ bs))
      × (length bs ≡ value_size value)
      × ((path rest : List ℕ) → read_value path marker (bs ++ rest) ≡ ok (value, rest))
unfolding encode_value read_value
value_ReadsBack none h = (record_tombstone, [], refl, refl, λ path rest. refl)
value_ReadsBack (some value) h = (
  record_value,
  field value,
  rw (write_len_prefixed-ok value h),
  length-field value,
  λ path rest. rw (read_bytes-field path value rest h),
)
