-- ===== src/Value/Decode.antt =====
-- `decode_value` of crates/mfs-store/src/value.rs. A reader takes the bytes behind the cursor, and
-- returns what it read with the bytes behind the new cursor. Vectors are filled by `push`, maps and
-- sets by `insert`.
use memory_first_store.Prelude.{
  ℕ, ◌/◌, ◌%◌, ◌^◌, Bool, not, ◌&&◌, List, [], ◌∷◌, ◌++◌, length, ltb, ◌==◌, if◌then◌else◌,
}
use memory_first_store.Prelude.Fail.{Result, ok, err, fail_if, ◌>>=◌, ◌>>◌}
use memory_first_store.Prelude.Int.{ℤ, i64_of_bits}
use memory_first_store.Bytes.Words.{of_le_bytes}
use memory_first_store.Bytes.Readers.{split_exact}
use memory_first_store.Bytes.Loops.{read_into}
use memory_first_store.Bytes.Utf8.{is_utf8}
use memory_first_store.Bytes.Ordered.{insert}
use memory_first_store.Value.{
  Field, SortedSetEntry, StreamEntry, MfsValue, max_encoded_value_bytes, max_collection_items,
  max_blob_bytes,
}

-- The error kinds with their messages.
pub data DecodeError : Type 0 where
  payload_limit tag_truncated fixed_truncated item_limit length_exceeds_payload : DecodeError
  byte_field_limit bytes_truncated invalid_utf8 score_not_finite unknown_tag : DecodeError
  trailing_bytes : DecodeError

abbrev pub Reader {ℓ} : Type ℓ → Type ℓ
Reader A = List ℕ → Result DecodeError (A × List ℕ)

unfoldable pub read_u8 : Reader ℕ
read_u8 [] = err DecodeError.tag_truncated
read_u8 (b ∷ bs) = ok (b, bs)

unfoldable pub read_exact : ℕ → Reader (List ℕ)
read_exact n bs = split_exact DecodeError.fixed_truncated n bs

unfoldable pub read_u64 : Reader ℕ
read_u64 bs = do (word, rest) ← read_exact 8 bs; ok (of_le_bytes word, rest)

unfoldable pub read_i64 : Reader ℤ
read_i64 bs = do (word, rest) ← read_exact 8 bs; ok (i64_of_bits (of_le_bytes word), rest)

unfoldable pub read_len : Reader ℕ
read_len bs = do (word, rest) ← read_exact 4 bs; ok (of_le_bytes word, rest)

unfoldable pub read_count : ℕ → Reader ℕ
read_count min_bytes_per_item bs = do
  (count, rest) ← read_len bs
  fail_if (ltb max_collection_items count) DecodeError.item_limit
  fail_if (ltb 0 min_bytes_per_item && ltb (length rest / min_bytes_per_item) count)
      DecodeError.length_exceeds_payload
  ok (count, rest)

unfoldable pub read_bytes : Reader (List ℕ)
read_bytes bs = do
  (len, rest) ← read_len bs
  fail_if (ltb max_blob_bytes len) DecodeError.byte_field_limit
  split_exact DecodeError.bytes_truncated len rest

-- `f64::is_finite`: the exponent is not all ones.
unfoldable pub is_finite : ℕ → Bool
is_finite bits = not (bits / 2 ^ 52 % 2 ^ 11 == 2047)

unfoldable pub read_field : Reader Field
read_field bs = do
  (field, rest) ← read_bytes bs
  (value, rest') ← read_bytes rest
  ok ((field, value), rest')

unfoldable pub read_sorted_set_entry : Reader SortedSetEntry
read_sorted_set_entry bs = do
  (score, rest) ← read_u64 bs
  fail_if (not (is_finite score)) DecodeError.score_not_finite
  (member, rest') ← read_bytes rest
  ok (record { score = score; member = member }, rest')

abbrev pub push {ℓ} : {A : Type ℓ} → List A → A → List A
push xs x = xs ++ x ∷ []

abbrev pub insert_field : List Field → Field → List Field
insert_field = insert (λ e. e.0)

abbrev pub insert_member : List (List ℕ) → List ℕ → List (List ℕ)
insert_member = insert (λ e. e)

-- A count, and then as many rounds of a read and a push or an insert.
unfoldable pub read_items {ℓ} :
    {A : Type ℓ} → ℕ → Reader A → (List A → A → List A) → Reader (List A)
read_items min_bytes_per_item read step bs = do
  (count, rest) ← read_count min_bytes_per_item bs
  read_into count read step [] rest

unfoldable pub read_stream_entry : Reader StreamEntry
read_stream_entry bs = do
  (millis, rest) ← read_u64 bs
  (sequence, rest') ← read_u64 rest
  (fields, rest'') ← read_items 8 read_field insert_field rest'
  ok (record { id = record { millis = millis; sequence = sequence }; fields = fields }, rest'')

-- `Ok(wrap(read(..)?))`
abbrev pub wrap {ℓ} :
    {A : Type ℓ}
    → (A → MfsValue)
    → Result DecodeError (A × List ℕ)
    → Result DecodeError (MfsValue × List ℕ)
wrap f r = do (a, rest) ← r; ok (f a, rest)

unfoldable pub read_string : Reader (List ℕ)
read_string bs = do
  (value, rest) ← read_bytes bs
  fail_if (not (is_utf8 value)) DecodeError.invalid_utf8
  ok (value, rest)

-- The `match` on the tag.
unfoldable pub read_content : ℕ → Reader MfsValue
read_content t bs =
    if t == 0
    then wrap MfsValue.bytes (read_bytes bs)
    else if t == 1
    then wrap MfsValue.string (read_string bs)
    else if t == 2
    then wrap MfsValue.integer (read_i64 bs)
    else if t == 3
    then wrap MfsValue.list (read_items 4 read_bytes push bs)
    else if t == 4
    then wrap MfsValue.hash (read_items 8 read_field insert_field bs)
    else if t == 5
    then wrap MfsValue.set (read_items 4 read_bytes insert_member bs)
    else if t == 6
    then wrap MfsValue.sorted_set (read_items 12 read_sorted_set_entry push bs)
    else if t == 7
    then wrap MfsValue.json (read_bytes bs)
    else if t == 8
    then wrap MfsValue.stream (read_items 20 read_stream_entry push bs)
    else if t == 9
    then ok (MfsValue.null, bs)
    else err DecodeError.unknown_tag

-- `cursor == bytes.len()`
unfoldable pub at_end : MfsValue → List ℕ → Result DecodeError MfsValue
at_end value [] = ok value
at_end value (b ∷ bs) = err DecodeError.trailing_bytes

unfoldable pub decode_value : List ℕ → Result DecodeError MfsValue
decode_value bs = do
  fail_if (ltb max_encoded_value_bytes (length bs)) DecodeError.payload_limit
  (t, rest) ← read_u8 bs
  (value, rest') ← read_content t rest
  at_end value rest'
