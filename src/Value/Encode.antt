-- ===== src/Value/Encode.antt =====
-- `encode_value` of crates/mfs-store/src/value.rs. An encoder returns the bytes that it pushes to
-- `out`, or `none` where it panics: a length that does not fit a `u32`.
use memory_first_store.Prelude.{
  ℕ, ◌^◌, Option, none, some, List, [], ◌∷◌, ◌++◌, length, ltb, if◌then◌else◌,
}
use memory_first_store.Prelude.Fail.Panic.{◌>>=◌}
use memory_first_store.Prelude.Int.{i64_bits}
use memory_first_store.Bytes.Words.{le_bytes}
use memory_first_store.Bytes.Loops.{encode_each}
use memory_first_store.Value.{Field, SortedSetEntry, StreamEntry, MfsValue, tag, tag_byte}

unfoldable pub encode_len : ℕ → Option (List ℕ)
encode_len len = if ltb len (2 ^ 32) then some (le_bytes 4 len) else none

unfoldable pub encode_bytes : List ℕ → Option (List ℕ)
encode_bytes bs = do len ← encode_len (length bs); some (len ++ bs)

unfoldable pub encode_field : Field → Option (List ℕ)
encode_field (field, value) = do f ← encode_bytes field; v ← encode_bytes value; some (f ++ v)

unfoldable pub encode_sorted_set_entry : SortedSetEntry → Option (List ℕ)
encode_sorted_set_entry entry = do
  member ← encode_bytes entry.member
  some (le_bytes 8 entry.score ++ member)

-- A count, and then the items.
unfoldable pub encode_items {ℓ} : {A : Type ℓ} → (A → Option (List ℕ)) → List A → Option (List ℕ)
encode_items enc xs = do
  len ← encode_len (length xs)
  items ← encode_each enc xs
  some (len ++ items)

unfoldable pub encode_stream_entry : StreamEntry → Option (List ℕ)
encode_stream_entry entry = do
  fields ← encode_items encode_field entry.fields
  some (le_bytes 8 entry.id.millis ++ (le_bytes 8 entry.id.sequence ++ fields))

-- The `match` of `encode_value`.
unfoldable pub encode_content : MfsValue → Option (List ℕ)
encode_content (MfsValue.bytes bs) = encode_bytes bs
encode_content (MfsValue.json bs) = encode_bytes bs
encode_content (MfsValue.string value) = encode_bytes value
encode_content (MfsValue.integer value) = some (le_bytes 8 (i64_bits value))
encode_content (MfsValue.list values) = encode_items encode_bytes values
encode_content (MfsValue.hash fields) = encode_items encode_field fields
encode_content (MfsValue.set values) = encode_items encode_bytes values
encode_content (MfsValue.sorted_set entries) = encode_items encode_sorted_set_entry entries
encode_content (MfsValue.stream entries) = encode_items encode_stream_entry entries
encode_content MfsValue.null = some []

unfoldable pub encode_value : MfsValue → Option (List ℕ)
encode_value value = do content ← encode_content value; some (tag_byte (tag value) ∷ content)
