-- ===== src/Value/RoundTrip.antt =====
-- What the encoder of crates/mfs-store/src/value.rs writes, the decoder reads back.
use memory_first_store.Prelude.{
  ℕ, ◌*◌, ◌/◌, ◌^◌, ◌<◌, ◌≤◌, ◌≡◌, refl, Option, some, List, [], ◌∷◌, ◌++◌, foldl, arith, length,
  append_assoc, append-nil, length-append, le→ltb, lt→ltb, leb, leb→le, leb→lt, Bool-cases, inl,
  inr, if◌then◌else◌,
}
use memory_first_store.Prelude.Fail.{ok, err}
use memory_first_store.Prelude.Int.{i64_bits, i64_bits-lt, i64_of_bits-i64_bits}
use memory_first_store.Bytes.Words.{le_bytes, length-le_bytes, of_le_bytes-le_bytes}
use memory_first_store.Bytes.Readers.{split_exact-append}
use memory_first_store.Bytes.Loops.{RoundTrips, read_into-encode_each}
use memory_first_store.Bytes.Ordered.{foldl-insert}
use memory_first_store.Value.{
  MfsValue, tag, tag_byte, max_encoded_value_bytes, max_collection_items, max_blob_bytes,
}
use memory_first_store.Value.Encode.{
  encode_len, encode_bytes, encode_field, encode_sorted_set_entry, encode_items,
  encode_stream_entry, encode_content, encode_value,
}
use memory_first_store.Value.Decode.{
  DecodeError, Reader, read_exact, read_u8, read_u64, read_i64, read_len, read_count, read_bytes,
  read_field, read_sorted_set_entry, read_items, read_stream_entry, read_string, read_content,
  decode_value, push, insert_field, insert_member, at_end,
}
use memory_first_store.Value.Fits.{
  FitsBlob, FitsField, FitsScored, FitsItems, FitsStreamEntry, Fits,
}

read_exact-le_bytes :
    (n w : ℕ) (rest : List ℕ) → read_exact n (le_bytes n w ++ rest) ≡ ok (le_bytes n w, rest)
unfolding read_exact
read_exact-le_bytes n w rest =
    split_exact-append DecodeError.fixed_truncated (le_bytes n w) rest (length-le_bytes n w)

read_u64-le_bytes :
    (w : ℕ) (rest : List ℕ) → w < 2 ^ 64 → read_u64 (le_bytes 8 w ++ rest) ≡ ok (w, rest)
unfolding read_u64
read_u64-le_bytes w rest h = rw (read_exact-le_bytes, of_le_bytes-le_bytes 8 w h)

read_len-le_bytes :
    (n : ℕ) (rest : List ℕ) → n < 2 ^ 32 → read_len (le_bytes 4 n ++ rest) ≡ ok (n, rest)
unfolding read_len
read_len-le_bytes n rest h = rw (read_exact-le_bytes, of_le_bytes-le_bytes 4 n h)

read_count-le_bytes :
    (least n : ℕ) (rest : List ℕ)
    → n ≤ max_collection_items
    → 0 < least
    → n * least ≤ length rest
    → read_count least (le_bytes 4 n ++ rest) ≡ ok (n, rest)
unfolding read_count
read_count-le_bytes least n rest h pos fits = rw (
  read_len-le_bytes n rest (omega arith),
  le→ltb max_collection_items n h,
  lt→ltb 0 least pos,
  le→ltb (length rest / least) n (grind arith),
)

blob_RoundTrips : RoundTrips FitsBlob 4 encode_bytes read_bytes
unfolding encode_bytes encode_len read_bytes
blob_RoundTrips = record {
  at = λ bs h. (
    le_bytes 4 (length bs) ++ bs,
    rw (lt→ltb (length bs) (2 ^ 32) (omega arith)),
    omega (arith, length-append (le_bytes 4 (length bs)) bs, length-le_bytes 4 (length bs)),
    λ rest.
        rw
          (
            append_assoc,
            read_len-le_bytes (length bs) (bs ++ rest) (omega arith),
            le→ltb max_blob_bytes (length bs) h,
          )
          (split_exact-append DecodeError.bytes_truncated bs rest refl),
  );
}

field_RoundTrips : RoundTrips FitsField 8 encode_field read_field
unfolding encode_field read_field
field_RoundTrips = record {
  at = λ f h.
      let (k, e, l, back) = blob_RoundTrips.at f.0 h.0 in
      let (v, e', l', back') = blob_RoundTrips.at f.1 h.1 in
      (
        k ++ v,
        rw (e, e'),
        omega (arith, length-append k v),
        λ rest. rw (append_assoc, back, back'),
      );
}

scored_RoundTrips : RoundTrips FitsScored 12 encode_sorted_set_entry read_sorted_set_entry
unfolding encode_sorted_set_entry read_sorted_set_entry
scored_RoundTrips = record {
  at = λ x h.
      let (m, e, l, back) = blob_RoundTrips.at x.member h.2 in
      (
        le_bytes 8 x.score ++ m,
        rw e,
        omega (arith, length-append (le_bytes 8 x.score) m, length-le_bytes 8 x.score),
        λ rest. rw (append_assoc, read_u64-le_bytes x.score (m ++ rest) h.0, h.1, back),
      );
}

-- A count and its items, read by `step` into the value that the items fold to.
items_RoundTrip {ℓ} :
    {A : Type ℓ} {P : A → Type 0} {least : ℕ} {enc : A → Option (List ℕ)} {read : Reader A}
    → RoundTrips P least enc read
    → 0 < least
    → (step : List A → A → List A) (xs : List A) → FitsItems P xs
    → (bs : List ℕ) × (encode_items enc xs ≡ some bs)
      × (4 ≤ length bs)
      × ((rest : List ℕ) → read_items least read step (bs ++ rest) ≡ ok (foldl step [] xs, rest))
unfolding encode_items read_items encode_len
items_RoundTrip {least = least} rt pos step xs h =
    let (items, e, l, back) = read_into-encode_each rt step xs h.1 in
    let n = length xs in
    (
      le_bytes 4 n ++ items,
      rw (lt→ltb n (2 ^ 32) (omega (arith, h.0)), e),
      omega (arith, length-append (le_bytes 4 n) items, length-le_bytes 4 n),
      λ rest.
          rw
            (
              append_assoc,
              read_count-le_bytes least n (items ++ rest) h.0 pos
                  (omega (arith, l, length-append items rest)),
            )
            (back [] rest),
    )

stream_RoundTrips : RoundTrips FitsStreamEntry 20 encode_stream_entry read_stream_entry
unfolding encode_stream_entry read_stream_entry
stream_RoundTrips = record {
  at = λ x h.
      let (m, e, l, back) =
        items_RoundTrip field_RoundTrips (omega arith) insert_field x.fields h.2.0 in
      let a = le_bytes 8 x.id.millis in
      let b = le_bytes 8 x.id.sequence in
      (
        a ++ (b ++ m),
        rw e,
        omega (
          arith,
          length-append a (b ++ m),
          length-append b m,
          length-le_bytes 8 x.id.millis,
          length-le_bytes 8 x.id.sequence,
        ),
        λ rest. rw (
          append_assoc,
          append_assoc,
          read_u64-le_bytes x.id.millis (b ++ (m ++ rest)) h.0,
          read_u64-le_bytes x.id.sequence (m ++ rest) h.1,
          back,
          foldl-insert (λ e. e.0) x.fields h.2.1,
        ),
      );
}

foldl-push {ℓ} : {A : Type ℓ} (acc xs : List A) → foldl push acc xs ≡ acc ++ xs
foldl-push acc [] = rw append-nil
foldl-push acc (x ∷ xs) = rw (foldl-push (acc ++ x ∷ []) xs, append_assoc)

-- The bytes of a value's content, and what reading them back with its tag gives.
abbrev ReadsBack : MfsValue → Type 0
ReadsBack v =
    (bs : List ℕ) × (encode_content v ≡ some bs)
    × ((rest : List ℕ) → read_content (tag_byte (tag v)) (bs ++ rest) ≡ ok (v, rest))

content_ReadsBack : (v : MfsValue) → Fits v → ReadsBack v
unfolding encode_content read_content tag tag_byte read_string read_i64
content_ReadsBack (MfsValue.bytes bs) h =
    let (out, e, l, back) = blob_RoundTrips.at bs h in (out, e, λ rest. rw back)
content_ReadsBack (MfsValue.string bs) h =
    let (out, e, l, back) = blob_RoundTrips.at bs h.0 in (out, e, λ rest. rw (back, h.1))
content_ReadsBack (MfsValue.integer i) h = (
  le_bytes 8 (i64_bits i),
  refl,
  λ rest. rw (
    read_exact-le_bytes,
    of_le_bytes-le_bytes 8 (i64_bits i) (i64_bits-lt i),
    i64_of_bits-i64_bits i h,
  ),
)
content_ReadsBack (MfsValue.list xs) h =
    let (out, e, l, back) = items_RoundTrip blob_RoundTrips (omega arith) push xs h in
    (out, e, λ rest. rw (back, foldl-push))
content_ReadsBack (MfsValue.hash m) h =
    let (out, e, l, back) = items_RoundTrip field_RoundTrips (omega arith) insert_field m h.0 in
    (out, e, λ rest. rw (back, foldl-insert (λ e. e.0) m h.1))
content_ReadsBack (MfsValue.set xs) h =
    let (out, e, l, back) = items_RoundTrip blob_RoundTrips (omega arith) insert_member xs h.0 in
    (out, e, λ rest. rw (back, foldl-insert (λ e. e) xs h.1))
content_ReadsBack (MfsValue.sorted_set xs) h =
    let (out, e, l, back) = items_RoundTrip scored_RoundTrips (omega arith) push xs h in
    (out, e, λ rest. rw (back, foldl-push))
content_ReadsBack (MfsValue.json bs) h =
    let (out, e, l, back) = blob_RoundTrips.at bs h in (out, e, λ rest. rw back)
content_ReadsBack (MfsValue.stream xs) h =
    let (out, e, l, back) = items_RoundTrip stream_RoundTrips (omega arith) push xs h in
    (out, e, λ rest. rw (back, foldl-push))
content_ReadsBack MfsValue.null h = ([], refl, λ rest. refl)

-- A value that fits is encoded without a panic. The decoder gives it back if the encoding has at
-- most `max_encoded_value_bytes` bytes, and refuses it for its size otherwise.
pub decode_value-encode_value :
    (v : MfsValue)
    → Fits v
    → (bs : List ℕ) × (encode_value v ≡ some bs)
      × (decode_value bs ≡ (
          if leb (length bs) max_encoded_value_bytes then ok v else err DecodeError.payload_limit))
unfolding encode_value decode_value read_u8 at_end
decode_value-encode_value v h =
    let (content, e, back) = content_ReadsBack v h in
    let bs = tag_byte (tag v) ∷ content in
    (
      bs,
      rw e,
      elim (Bool-cases (leb (length bs) max_encoded_value_bytes)) [
        | inl fits ↦ rw (
          fits,
          le→ltb max_encoded_value_bytes (length bs) (leb→le _ _ fits),
          ← append-nil content,
          back,
        )
        | inr big ↦ rw (big, lt→ltb max_encoded_value_bytes (length bs) (leb→lt _ _ big))
      ],
    )

-- Bytes behind the encoding of a value that fits are refused, whatever they are.
pub decode_value-trailing :
    (v : MfsValue) (b : ℕ) (more : List ℕ)
    → Fits v
    → (bs : List ℕ) × (encode_value v ≡ some bs)
      × (decode_value (bs ++ b ∷ more)
          ≡ err (
              if leb (length (bs ++ b ∷ more)) max_encoded_value_bytes
              then DecodeError.trailing_bytes
              else DecodeError.payload_limit))
unfolding encode_value decode_value read_u8 at_end
decode_value-trailing v b more h =
    let (content, e, back) = content_ReadsBack v h in
    let bs = tag_byte (tag v) ∷ content in
    let all = bs ++ b ∷ more in
    (
      bs,
      rw e,
      elim (Bool-cases (leb (length all) max_encoded_value_bytes)) [
        | inl fits ↦ rw (fits, le→ltb max_encoded_value_bytes (length all) (leb→le _ _ fits), back)
        | inr big ↦ rw (big, lt→ltb max_encoded_value_bytes (length all) (leb→lt _ _ big))
      ],
    )
