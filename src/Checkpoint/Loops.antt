-- ===== src/Checkpoint/Loops.antt =====
-- The records and the collections of a checkpoint survive their loops
-- (crates/mfs-store/src/store/checkpoint.rs).
use native.Mathlib.Nat.{add_assoc}
use memory_first_store.Prelude.{
  ℕ, ◌+◌, ◌≤◌, ◌≡◌, refl, ◌∙◌, false, List, [], ◌∷◌, ◌++◌, arith, length, map, All, append_assoc,
  append-nil, length-append, le→ltb, ◌==◌,
}
use memory_first_store.Prelude.Fail.{ok}
use memory_first_store.Bytes.Words.{le_bytes, length-le_bytes}
use memory_first_store.Bytes.Loops.{read_into}
use memory_first_store.Checkpoint.{
  RawSnapshotRecord, RawCollectionSnapshot, u64_max, min_record_payload_bytes,
}
use memory_first_store.Checkpoint.Encode.{
  collection_metadata, total_records, encode_record, encode_all, encode_collection,
}
use memory_first_store.Checkpoint.Decode.{
  Collections, push, read_u8, read_record, read_collection, read_collections,
}
use memory_first_store.Checkpoint.Fits.{
  FitsRecord, FitsCollection, record_size, collection_size, sum_by, records-size,
}
use memory_first_store.Checkpoint.Fields.{
  field, write_word-ok, write_len_prefixed-ok, length-field, read_word-le_bytes,
  read_usize_from_u64-le_bytes, read_bytes-field, validate_count-ok, value_ReadsBack,
}

record_ReadsBack :
    (r : RawSnapshotRecord)
    → FitsRecord r
    → (bs : List ℕ) × (encode_record r ≡ ok bs)
      × (length bs ≡ record_size r)
      × ((path rest : List ℕ) → read_record path (bs ++ rest) ≡ ok (r, rest))
unfolding encode_record read_record read_u8
record_ReadsBack r h =
    let (marker, v, e, size, back) = value_ReadsBack r.value h.value in
    (
      le_bytes 8 r.version ++ (field r.key ++ (marker ∷ v)),
      rw (write_len_prefixed-ok r.key h.key, e),
      omega (
        arith,
        size,
        length-append (le_bytes 8 r.version) (field r.key ++ (marker ∷ v)),
        length-append (field r.key) (marker ∷ v),
        length-le_bytes 8 r.version,
        length-field r.key,
      ),
      λ path rest.
          let above : (r.version == 0) ≡ false = ground (arith, h.above) in
          rw (
            append_assoc (le_bytes 8 r.version) (field r.key ++ (marker ∷ v)) rest,
            append_assoc (field r.key) (marker ∷ v) rest,
            read_word-le_bytes path 8 r.version (field r.key ++ (marker ∷ v ++ rest)) h.version,
            above,
            read_bytes-field path r.key (marker ∷ v ++ rest) h.key,
            back path rest,
          ),
    )

records_ReadBack :
    (rs : List RawSnapshotRecord)
    → All FitsRecord rs
    → (bs : List ℕ) × (encode_all encode_record rs ≡ ok bs)
      × (length bs ≡ sum_by record_size rs)
      × ((path rest : List ℕ) (acc : List RawSnapshotRecord)
          → read_into (length rs) (read_record path) push acc (bs ++ rest) ≡ ok (acc ++ rs, rest))
unfolding encode_all read_into
records_ReadBack [] h = ([], refl, refl, λ path rest acc. rw append-nil)
records_ReadBack (r ∷ rs) h =
    let (front, e, size, back) = record_ReadsBack r h.0 in
    let (more, es, sizes, backs) = records_ReadBack rs h.1 in
    (
      front ++ more,
      rw (e, es),
      omega (arith, length-append front more),
      λ path rest acc.
          rw (append_assoc front more rest, back path (more ++ rest))
            (backs path rest (acc ++ r ∷ []) ∙ rw (append_assoc acc (r ∷ []) rs)),
    )

-- What the loop over the collections adds for one.
abbrev extended : Collections → RawCollectionSnapshot → Collections
extended so_far c = record {
  collections = push so_far.collections c;
  collection_metadata = push so_far.collection_metadata (collection_metadata c);
  decoded_records = so_far.decoded_records + length c.records;
}

collection_ReadsBack :
    (c : RawCollectionSnapshot)
    → FitsCollection c
    → length c.records ≤ u64_max
    → (bs : List ℕ) × (encode_collection c ≡ ok bs)
      × (length bs ≡ collection_size c)
      × ((path rest : List ℕ) (record_count : ℕ) (so_far : Collections)
          → so_far.decoded_records + length c.records ≤ record_count
          → record_count ≤ u64_max
          → read_collection path record_count so_far (bs ++ rest) ≡ ok (extended so_far c, rest))
unfolding encode_collection read_collection collection_metadata
collection_ReadsBack c h few =
    let (bs, e, size, back) = records_ReadBack c.records h.records in
    let count = le_bytes 8 (length c.records) in
    (
      field c.name ++ (count ++ bs),
      rw (write_len_prefixed-ok c.name h.name, write_word-ok u64_max 8 (length c.records) few, e),
      omega (
        arith,
        size,
        length-append (field c.name) (count ++ bs),
        length-append count bs,
        length-le_bytes 8 (length c.records),
        length-field c.name,
      ),
      λ path rest record_count so_far below within. rw (
        append_assoc (field c.name) (count ++ bs) rest,
        append_assoc count bs rest,
        read_bytes-field path c.name (count ++ (bs ++ rest)) h.name,
        h.text,
        h.named,
        read_usize_from_u64-le_bytes path (length c.records) (bs ++ rest) few,
        validate_count-ok path min_record_payload_bytes (length c.records) (length (bs ++ rest))
            (omega (arith, length-append bs rest, size, records-size c.records)),
        le→ltb u64_max (so_far.decoded_records + length c.records) (omega arith),
        le→ltb record_count (so_far.decoded_records + length c.records) below,
        back path rest [],
      ),
    )

pub collections_ReadBack :
    (cs : List RawCollectionSnapshot)
    → All FitsCollection cs
    → total_records (map collection_metadata cs) ≤ u64_max
    → (bs : List ℕ) × (encode_all encode_collection cs ≡ ok bs)
      × (length bs ≡ sum_by collection_size cs)
      × ((path rest : List ℕ) (record_count : ℕ) (so_far : Collections)
          → so_far.decoded_records + total_records (map collection_metadata cs) ≤ record_count
          → record_count ≤ u64_max
          → read_collections path record_count (length cs) so_far (bs ++ rest)
            ≡ ok (
              record {
                collections = so_far.collections ++ cs;
                collection_metadata = so_far.collection_metadata ++ map collection_metadata cs;
                decoded_records =
                    so_far.decoded_records + total_records (map collection_metadata cs);
              },
              rest,
            ))
unfolding encode_all read_collections total_records collection_metadata
collections_ReadBack [] h few = (
  [],
  refl,
  refl,
  λ path rest record_count so_far below within.
      let e : so_far.decoded_records + 0 ≡ so_far.decoded_records = omega arith in
      rw (append-nil, append-nil, e),
)
collections_ReadBack (c ∷ cs) h few =
    let (front, e, size, back) = collection_ReadsBack c h.0 (omega arith) in
    let (more, es, sizes, backs) = collections_ReadBack cs h.1 (omega arith) in
    (
      front ++ more,
      rw (e, es),
      omega (arith, length-append front more),
      λ path rest record_count so_far below within.
          rw
            (
              append_assoc front more rest,
              back path (more ++ rest) record_count so_far (omega arith) within,
            )
            (backs path rest record_count (extended so_far c) (omega arith) within
              ∙ rw (
                append_assoc so_far.collections (c ∷ []) cs,
                append_assoc so_far.collection_metadata (collection_metadata c ∷ [])
                    (map collection_metadata cs),
                add_assoc so_far.decoded_records (length c.records)
                    (total_records (map collection_metadata cs)),
              )),
    )
