-- ===== src/Checkpoint/Payload.antt =====
-- The payload of a checkpoint is read back as it was written
-- (crates/mfs-store/src/store/checkpoint.rs).
use native.Mathlib.Nat.{zero-add}
use memory_first_store.Prelude.{
  ℕ, suc, ◌≤◌, ◌≡◌, refl, List, [], ◌∷◌, ◌++◌, arith, length, map, append-nil, length-append,
  ==_iff, ap,
}
use memory_first_store.Prelude.Fail.{ok}
use memory_first_store.Bytes.Words.{le_bytes, length-le_bytes}
use memory_first_store.Store.{MfsStoreConfig}
use memory_first_store.Checkpoint.{
  RawCollectionSnapshot, RawStoreSnapshot, RawCheckpointMetadata, u32_max, u64_max,
  raw_checkpoint_format_version, min_record_payload_bytes, min_collection_payload_bytes,
}
use memory_first_store.Checkpoint.Encode.{
  collection_metadata, total_records, metadata_for_snapshot, encode_payload,
}
use memory_first_store.Checkpoint.Decode.{no_collections, read_collections, decode_payload}
use memory_first_store.Checkpoint.Fits.{
  FitsSnapshot, payload_size, collections-size, total_records-size,
}
use memory_first_store.Checkpoint.Loops.{collections_ReadBack}
use memory_first_store.Checkpoint.Fields.{
  write_word-ok, read_word-le_bytes, read_usize_from_u64-le_bytes, validate_count-ok,
}

length-metadata :
    (cs : List RawCollectionSnapshot) → length (map collection_metadata cs) ≡ length cs
length-metadata [] = refl
length-metadata (c ∷ cs) = ap suc (length-metadata cs)

-- The numbers are `u64`.
abbrev pub FitsNumbers : MfsStoreConfig → ℕ → Type 0
FitsNumbers config lsn =
    (lsn ≤ u64_max) × (config.max_collections ≤ u64_max) × (config.raw_initial_capacity ≤ u64_max)

module _ (config : MfsStoreConfig) (lsn : ℕ) (snapshot : RawStoreSnapshot) where
  abbrev pub written_metadata : RawCheckpointMetadata
  written_metadata = metadata_for_snapshot config lsn snapshot

  pub payload_ReadsBack :
      FitsSnapshot snapshot
      → FitsNumbers config lsn
      → (bs : List ℕ) × (encode_payload written_metadata snapshot ≡ ok bs)
        × (length bs ≡ payload_size snapshot)
        × ((path : List ℕ)
            → decode_payload path raw_checkpoint_format_version bs
              ≡ ok (record { metadata = written_metadata; snapshot = snapshot }))
  unfolding encode_payload decode_payload metadata_for_snapshot
  payload_ReadsBack h (l, m, n) =
      let cs = snapshot.collections in
      let total = total_records (map collection_metadata cs) in
      let least = total_records-size cs in
      let least_each = collections-size cs in
      let (bs, e, size, back) = collections_ReadBack cs h.0 (omega arith) in
      let counts = le_bytes 4 (length cs) ++ (le_bytes 8 total ++ bs) in
      let numbers =
        le_bytes 8 config.max_collections ++ (le_bytes 8 config.raw_initial_capacity ++ counts) in
      (
        le_bytes 8 lsn ++ numbers,
        rw (
          write_word-ok u64_max 8 config.max_collections m,
          write_word-ok u64_max 8 config.raw_initial_capacity n,
          write_word-ok u32_max 4 (length cs) (omega arith),
          write_word-ok u64_max 8 total (omega arith),
          e,
        ),
        omega (
          arith,
          size,
          length-append (le_bytes 8 lsn) numbers,
          length-append (le_bytes 8 config.max_collections)
              (le_bytes 8 config.raw_initial_capacity ++ counts),
          length-append (le_bytes 8 config.raw_initial_capacity) counts,
          length-append (le_bytes 4 (length cs)) (le_bytes 8 total ++ bs),
          length-append (le_bytes 8 total) bs,
          length-le_bytes 8 lsn,
          length-le_bytes 8 config.max_collections,
          length-le_bytes 8 config.raw_initial_capacity,
          length-le_bytes 4 (length cs),
          length-le_bytes 8 total,
        ),
        λ path.
            let all : read_collections path total (length cs) no_collections bs
                ≡ ok (
                  record {
                    collections = cs;
                    collection_metadata = map collection_metadata cs;
                    decoded_records = total;
                  },
                  [],
                ) =
              rw (append-nil, zero-add total) at
                (back path [] total no_collections (omega arith) (omega arith)) in
            rw (
              read_word-le_bytes path 8 lsn numbers (omega arith),
              read_usize_from_u64-le_bytes path config.max_collections
                  (le_bytes 8 config.raw_initial_capacity ++ counts) m,
              read_usize_from_u64-le_bytes path config.raw_initial_capacity counts n,
              read_word-le_bytes path 4 (length cs) (le_bytes 8 total ++ bs) (omega arith),
              read_usize_from_u64-le_bytes path total bs (omega arith),
              validate_count-ok path min_collection_payload_bytes (length cs) (length bs)
                  (omega arith),
              validate_count-ok path min_record_payload_bytes total (length bs) (omega arith),
              all,
              length-metadata cs,
              (==_iff total total).1 refl,
            ),
      )
