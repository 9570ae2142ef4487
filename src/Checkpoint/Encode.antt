-- ===== src/Checkpoint/Encode.antt =====
-- `metadata_for_snapshot` and `encode_checkpoint` of
-- crates/mfs-store/src/store/checkpoint.rs.
use memory_first_store.Prelude.{ℕ, ◌+◌, Option, none, some, List, [], ◌∷◌, ◌++◌, length, map, ltb}
use memory_first_store.Prelude.Fail.{Result, ok, fail_if, ◌>>=◌, ◌>>◌}
use memory_first_store.Bytes.Words.{le_bytes}
use memory_first_store.Errors.{StoreError, CheckpointCorruptionKind}
use memory_first_store.Wal.{Crc}
use memory_first_store.Store.{MfsStoreConfig}
use memory_first_store.Checkpoint.{
  RawSnapshotRecord, RawCollectionSnapshot, RawStoreSnapshot, RawCheckpointCollectionMetadata,
  RawCheckpointMetadata, raw_checkpoint_magic, raw_checkpoint_format_version,
  max_checkpoint_payload_bytes, max_checkpoint_field_bytes, record_tombstone, record_value, u32_max,
  u64_max, encode_path,
}

unfoldable pub collection_metadata : RawCollectionSnapshot → RawCheckpointCollectionMetadata
collection_metadata c = record { name = c.name; record_count = length c.records }

unfoldable pub total_records : List RawCheckpointCollectionMetadata → ℕ
total_records [] = 0
total_records (c ∷ cs) = c.record_count + total_records cs

unfoldable pub metadata_for_snapshot : MfsStoreConfig → ℕ → RawStoreSnapshot → RawCheckpointMetadata
metadata_for_snapshot config checkpoint_lsn snapshot =
    let collections = map collection_metadata snapshot.collections in
    record {
      format_version = raw_checkpoint_format_version;
      checkpoint_lsn = checkpoint_lsn;
      engine_max_collections = config.max_collections;
      engine_raw_initial_capacity = config.raw_initial_capacity;
      collection_count = length collections;
      record_count = total_records collections;
      collections = collections;
    }

abbrev pub checkpoint_corrupt : List ℕ → CheckpointCorruptionKind → StoreError
checkpoint_corrupt path kind = StoreError.checkpoint_corruption path kind

-- `write_u32` and `write_u64`, by the greatest number and the number of bytes.
unfoldable pub write_word : ℕ → ℕ → ℕ → Result StoreError (List ℕ)
write_word greatest n value = do
  fail_if (ltb greatest value)
      (checkpoint_corrupt encode_path CheckpointCorruptionKind.field_too_large)
  ok (le_bytes n value)

abbrev pub write_u32 : ℕ → Result StoreError (List ℕ)
write_u32 value = write_word u32_max 4 value

abbrev pub write_u64 : ℕ → Result StoreError (List ℕ)
write_u64 value = write_word u64_max 8 value

unfoldable pub write_len_prefixed : List ℕ → Result StoreError (List ℕ)
write_len_prefixed bs = do
  fail_if (ltb max_checkpoint_field_bytes (length bs))
      (checkpoint_corrupt encode_path CheckpointCorruptionKind.field_too_large)
  len ← write_u32 (length bs)
  ok (len ++ bs)

-- The marker, and the value if there is one.
unfoldable pub encode_value : Option (List ℕ) → Result StoreError (List ℕ)
encode_value none = ok (record_tombstone ∷ [])
encode_value (some value) = do bs ← write_len_prefixed value; ok (record_value ∷ bs)

unfoldable pub encode_record : RawSnapshotRecord → Result StoreError (List ℕ)
encode_record r = do
  key ← write_len_prefixed r.key
  value ← encode_value r.value
  ok (le_bytes 8 r.version ++ (key ++ value))

-- A loop that appends what each round encodes.
unfoldable pub encode_all {ℓ} :
    {A : Type ℓ} → (A → Result StoreError (List ℕ)) → List A → Result StoreError (List ℕ)
encode_all enc [] = ok []
encode_all enc (x ∷ xs) = do front ← enc x; more ← encode_all enc xs; ok (front ++ more)

unfoldable pub encode_collection : RawCollectionSnapshot → Result StoreError (List ℕ)
encode_collection c = do
  name ← write_len_prefixed c.name
  count ← write_u64 (length c.records)
  records ← encode_all encode_record c.records
  ok (name ++ (count ++ records))

unfoldable pub encode_payload :
    RawCheckpointMetadata → RawStoreSnapshot → Result StoreError (List ℕ)
encode_payload metadata snapshot = do
  max_collections ← write_u64 metadata.engine_max_collections
  capacity ← write_u64 metadata.engine_raw_initial_capacity
  collection_count ← write_u32 (length snapshot.collections)
  record_count ← write_u64 metadata.record_count
  collections ← encode_all encode_collection snapshot.collections
  ok (
      le_bytes 8 metadata.checkpoint_lsn
      ++ (max_collections ++ (capacity ++ (collection_count ++ (record_count ++ collections)))))

-- The magic number, the format version, and the payload behind its length.
unfoldable pub checkpoint_body : List ℕ → List ℕ
checkpoint_body payload =
    le_bytes 4 raw_checkpoint_magic
    ++ (le_bytes 2 raw_checkpoint_format_version ++ (le_bytes 8 (length payload) ++ payload))

module _ (c : Crc) where
  unfoldable pub checkpoint_file : List ℕ → List ℕ
  checkpoint_file payload =
      checkpoint_body payload ++ le_bytes 4 (c.crc32c (checkpoint_body payload))

  unfoldable pub encode_checkpoint :
      RawCheckpointMetadata → RawStoreSnapshot → Result StoreError (List ℕ)
  encode_checkpoint metadata snapshot = do
    payload ← encode_payload metadata snapshot
    fail_if (ltb max_checkpoint_payload_bytes (length payload))
        (checkpoint_corrupt encode_path CheckpointCorruptionKind.payload_too_large)
    ok (checkpoint_file payload)
