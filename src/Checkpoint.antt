-- ===== src/Checkpoint.antt =====
-- The checkpoints of crates/mfs-store/src/store/checkpoint.rs and the snapshots of a store
-- (crates/mfs-store/src/store/raw.rs): their types and constants.
-- `usize` is 64 bits wide. A path is its bytes.
pub mod Encode
pub mod Decode
pub mod Fits
pub mod Fields
pub mod Loops
pub mod Payload
pub mod File
pub mod Snapshot
pub mod Restored
pub mod Loading
pub mod Loaded
pub mod Directory
pub mod Failures
pub mod Latest
pub mod Newer
pub mod Recovery
mod Tests
use memory_first_store.Prelude.{ℕ, ◌-◌, ◌^◌, Option, List, [], ◌∷◌}

pub record RawSnapshotRecord : Type 0 where
  pub key : List ℕ
  pub value : Option (List ℕ)
  pub version : ℕ

pub record RawCollectionSnapshot : Type 0 where
  pub name : List ℕ
  pub records : List RawSnapshotRecord

pub record RawStoreSnapshot : Type 0 where
  pub collections : List RawCollectionSnapshot

pub record RawCheckpointCollectionMetadata : Type 0 where
  pub name : List ℕ
  pub record_count : ℕ

pub record RawCheckpointMetadata : Type 0 where
  pub format_version : ℕ
  pub checkpoint_lsn : ℕ
  pub engine_max_collections : ℕ
  pub engine_raw_initial_capacity : ℕ
  pub collection_count : ℕ
  pub record_count : ℕ
  pub collections : List RawCheckpointCollectionMetadata

pub record DecodedRawCheckpoint : Type 0 where
  pub metadata : RawCheckpointMetadata
  pub snapshot : RawStoreSnapshot

-- The bytes `MFSC`.
abbrev pub raw_checkpoint_magic : ℕ
raw_checkpoint_magic = 0x4353464d

abbrev pub raw_checkpoint_format_version : ℕ
raw_checkpoint_format_version = 1

-- `HEADER_LEN` and `CHECKSUM_LEN`.
abbrev pub checkpoint_header_len : ℕ
checkpoint_header_len = 14

abbrev pub checkpoint_checksum_len : ℕ
checkpoint_checksum_len = 4

abbrev pub max_checkpoint_payload_bytes : ℕ
max_checkpoint_payload_bytes = 536870912

abbrev pub max_checkpoint_field_bytes : ℕ
max_checkpoint_field_bytes = 67108864

abbrev pub min_collection_payload_bytes : ℕ
min_collection_payload_bytes = 12

abbrev pub min_record_payload_bytes : ℕ
min_record_payload_bytes = 13

abbrev pub record_tombstone : ℕ
record_tombstone = 0

abbrev pub record_value : ℕ
record_value = 1

abbrev pub u32_max : ℕ
u32_max = 2 ^ 32 - 1

abbrev pub u64_max : ℕ
u64_max = 2 ^ 64 - 1

-- `<encode>`, the path in the errors of the encoder.
abbrev pub encode_path : List ℕ
encode_path = b'<' ∷ b'e' ∷ b'n' ∷ b'c' ∷ b'o' ∷ b'd' ∷ b'e' ∷ b'>' ∷ []
