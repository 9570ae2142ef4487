-- ===== src/Errors.antt =====
-- `StoreError` of crates/mfs-store/src/store/error.rs: the errors of the raw store, of its log and of
-- its checkpoints.
use memory_first_store.Prelude.{ℕ, List}

pub data WalCorruptionKind : Type 0 where
  bad_magic unknown_format_version checksum_mismatch malformed_record : WalCorruptionKind
  non_monotonic_lsn payload_too_large field_too_large unknown_operation : WalCorruptionKind

pub data CheckpointCorruptionKind : Type 0 where
  bad_magic unknown_format_version checksum_mismatch malformed_checkpoint : CheckpointCorruptionKind
  payload_too_large field_too_large : CheckpointCorruptionKind

-- The `field` of `InvalidConfig`.
pub data ConfigField : Type 0 where
  max_collections raw_initial_capacity wal_path : ConfigField

-- `stuck` is no Rust value: a loop of the model ran out of fuel, or an index is out of range.
pub data StoreError : Type 0 where
  invalid_config : ConfigField → StoreError
  collection_already_exists : List ℕ → StoreError
  collection_not_found : List ℕ → StoreError
  collection_limit_exceeded : ℕ → StoreError
  collection_capacity_full : List ℕ → StoreError
  conflict : List ℕ → List ℕ → ℕ → ℕ → StoreError
  wal_corruption : ℕ → WalCorruptionKind → StoreError
  checkpoint_corruption : List ℕ → CheckpointCorruptionKind → StoreError
  stuck : StoreError
