-- ===== src/Store.antt =====
-- The raw store of crates/mfs-store/src/store/raw.rs: its types and those of types.rs, semantics.rs
-- and config.rs in the same folder.
-- Locks are left out: an operation is a function from the store before it to the store after it.
pub mod Table
pub mod Durability
pub mod Collection
pub mod Raw
pub mod Replay
pub mod Entries
pub mod Applied
pub mod Recovery
pub mod Appended
pub mod Logged
pub mod Writes
pub mod Rebuild
pub mod Compacted
pub mod Synced
pub mod Tests
use memory_first_store.Prelude.{ℕ, Bool, Option, none, some, List}
use memory_first_store.Wal.Writer.{RawWalSegmentWriter}

pub data DurabilityMode : Type 0 where
  memory_only wal_async wal_group_commit wal_sync snapshot_only : DurabilityMode

pub record WriteOptions : Type 0 where
  pub durability : Option DurabilityMode
  pub expected_version : Option ℕ

unfoldable pub effective_durability : WriteOptions → DurabilityMode → DurabilityMode
effective_durability options engine_default = elim options.durability [
  | some durability ↦ durability
  | none ↦ engine_default
]

pub data WriteAcknowledgement : Type 0 where
  memory_only snapshot_only : WriteAcknowledgement
  wal_buffered wal_synced wal_group_committed : ℕ → WriteAcknowledgement

unfoldable pub ack_lsn : WriteAcknowledgement → Option ℕ
ack_lsn WriteAcknowledgement.memory_only = none
ack_lsn WriteAcknowledgement.snapshot_only = none
ack_lsn (WriteAcknowledgement.wal_buffered lsn) = some lsn
ack_lsn (WriteAcknowledgement.wal_synced lsn) = some lsn
ack_lsn (WriteAcknowledgement.wal_group_committed lsn) = some lsn

pub record WriteResult : Type 0 where
  pub version : ℕ
  pub lsn : Option ℕ
  pub acknowledgement : WriteAcknowledgement

pub record ReadResult : Type 0 where
  pub value : List ℕ
  pub version : ℕ

-- A deleted key keeps its version, with no value.
pub record RawRecord : Type 0 where
  pub value : Option (List ℕ)
  pub version : ℕ

-- `M` is the table that holds the records.
pub record RawCollection (M : Type 0) : Type 0 where
  pub records : M
  pub record_count : ℕ

pub record MfsStoreConfig : Type 0 where
  pub max_collections : ℕ
  pub raw_initial_capacity : ℕ
  pub durability : DurabilityMode
  pub wal_path : Option (List ℕ)

-- `file` is what the file at the path holds, if there is one.
pub record StoreDurability : Type 0 where
  pub wal_path : Option (List ℕ)
  pub wal : Option RawWalSegmentWriter
  pub wal_dirty : Bool
  pub file : Option (List ℕ)

pub record MfsStore (M : Type 0) : Type 0 where
  pub config : MfsStoreConfig
  pub durability : StoreDurability
  pub collections : List (List ℕ × RawCollection M)
  pub next_collection_id : ℕ

-- `RawWriteContext`, without the store's durability, which is passed apart.
pub record RawWriteContext : Type 0 where
  pub collection : List ℕ
  pub options : WriteOptions
  pub default_durability : DurabilityMode
