-- ===== src/Wal.antt =====
-- The raw write-ahead log of crates/mfs-store/src/store/wal.rs: its records and constants, and the
-- checksum that the code takes from the crate `crc32c`.
-- A collection name is its UTF-8 bytes; keys and values are bytes, LSNs and versions are numbers.
pub mod Encode
pub mod Decode
pub mod Codec
pub mod Scan
pub mod Frames
pub mod Crash
pub mod Canonical
mod Accepted
pub mod Recovery
pub mod Writer
pub mod Torn
pub mod Reopen
pub mod Append
pub mod Whole
pub mod Compaction
pub mod Tests
use memory_first_store.Prelude.{ℕ, ◌^◌, ◌<◌, List, [], ◌∷◌, Option}

-- `Operation` of crates/mfs-core/src/lib.rs.
pub data Operation : Type 0 where
  put delete : Operation

pub record RawWalRecord : Type 0 where
  pub lsn : ℕ
  pub version : ℕ
  pub collection : List ℕ
  pub op : Operation
  pub key : List ℕ
  pub value : Option (List ℕ)

-- The bytes `MFSW`.
abbrev pub raw_wal_record_magic : ℕ
raw_wal_record_magic = 0x5753464d

abbrev pub raw_wal_format_version : ℕ
raw_wal_format_version = 2

abbrev pub raw_wal_max_payload_bytes : ℕ
raw_wal_max_payload_bytes = 67108864

abbrev pub raw_wal_max_field_bytes : ℕ
raw_wal_max_field_bytes = 67108864

abbrev pub header_len : ℕ
header_len = 8

abbrev pub checksum_len : ℕ
checksum_len = 4

abbrev pub op_code : Operation → ℕ
op_code Operation.put = 1
op_code Operation.delete = 2

-- The crate `crc32c`: a checksum, and one that goes on from a checksum; both are `u32`.
pub record Crc : Type 0 where
  pub crc32c : List ℕ → ℕ
  pub crc32c_append : ℕ → List ℕ → ℕ
  pub crc32c_u32 : (bs : List ℕ) → crc32c bs < 2 ^ 32
  pub crc32c_append_u32 : (crc : ℕ) (bs : List ℕ) → crc32c_append crc bs < 2 ^ 32
