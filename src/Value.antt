-- ===== src/Value.antt =====
-- The value model of crates/mfs-store/src/value.rs: the tagged values and their tags.
-- A `String` is its UTF-8 bytes, an `f64` its bit pattern, and a `BTreeMap` or `BTreeSet` the list
-- of its entries in ascending order of their keys.
pub mod Encode
pub mod Decode
pub mod Fits
pub mod RoundTrip
mod Tests
use memory_first_store.Prelude.{ℕ, List}
use memory_first_store.Prelude.Int.{ℤ}

pub data ValueTag : Type 0 where
  bytes string integer list hash set sorted_set json stream null : ValueTag

-- `tag as u8`
unfoldable pub tag_byte : ValueTag → ℕ
tag_byte ValueTag.bytes = 0
tag_byte ValueTag.string = 1
tag_byte ValueTag.integer = 2
tag_byte ValueTag.list = 3
tag_byte ValueTag.hash = 4
tag_byte ValueTag.set = 5
tag_byte ValueTag.sorted_set = 6
tag_byte ValueTag.json = 7
tag_byte ValueTag.stream = 8
tag_byte ValueTag.null = 9

pub record SortedSetEntry : Type 0 where
  pub score : ℕ
  pub member : List ℕ

pub record StreamId : Type 0 where
  pub millis : ℕ
  pub sequence : ℕ

abbrev pub Field : Type 0
Field = List ℕ × List ℕ

pub record StreamEntry : Type 0 where
  pub id : StreamId
  pub fields : List Field

pub data MfsValue : Type 0 where
  bytes : List ℕ → MfsValue
  string : List ℕ → MfsValue
  integer : ℤ → MfsValue
  list : List (List ℕ) → MfsValue
  hash : List Field → MfsValue
  set : List (List ℕ) → MfsValue
  sorted_set : List SortedSetEntry → MfsValue
  json : List ℕ → MfsValue
  stream : List StreamEntry → MfsValue
  null : MfsValue

unfoldable pub tag : MfsValue → ValueTag
tag (MfsValue.bytes _) = ValueTag.bytes
tag (MfsValue.string _) = ValueTag.string
tag (MfsValue.integer _) = ValueTag.integer
tag (MfsValue.list _) = ValueTag.list
tag (MfsValue.hash _) = ValueTag.hash
tag (MfsValue.set _) = ValueTag.set
tag (MfsValue.sorted_set _) = ValueTag.sorted_set
tag (MfsValue.json _) = ValueTag.json
tag (MfsValue.stream _) = ValueTag.stream
tag MfsValue.null = ValueTag.null

abbrev pub max_encoded_value_bytes : ℕ
max_encoded_value_bytes = 67108864

abbrev pub max_collection_items : ℕ
max_collection_items = 1048576

abbrev pub max_blob_bytes : ℕ
max_blob_bytes = 67108864
