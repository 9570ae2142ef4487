-- ===== src/Checkpoint/Fits.antt =====
-- The snapshots that a checkpoint can hold, and how many bytes it takes
-- (crates/mfs-store/src/store/checkpoint.rs).
use memory_first_store.Prelude.{
  ℕ, ◌+◌, ◌*◌, ◌^◌, ◌<◌, ◌≤◌, ◌≡◌, true, false, Option, none, some, List, [], ◌∷◌, arith, length,
  map, All,
}
use memory_first_store.Bytes.Utf8.{is_utf8}
use memory_first_store.Wal.Decode.{is_empty}
use memory_first_store.Checkpoint.{
  RawSnapshotRecord, RawCollectionSnapshot, RawStoreSnapshot, max_checkpoint_field_bytes,
  max_checkpoint_payload_bytes,
}
use memory_first_store.Checkpoint.Encode.{collection_metadata, total_records}

abbrev pub FitsField : List ℕ → Type 0
FitsField bs = length bs ≤ max_checkpoint_field_bytes

abbrev pub FitsValue : Option (List ℕ) → Type 0
FitsValue none = Unit
FitsValue (some value) = FitsField value

-- A written record has a version, and its fields are within the limit.
pub record FitsRecord (r : RawSnapshotRecord) : Type 0 where
  pub above : 0 < r.version
  pub version : r.version < 2 ^ 64
  pub key : FitsField r.key
  pub value : FitsValue r.value

pub record FitsCollection (c : RawCollectionSnapshot) : Type 0 where
  pub name : FitsField c.name
  pub text : is_utf8 c.name ≡ true
  pub named : is_empty c.name ≡ false
  pub records : All FitsRecord c.records

abbrev pub value_size : Option (List ℕ) → ℕ
value_size none = 0
value_size (some value) = 4 + length value

abbrev pub record_size : RawSnapshotRecord → ℕ
record_size r = 13 + length r.key + value_size r.value

abbrev pub sum_by {ℓ} : {A : Type ℓ} → (A → ℕ) → List A → ℕ
sum_by f [] = 0
sum_by f (x ∷ xs) = f x + sum_by f xs

abbrev pub collection_size : RawCollectionSnapshot → ℕ
collection_size c = 12 + length c.name + sum_by record_size c.records

abbrev pub payload_size : RawStoreSnapshot → ℕ
payload_size snapshot = 36 + sum_by collection_size snapshot.collections

abbrev pub FitsSnapshot : RawStoreSnapshot → Type 0
FitsSnapshot snapshot =
    All FitsCollection snapshot.collections × (payload_size snapshot ≤ max_checkpoint_payload_bytes)

-- The least sizes, which the decoder's checks of the counts rely on.
pub records-size : (rs : List RawSnapshotRecord) → length rs * 13 ≤ sum_by record_size rs
records-size [] = omega arith
records-size (r ∷ rs) = omega (arith, records-size rs)

pub collections-size :
    (cs : List RawCollectionSnapshot) → length cs * 12 ≤ sum_by collection_size cs
collections-size [] = omega arith
collections-size (c ∷ cs) = omega (arith, collections-size cs)

pub total_records-size :
    (cs : List RawCollectionSnapshot)
    → total_records (map collection_metadata cs) * 13 ≤ sum_by collection_size cs
unfolding total_records collection_metadata
total_records-size [] = omega arith
total_records-size (c ∷ cs) = omega (arith, records-size c.records, total_records-size cs)
