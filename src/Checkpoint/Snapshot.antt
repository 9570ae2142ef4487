-- ===== src/Checkpoint/Snapshot.antt =====
-- Snapshots of a raw store: `snapshot_records`, `raw_snapshot` and `from_raw_snapshot` of
-- crates/mfs-store/src/store/raw.rs.
use memory_first_store.Prelude.{
  ℕ, ◌+◌, ◌*◌, ◌%◌, ◌^◌, Option, List, [], ◌∷◌, length, map, min, max, ltb, if◌then◌else◌,
}
use memory_first_store.Prelude.Fail.{Result, ok, err, fail_if, ◌>>=◌, ◌>>◌}
use memory_first_store.Errors.{StoreError}
use memory_first_store.Maps.{bytes_keyed, lookup, insert}
use memory_first_store.Maps.Sorting.{sort_by}
use memory_first_store.Store.{RawRecord, RawCollection, MfsStore, MfsStoreConfig}
use memory_first_store.Store.Table.{ConcurrentMap, InsertOutcome, is_some}
use memory_first_store.Store.Durability.{new_durability}
use memory_first_store.Store.Raw.{validate_store_config}
use memory_first_store.Checkpoint.{
  RawSnapshotRecord, RawCollectionSnapshot, RawStoreSnapshot, u64_max,
}

abbrev pub record_key : RawSnapshotRecord → List ℕ
record_key r = r.key

abbrev pub snapshot_name : RawCollectionSnapshot → List ℕ
snapshot_name c = c.name

abbrev pub snapshot_record : List ℕ × RawRecord → RawSnapshotRecord
snapshot_record (key, r) = record { key = key; value = r.value; version = r.version }

-- The capacity that a collection gets: `saturating_mul` stops at the greatest `usize`.
abbrev pub snapshot_capacity : MfsStoreConfig → RawCollectionSnapshot → ℕ
snapshot_capacity config c =
    max (max config.raw_initial_capacity (min (length c.records * 2) u64_max)) 1

module _ (t : ConcurrentMap RawRecord) where
  unfoldable pub snapshot_records : RawCollection t.Table → List RawSnapshotRecord
  snapshot_records col = sort_by record_key (map snapshot_record (t.entries col.records))

  abbrev pub snapshot_collection : List ℕ × RawCollection t.Table → RawCollectionSnapshot
  snapshot_collection (name, col) = record { name = name; records = snapshot_records col }

  unfoldable pub raw_snapshot : MfsStore t.Table → RawStoreSnapshot
  raw_snapshot s = record {
    collections = sort_by snapshot_name (map snapshot_collection s.collections);
  }

  -- The inner loop of `from_raw_snapshot`: the table and the live count so far.
  unfoldable pub load_records :
      List ℕ → List RawSnapshotRecord → t.Table → ℕ → Result StoreError (t.Table × ℕ)
  load_records name [] records live_count = ok (records, live_count)
  load_records name (r ∷ rs) records live_count =
      let live = if is_some r.value then (live_count + 1) % 2 ^ 64 else live_count in
      let (records', outcome) =
        t.insert r.key (record { value = r.value; version = r.version }) records in
      let rest = load_records name rs records' live in
      elim outcome [
        | InsertOutcome.full ↦ err (StoreError.collection_capacity_full name)
        | _ ↦ rest
      ]

  -- The outer loop: the collections so far.
  unfoldable pub load_collections :
      MfsStoreConfig
      → List RawCollectionSnapshot
      → List (List ℕ × RawCollection t.Table)
      → Result StoreError (List (List ℕ × RawCollection t.Table))
  load_collections config [] collections = ok collections
  load_collections config (c ∷ cs) collections = do
    fail_if (is_some (lookup c.name collections)) (StoreError.collection_already_exists c.name)
    (records, live_count) ←
        load_records c.name c.records (t.with_capacity (snapshot_capacity config c)) 0
    load_collections config cs
        (insert c.name (record { records = records; record_count = live_count }) collections)

  -- `file` is what the file at the path of the log holds.
  unfoldable pub from_raw_snapshot :
      MfsStoreConfig → RawStoreSnapshot → Option (List ℕ) → Result StoreError (MfsStore t.Table)
  from_raw_snapshot config snapshot file = do
    validate_store_config config
    fail_if (ltb config.max_collections (length snapshot.collections))
        (StoreError.collection_limit_exceeded config.max_collections)
    collections ← load_collections config snapshot.collections []
    ok (record {
      config = config;
      durability = new_durability config file;
      collections = collections;
      next_collection_id = (length collections + 1) % 2 ^ 64;
    })
