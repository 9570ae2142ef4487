-- ===== src/Store/Raw.antt =====
-- The raw operations of `MfsStore` (crates/mfs-store/src/store/raw.rs), without schema indexes.
use memory_first_store.Prelude.{
  ℕ, ◌+◌, ◌%◌, ◌^◌, Bool, true, false, ◌&&◌, not, Option, none, some, List, [], length, leb, ◌==◌,
}
use memory_first_store.Prelude.Fail.{Result, ok, err, fail_if, ◌>>=◌, ◌>>◌}
use memory_first_store.Errors.{StoreError, ConfigField}
use memory_first_store.Maps.{bytes_keyed, lookup, insert}
use memory_first_store.Wal.{Crc}
use memory_first_store.Store.{
  DurabilityMode, RawRecord, RawCollection, RawWriteContext, ReadResult, WriteResult, WriteOptions,
  MfsStore, MfsStoreConfig,
}
use memory_first_store.Store.Table.{ConcurrentMap, is_some}
use memory_first_store.Store.Durability.{new_durability}
use memory_first_store.Store.Collection.{collection_with_capacity, get, write_with_hooks}

unfoldable pub is_wal_mode : DurabilityMode → Bool
is_wal_mode DurabilityMode.memory_only = false
is_wal_mode DurabilityMode.snapshot_only = false
is_wal_mode DurabilityMode.wal_async = true
is_wal_mode DurabilityMode.wal_group_commit = true
is_wal_mode DurabilityMode.wal_sync = true

unfoldable pub validate_store_config : MfsStoreConfig → Result StoreError (Unit {0})
validate_store_config config = do
  fail_if (config.max_collections == 0) (StoreError.invalid_config ConfigField.max_collections)
  fail_if (config.raw_initial_capacity == 0)
      (StoreError.invalid_config ConfigField.raw_initial_capacity)
  fail_if (is_wal_mode config.durability && not (is_some config.wal_path))
      (StoreError.invalid_config ConfigField.wal_path)

abbrev pub default_options : WriteOptions
default_options = record { durability = none; expected_version = none }

-- The hook of a raw write.
abbrev pub no_preflight : Option (List ℕ) → ℕ → Result StoreError (Unit {0})
no_preflight old_value actual = ok tt

module _ (t : ConcurrentMap RawRecord) where
  -- `file` is what the file at the path of the log holds.
  unfoldable pub open_memory :
      MfsStoreConfig → Option (List ℕ) → Result StoreError (MfsStore t.Table)
  open_memory config file = do
    validate_store_config config
    ok (record {
      config = config;
      durability = new_durability config file;
      collections = [];
      next_collection_id = 1;
    })

  unfoldable pub create_raw_collection :
      List ℕ → MfsStore t.Table → Result StoreError (MfsStore t.Table × ℕ)
  create_raw_collection name s = do
    fail_if (is_some (lookup name s.collections)) (StoreError.collection_already_exists name)
    fail_if (leb s.config.max_collections (length s.collections))
        (StoreError.collection_limit_exceeded s.config.max_collections)
    ok (
      record s {
        collections =
            insert name (collection_with_capacity t s.config.raw_initial_capacity) s.collections;
        next_collection_id = (s.next_collection_id + 1) % 2 ^ 64;
      },
      s.next_collection_id,
    )

  unfoldable pub raw_collection :
      List ℕ → MfsStore t.Table → Result StoreError (RawCollection t.Table)
  raw_collection name s = elim (lookup name s.collections) [
    | none ↦ err (StoreError.collection_not_found name)
    | some col ↦ ok col
  ]

  module _ (c : Crc) where
    -- `put_raw_with_hooks`, with a value, and `delete_raw_with_hooks`, without one.
    unfoldable pub write_raw :
        List ℕ
        → List ℕ
        → Option (List ℕ)
        → WriteOptions
        → (Option (List ℕ) → ℕ → Result StoreError (Unit {0}))
        → MfsStore t.Table
        → MfsStore t.Table × Result StoreError WriteResult
    write_raw name key value options preflight s = elim (raw_collection name s) [
      | err e ↦ (s, err e)
      | ok col ↦
          let context : RawWriteContext = record {
            collection = name;
            options = options;
            default_durability = s.config.durability;
          } in
          let ((d, col'), result) =
            write_with_hooks t preflight c key value context s.durability col in
          (record s { durability = d; collections = insert name col' s.collections }, result)
    ]

    unfoldable pub put_raw :
        List ℕ
        → List ℕ
        → List ℕ
        → WriteOptions
        → MfsStore t.Table
        → MfsStore t.Table × Result StoreError WriteResult
    put_raw name key value options s = write_raw name key (some value) options no_preflight s

    unfoldable pub compare_put_raw :
        List ℕ
        → List ℕ
        → List ℕ
        → ℕ
        → MfsStore t.Table
        → MfsStore t.Table × Result StoreError WriteResult
    compare_put_raw name key value expected s =
        put_raw name key value (record default_options { expected_version = some expected }) s

    unfoldable pub delete_raw :
        List ℕ
        → List ℕ
        → WriteOptions
        → MfsStore t.Table
        → MfsStore t.Table × Result StoreError WriteResult
    delete_raw name key options s = write_raw name key none options no_preflight s

  -- `ReadOptions` is not used.
  unfoldable pub get_raw :
      List ℕ → List ℕ → MfsStore t.Table → Result StoreError (Option ReadResult)
  get_raw name key s = do col ← raw_collection name s; ok (get t key col)

  unfoldable pub collection_count : List ℕ → MfsStore t.Table → Result StoreError ℕ
  collection_count name s = do col ← raw_collection name s; ok col.record_count
