-- ===== src/Store/Collection.antt =====
-- `RawCollection` of crates/mfs-store/src/store/raw.rs. The hook `after_success` writes only to
-- what its caller passes in, and is left out.
use memory_first_store.Prelude.{
  ℕ, ◌+◌, ◌-◌, ◌%◌, ◌^◌, Bool, false, not, Option, none, some, List, ◌==◌, if◌then◌else◌,
}
use memory_first_store.Prelude.Fail.{Result, ok, err, fail_if, ◌>>◌}
use memory_first_store.Errors.{StoreError}
use memory_first_store.Wal.{Crc}
use memory_first_store.Store.{
  RawRecord, RawCollection, RawWriteContext, ReadResult, WriteResult, StoreDurability,
  effective_durability, ack_lsn,
}
use memory_first_store.Store.Table.{ConcurrentMap, InsertOutcome, is_some}
use memory_first_store.Store.Durability.{acknowledge_write}

-- The version of a record, or `DocumentVersion::ZERO`.
abbrev pub version_of : Option RawRecord → ℕ
version_of none = 0
version_of (some r) = r.version

abbrev pub value_of : Option RawRecord → Option (List ℕ)
value_of none = none
value_of (some r) = r.value

-- As a `u64`.
abbrev pub next_version : ℕ → ℕ
next_version version = (version + 1) % 2 ^ 64

unfoldable pub read_result : Option RawRecord → Option ReadResult
read_result none = none
read_result (some r) = elim r.value [
  | none ↦ none
  | some value ↦ some (record { value = value; version = r.version })
]

-- The live records after a write: `fetch_add` and `fetch_sub` wrap around.
unfoldable pub next_count : Bool → Bool → ℕ → ℕ
next_count is_put was_live n =
    if is_put
    then (if was_live then n else (n + 1) % 2 ^ 64)
    else if was_live
    then (n + (2 ^ 64 - 1)) % 2 ^ 64
    else n

-- `expected != actual`, for a write that expects a version.
abbrev pub mismatch : Option ℕ → ℕ → Bool
mismatch none actual = false
mismatch (some expected) actual = not (expected == actual)

abbrev pub expected_or : Option ℕ → ℕ
expected_or none = 0
expected_or (some expected) = expected

module _ (t : ConcurrentMap RawRecord) where
  unfoldable pub collection_with_capacity : ℕ → RawCollection t.Table
  collection_with_capacity capacity = record {
    records = t.with_capacity capacity;
    record_count = 0;
  }

  -- `RawCollection::get`
  unfoldable pub get : List ℕ → RawCollection t.Table → Option ReadResult
  get key col = read_result (t.get key col.records)

  -- What `write_with_hooks` does after the insert.
  abbrev pub counted : Bool → Bool → t.Table → RawCollection t.Table → RawCollection t.Table
  counted is_put was_live records col = record {
    records = records;
    record_count = next_count is_put was_live col.record_count;
  }

  module _ (preflight : Option (List ℕ) → ℕ → Result StoreError (Unit {0})) where
    -- The checks before the log is written.
    unfoldable pub admit :
        List ℕ → RawWriteContext → RawCollection t.Table → Result StoreError (Unit {0})
    admit key context col =
        let old_record = t.get key col.records in
        let actual = version_of old_record in
        let expected = context.options.expected_version in
        do
          fail_if (mismatch expected actual)
              (StoreError.conflict context.collection key (expected_or expected) actual)
          preflight (value_of old_record) actual
          fail_if (not (t.can_insert_or_replace key col.records))
              (StoreError.collection_capacity_full context.collection)

    unfoldable pub write_with_hooks :
        Crc
        → List ℕ
        → Option (List ℕ)
        → RawWriteContext
        → StoreDurability
        → RawCollection t.Table
        → (StoreDurability × RawCollection t.Table) × Result StoreError WriteResult
    write_with_hooks c key value context d col = elim (admit key context col) [
      | err e ↦ ((d, col), err e)
      | ok u ↦
          let old_record = t.get key col.records in
          let was_live = is_some (value_of old_record) in
          let version = next_version (version_of old_record) in
          let mode = effective_durability context.options context.default_durability in
          let (d', acknowledged) =
            acknowledge_write c mode context.collection key value version d in
          elim acknowledged [
            | err e ↦ ((d', col), err e)
            | ok ack ↦
                let (records', outcome) =
                  t.insert key (record { value = value; version = version }) col.records in
                elim outcome [
                  | InsertOutcome.full ↦ (
                    (d', record col { records = records' }),
                    err (StoreError.collection_capacity_full context.collection),
                  )
                  | _ ↦ (
                    (d', counted (is_some value) was_live records' col),
                    ok (record { version = version; lsn = ack_lsn ack; acknowledgement = ack }),
                  )
                ]
          ]
    ]

  unfoldable pub insert_replay_record_locked :
      List ℕ
      → List ℕ
      → Option (List ℕ)
      → ℕ
      → RawCollection t.Table
      → Result StoreError (RawCollection t.Table)
  insert_replay_record_locked collection key value version col =
      let (records', outcome) =
        t.insert key (record { value = value; version = version }) col.records in
      let was_live = is_some (value_of (t.get key col.records)) in
      elim outcome [
        | InsertOutcome.full ↦ err (StoreError.collection_capacity_full collection)
        | _ ↦ ok (counted (is_some value) was_live records' col)
      ]
