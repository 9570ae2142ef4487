-- ===== src/Store/Entries.antt =====
-- The records that a raw store has for a collection and a key, and how replaying one record of the
-- log changes them (crates/mfs-store/src/store/raw.rs and wal.rs).
use memory_first_store.Prelude.{
  leb, length, ◌+◌, ◌%◌, ◌^◌, ℕ, ◌≡◌, refl, ◌∙◌, true, false, Option, none, some, List, arith,
  if◌then◌else◌, Bool-cases, inl, inr,
}
use memory_first_store.Prelude.Fail.{ok, err, Result-cases, >>=-elim, fail_if-elim}
use memory_first_store.Errors.{StoreError}
use memory_first_store.Maps.{
  NamedKey, bytes_keyed, named_keyed, bytes_same, named_same, bytes_same_iff, lookup, insert,
  lookup-insert,
}
use memory_first_store.Store.{RawRecord, RawCollection, MfsStore}
use memory_first_store.Store.Table.{ConcurrentMap, is_some}
use memory_first_store.Store.Collection.{
  insert_replay_record_locked, counted, value_of, collection_with_capacity,
}
use memory_first_store.Store.Raw.{create_raw_collection, raw_collection}
use memory_first_store.Store.Replay.{apply_raw_replay_record, ensure_raw_collection}

module _ (t : ConcurrentMap RawRecord) where
  abbrev pub record_in : List ℕ → Option (RawCollection t.Table) → Option RawRecord
  record_in key none = none
  record_in key (some col) = t.get key col.records

  -- The record that the store has, a tombstone included.
  abbrev pub entry : NamedKey → MfsStore t.Table → Option RawRecord
  entry k s = record_in k.1 (lookup k.0 s.collections)

  module _ (name key : List ℕ) (value : Option (List ℕ)) (version : ℕ)
      (col : RawCollection t.Table) where
    abbrev replaying : RawRecord
    replaying = record { value = value; version = version }

    pub insert_replay_record_locked-fits :
        t.can_insert_or_replace key col.records ≡ true
        → insert_replay_record_locked t name key value version col
          ≡ ok (
              counted t
                (is_some value)
                (is_some (value_of (t.get key col.records)))
                (t.insert key replaying col.records).0
                col)
    unfolding insert_replay_record_locked
    insert_replay_record_locked-fits room =
        rw (t.insert-fits key replaying col.records room, insert_replay_record_locked)
          (elim (Bool-cases (is_some (t.get key col.records))) [
            | inl old ↦ rw old
            | inr new ↦ rw new
          ])

    pub insert_replay_record_locked-full :
        t.can_insert_or_replace key col.records ≡ false
        → insert_replay_record_locked t name key value version col
          ≡ err (StoreError.collection_capacity_full name)
    unfolding insert_replay_record_locked
    insert_replay_record_locked-full full =
        rw (t.insert-full key replaying col.records full, insert_replay_record_locked)

    -- The table takes the record: it reads back, and the other keys keep theirs.
    pub insert_replay_record_locked-eq-ok :
        {col' : RawCollection t.Table}
        → insert_replay_record_locked t name key value version col ≡ ok col'
        → (j : List ℕ)
        → t.get j col'.records ≡ (if bytes_same key j then some replaying else t.get j col.records)
    insert_replay_record_locked-eq-ok {col'} h j =
        elim (Bool-cases (t.can_insert_or_replace key col.records)) [
          | inl room ↦
              let made =
                counted t (is_some value) (is_some (value_of (t.get key col.records)))
                  (t.insert key replaying col.records).0 col in
              let same : made ≡ col' = ground (arith, insert_replay_record_locked-fits room, h) in
              rw (← same, t.get-insert key j replaying col.records room)
          | inr full ↦ cc (rw (insert_replay_record_locked-full full) at h)
        ]

  -- Putting a collection back under its name.
  pub entry-insert :
      (k : NamedKey) (name : List ℕ) (col : RawCollection t.Table) (s s' : MfsStore t.Table)
      → s'.collections ≡ insert name col s.collections
      → entry k s' ≡ (if bytes_same name k.0 then t.get k.1 col.records else entry k s)
  entry-insert k name col s s' h =
      rw (h, lookup-insert name k.0 col s.collections)
        (elim (Bool-cases (bytes_same name k.0)) [ inl here ↦ rw here | inr other ↦ rw other ])

  pub entry-insert_same :
      (k : NamedKey) (name : List ℕ) (col : RawCollection t.Table) (s s' : MfsStore t.Table)
      → lookup name s.collections ≡ some col
      → s'.collections ≡ insert name col s.collections
      → entry k s' ≡ entry k s
  entry-insert_same k name col s s' found put =
      entry-insert k name col s s' put ∙ (elim (Bool-cases (bytes_same name k.0)) [
        | inl here ↦
            let at : name ≡ k.0 = (bytes_same_iff name k.0).0 here in rw (here, ← at, found)
        | inr other ↦ rw other
      ])

  -- A key of the collection that is put back, of which one record is new.
  pub entry-write :
      (k : NamedKey) (name key : List ℕ) (r : RawRecord) (col col' : RawCollection t.Table)
      (s s' : MfsStore t.Table)
      → lookup name s.collections ≡ some col
      → s'.collections ≡ insert name col' s.collections
      → ((j : List ℕ)
          → t.get j col'.records ≡ (if bytes_same key j then some r else t.get j col.records))
      → entry k s' ≡ (if named_same (name, key) k then some r else entry k s)
  unfolding named_same
  entry-write k name key r col col' s s' found put gets =
      entry-insert k name col' s s' put ∙ (elim (Bool-cases (bytes_same name k.0)) [
        | inl here ↦
            let at : name ≡ k.0 = (bytes_same_iff name k.0).0 here in
            rw (here, gets k.1, ← at, found)
        | inr other ↦ rw other
      ])

  pub raw_collection-eq-ok :
      (name : List ℕ) (s : MfsStore t.Table) {col : RawCollection t.Table}
      → raw_collection t name s ≡ ok col
      → lookup name s.collections ≡ some col
  unfolding raw_collection
  raw_collection-eq-ok name s h = ground arith

  -- A record of the log replaces the one of its key, and changes no other.
  pub apply_raw_replay_record-eq-ok :
      (name key : List ℕ) (value : Option (List ℕ)) (version : ℕ) (s : MfsStore t.Table)
      {s' : MfsStore t.Table}
      → apply_raw_replay_record t name key value version s ≡ ok s'
      → (k : NamedKey)
      → entry k s' ≡ (
          if named_same (name, key) k
          then some (record { value = value; version = version })
          else entry k s)
  unfolding apply_raw_replay_record
  apply_raw_replay_record-eq-ok name key value version s {s'} h k =
      >>=-elim (raw_collection t name s) _ h λ col found rest.
        >>=-elim (insert_replay_record_locked t name key value version col) _ rest λ col' put e.
          let after : MfsStore t.Table = record s {
            collections = insert name col' s.collections;
          } in
          let same : after ≡ s' = ground (arith, e) in
          rw (← same) (
            entry-write k name key _ col col' s after (raw_collection-eq-ok name s found) refl
              (insert_replay_record_locked-eq-ok name key value version col put))

  -- A collection that is made has no records.
  create_raw_collection-eq-ok :
      (name : List ℕ) (s : MfsStore t.Table) {made : MfsStore t.Table × ℕ}
      → create_raw_collection t name s ≡ ok made
      → (k : NamedKey) → entry k made.0 ≡ entry k s
  unfolding create_raw_collection collection_with_capacity
  create_raw_collection-eq-ok name s {made} h k =
      fail_if-elim (is_some (lookup name s.collections)) (StoreError.collection_already_exists name)
        _ h
        λ fresh rest.
          fail_if-elim (leb s.config.max_collections (length s.collections))
            (StoreError.collection_limit_exceeded s.config.max_collections) _ rest
            λ room e.
              let col = collection_with_capacity t s.config.raw_initial_capacity in
              let after : MfsStore t.Table = record s {
                collections = insert name col s.collections;
                next_collection_id = (s.next_collection_id + 1) % 2 ^ 64;
              } in
              let same : after ≡ made.0 = ground (arith, e) in
              let missing : lookup name s.collections ≡ none = ground (arith, fresh) in
              let empty : (if bytes_same name k.0 then t.get k.1 col.records else entry k s)
                  ≡ entry k s =
                elim (Bool-cases (bytes_same name k.0)) [
                  | inl here ↦
                      let at : name ≡ k.0 = (bytes_same_iff name k.0).0 here in
                      rw (here, t.get-with_capacity, ← at, missing)
                  | inr other ↦ rw other
                ] in
              rw (← same) (entry-insert k name col s after refl ∙ empty)

  pub ensure_raw_collection-eq-ok :
      (name : List ℕ) (s : MfsStore t.Table) {s' : MfsStore t.Table}
      → ensure_raw_collection t name s ≡ ok s'
      → (k : NamedKey) → entry k s' ≡ entry k s
  unfolding ensure_raw_collection
  ensure_raw_collection-eq-ok name s {s'} h k =
      elim (Result-cases (create_raw_collection t name s)) [
        | inl (e, failed) ↦ let same : s ≡ s' = ground (arith, h, failed) in rw same
        | inr (made, passed) ↦
            let same : made.0 ≡ s' = ground (arith, h, passed) in
            rw (← same) (create_raw_collection-eq-ok name s passed k)
      ]
