-- ===== src/Checkpoint/Loaded.antt =====
-- Loading a snapshot into an empty store (`from_raw_snapshot` of
-- crates/mfs-store/src/store/raw.rs).
use memory_first_store.Prelude.{
  ℕ, ◌+◌, ◌%◌, ◌^◌, ◌≤◌, ◌≡◌, ◌∙◌, refl, Bool, true, false, ◌||◌, Option, none, some, List, [], ◌∷◌,
  ◌⊎◌, length, All, le→ltb, Bool-cases, inl, inr,
}
use memory_first_store.Prelude.Fail.{ok, err}
use memory_first_store.Errors.{StoreError}
use memory_first_store.Maps.{
  NamedKey, bytes_keyed, bytes_same, bytes_same_iff, same_refl, lookup, insert, lookup-insert,
  lookup-nil,
}
use memory_first_store.Maps.Distinct.{IsDistinct}
use memory_first_store.Store.{RawRecord, RawCollection, MfsStore, MfsStoreConfig}
use memory_first_store.Store.Table.{ConcurrentMap, is_some}
use memory_first_store.Store.Durability.{new_durability}
use memory_first_store.Store.Raw.{validate_store_config}
use memory_first_store.Store.Entries.{entry, record_in}
use memory_first_store.Checkpoint.{RawSnapshotRecord, RawCollectionSnapshot, RawStoreSnapshot}
use memory_first_store.Checkpoint.Snapshot.{
  raw_snapshot, snapshot_capacity, load_collections, from_raw_snapshot,
}
use memory_first_store.Checkpoint.Restored.{
  records_map, names_map, find_in, DistinctRecords, DistinctSnapshot, snapshot_entry,
  length-raw_snapshot, names-raw_snapshot, snapshot_entry-raw_snapshot,
  raw_snapshot-DistinctSnapshot,
}
use memory_first_store.Checkpoint.Loading.{Overfills, or_else, or_else-none, load_records_total}

module _ (t : ConcurrentMap RawRecord) where
  -- No name of the one is in the other.
  abbrev Apart : List RawCollectionSnapshot → List (List ℕ × RawCollection t.Table) → Type 0
  Apart cs m =
      (name : List ℕ)
      → is_some (lookup name (names_map cs)) ≡ true
      → is_some (lookup name m) ≡ false

  Apart-insert :
      (c : RawCollectionSnapshot) (cs : List RawCollectionSnapshot) (col : RawCollection t.Table)
      (m : List (List ℕ × RawCollection t.Table))
      → lookup c.name (names_map cs) ≡ none
      → Apart (c ∷ cs) m
      → Apart cs (insert c.name col m)
  unfolding lookup
  Apart-insert c cs col m new apart name there =
      rw (lookup-insert c.name name col m) (elim (Bool-cases (bytes_same c.name name)) [
        | inl here ↦
            let at : c.name ≡ name = (bytes_same_iff c.name name).0 here in
            cc (rw (← at, new) at there)
        | inr other ↦ rw other (apart name (rw other there))
      ])

  abbrev found_in : List ℕ → Option (List RawSnapshotRecord) → Option RawRecord → Option RawRecord
  found_in key none before = before
  found_in key (some rs) before = lookup key (records_map rs)

  -- Why loading a snapshot stops: a collection of it does not fit a new table of its capacity.
  pub record Overflows (config : MfsStoreConfig) (cs : List RawCollectionSnapshot) (e : StoreError)
      : Type 0 where
    pub collection : RawCollectionSnapshot
    pub listed : lookup collection.name (names_map cs) ≡ some collection.records
    pub overfills :
        Overfills t collection.name collection.records
          (t.with_capacity (snapshot_capacity config collection))
          0
          e

  Overflows-later :
      (config : MfsStoreConfig) (c : RawCollectionSnapshot) (cs : List RawCollectionSnapshot)
      (e : StoreError)
      → lookup c.name (names_map cs) ≡ none
      → Overflows config cs e
      → Overflows config (c ∷ cs) e
  unfolding lookup
  Overflows-later config c cs e new o = record {
    collection = o.collection;
    listed = elim (Bool-cases (bytes_same c.name o.collection.name)) [
      | inl here ↦
          let at : c.name ≡ o.collection.name = (bytes_same_iff c.name o.collection.name).0 here in
          cc (rw (← at, new) at o.listed)
      | inr other ↦ rw other o.listed
    ];
    overfills = o.overfills;
  }

  missing_later :
      (c : RawCollectionSnapshot) (cs : List RawCollectionSnapshot) (name : List ℕ)
      → lookup c.name (names_map cs) ≡ none
      → bytes_same c.name name ≡ true
      → lookup name (names_map cs) ≡ none
  missing_later c cs name new here = rw (← (bytes_same_iff c.name name).0 here) new

  -- The records of a collection that was loaded into a new table.
  after_insert :
      (c : RawCollectionSnapshot) (cs : List RawCollectionSnapshot) (col : RawCollection t.Table)
      (m : List (List ℕ × RawCollection t.Table)) (config : MfsStoreConfig)
      → lookup c.name (names_map cs) ≡ none
      → (k : NamedKey)
      → ((key : List ℕ)
          → t.get key col.records
            ≡ or_else
                (lookup key (records_map c.records))
                (t.get key (t.with_capacity (snapshot_capacity config c))))
      → found_in k.1
          (lookup k.0 (names_map cs))
          (record_in t k.1 (lookup k.0 (insert c.name col m)))
        ≡ found_in k.1 (lookup k.0 (names_map (c ∷ cs))) (record_in t k.1 (lookup k.0 m))
  unfolding lookup
  after_insert c cs col m config new k gets =
      rw (lookup-insert c.name k.0 col m) (elim (Bool-cases (bytes_same c.name k.0)) [
        | inl here ↦
            rw (here, missing_later c cs k.0 new here)
              (gets k.1
                ∙ rw (t.get-with_capacity (snapshot_capacity config c) k.1)
                    (or_else-none (lookup k.1 (records_map c.records))))
        | inr other ↦ rw other
      ])

  named_after_insert :
      (c : RawCollectionSnapshot) (cs : List RawCollectionSnapshot) (col : RawCollection t.Table)
      (m : List (List ℕ × RawCollection t.Table))
      → lookup c.name (names_map cs) ≡ none
      → (name : List ℕ)
      → (is_some (lookup name (names_map cs)) || is_some (lookup name (insert c.name col m)))
        ≡ (is_some (lookup name (names_map (c ∷ cs))) || is_some (lookup name m))
  unfolding lookup
  named_after_insert c cs col m new name =
      rw (lookup-insert c.name name col m) (elim (Bool-cases (bytes_same c.name name)) [
        | inl here ↦ rw (here, missing_later c cs name new here)
        | inr other ↦ rw other
      ])

  load_collections_total :
      (config : MfsStoreConfig) (cs : List RawCollectionSnapshot)
      (m : List (List ℕ × RawCollection t.Table))
      → IsDistinct (names_map cs)
      → All DistinctRecords cs
      → Apart cs m
      → ((out : List (List ℕ × RawCollection t.Table)) × (load_collections t config cs m ≡ ok out)
          × ((k : NamedKey)
              → record_in t k.1 (lookup k.0 out)
                ≡ found_in k.1 (lookup k.0 (names_map cs)) (record_in t k.1 (lookup k.0 m)))
          × ((name : List ℕ)
              → is_some (lookup name out)
                ≡ (is_some (lookup name (names_map cs)) || is_some (lookup name m))))
        ⊎ ((e : StoreError) × (load_collections t config cs m ≡ err e) × Overflows config cs e)
  unfolding load_collections lookup
  load_collections_total config [] m names records apart = inl (m, refl, λ k. refl, λ name. refl)
  load_collections_total config (c ∷ cs) m names records apart =
      let fresh = apart c.name (rw (same_refl c.name)) in
      elim (load_records_total t c.name c.records (t.with_capacity (snapshot_capacity config c)) 0
        records.0) [
          | inr (e, failed, o) ↦ inr (
            e,
            rw (fresh, failed, load_collections),
            record { collection = c; listed = rw (same_refl c.name); overfills = o },
          )
          | inl (out, e, gets) ↦
              let col : RawCollection t.Table = record { records = out.0; record_count = out.1 } in
              elim (load_collections_total config cs (insert c.name col m) names.1 records.1
                (Apart-insert c cs col m names.0 apart)) [
                  | inr (why, failed, o) ↦ inr (
                    why,
                    rw (fresh, e, load_collections) failed,
                    Overflows-later config c cs why names.0 o,
                  )
                  | inl (all, es, entries, there) ↦ inl (
                    all,
                    rw (fresh, e, load_collections) es,
                    λ k. entries k ∙ after_insert c cs col m config names.0 k gets,
                    λ name. there name ∙ named_after_insert c cs col m names.0 name,
                  )
                ]
        ]

  nil-Apart : (cs : List RawCollectionSnapshot) → Apart cs []
  nil-Apart cs name there = rw (lookup-nil name)

  -- Load a snapshot in which names and keys occur once, with a configuration that is valid and
  -- allows as many collections: the store has exactly the collections and the records of the
  -- snapshot, or a collection does not fit its table.
  pub from_raw_snapshot_total :
      (config : MfsStoreConfig) (snapshot : RawStoreSnapshot) (file : Option (List ℕ))
      → validate_store_config config ≡ ok tt
      → length snapshot.collections ≤ config.max_collections
      → DistinctSnapshot snapshot
      → ((s : MfsStore t.Table) × (from_raw_snapshot t config snapshot file ≡ ok s)
          × ((k : NamedKey) → entry t k s ≡ snapshot_entry k snapshot)
          × ((name : List ℕ)
              → is_some (lookup name s.collections)
                ≡ is_some (lookup name (names_map snapshot.collections))))
        ⊎ ((e : StoreError) × (from_raw_snapshot t config snapshot file ≡ err e)
            × Overflows config snapshot.collections e)
  unfolding from_raw_snapshot
  from_raw_snapshot_total config snapshot file valid few (names, records) =
      let cs = snapshot.collections in
      let small = le→ltb config.max_collections (length cs) few in
      elim (load_collections_total config cs [] names records (nil-Apart cs)) [
        | inr (e, failed, o) ↦ inr (e, rw (valid, small, failed), o)
        | inl (out, e, entries, there) ↦ inl (
          record {
            config = config;
            durability = new_durability config file;
            collections = out;
            next_collection_id = (length out + 1) % 2 ^ 64;
          },
          rw (valid, small, e),
          λ k. entries k ∙ rw (lookup-nil k.0) (plain k.1 (lookup k.0 (names_map cs))),
          λ name.
              there name ∙ rw (lookup-nil name) (or_false (is_some (lookup name (names_map cs)))),
        )
      ]
    where
      plain :
          (key : List ℕ) (o : Option (List RawSnapshotRecord)) → found_in key o none ≡ find_in key o
      plain key none = refl
      plain key (some rs) = refl

      or_false : (b : Bool) → (b || false) ≡ b
      or_false true = refl
      or_false false = refl

  -- A store restored from the snapshot of another one, in which a collection's name occurs once,
  -- with a valid configuration that allows as many collections: loading succeeds, and the new store
  -- has exactly the records of the old one, with their versions, deleted keys included, and the
  -- same collections; or loading fails with CollectionCapacityFull for a collection of the
  -- snapshot, whose new table, once it holds the records before one of them, refuses that one's key.
  pub from_raw_snapshot-raw_snapshot :
      (config : MfsStoreConfig) (s : MfsStore t.Table) (file : Option (List ℕ))
      → validate_store_config config ≡ ok tt
      → length s.collections ≤ config.max_collections
      → IsDistinct s.collections
      → ((s' : MfsStore t.Table) × (from_raw_snapshot t config (raw_snapshot t s) file ≡ ok s')
          × ((k : NamedKey) → entry t k s' ≡ entry t k s)
          × ((name : List ℕ)
              → is_some (lookup name s'.collections) ≡ is_some (lookup name s.collections)))
        ⊎ ((e : StoreError) × (from_raw_snapshot t config (raw_snapshot t s) file ≡ err e)
            × Overflows config (raw_snapshot t s).collections e)
  from_raw_snapshot-raw_snapshot config s file valid few h =
      elim (from_raw_snapshot_total config (raw_snapshot t s) file valid
        (rw (length-raw_snapshot t s) few) (raw_snapshot-DistinctSnapshot t s h)) [
          | inr failed ↦ inr failed
          | inl (s', e, entries, there) ↦ inl (
            s',
            e,
            λ k. entries k ∙ snapshot_entry-raw_snapshot t k s,
            λ name. there name ∙ names-raw_snapshot t name s,
          )
        ]
