-- ===== src/Store/Writes.antt =====
-- What a write to a raw store does to its records, whatever the durability mode and the hook
-- (`write_with_hooks` of crates/mfs-store/src/store/raw.rs).
use memory_first_store.Prelude.{
  ◌==◌, Option-cases, ℕ, ◌≡◌, refl, ◌∙◌, sym, ap, true, false, Option, some, List, arith,
  if◌then◌else◌, Bool-cases, inl, inr,
}
use memory_first_store.Prelude.Fail.{Result, ok, err, Result-cases, fail_if-elim}
use memory_first_store.Errors.{StoreError}
use memory_first_store.Maps.{NamedKey, bytes_keyed, named_keyed, named_same, lookup, insert}
use memory_first_store.Wal.{Crc}
use memory_first_store.Store.{
  WriteOptions, WriteAcknowledgement, WriteResult, RawRecord, RawCollection, RawWriteContext,
  MfsStore, StoreDurability, effective_durability, ack_lsn,
}
use memory_first_store.Store.Table.{ConcurrentMap, is_some}
use memory_first_store.Store.Durability.{acknowledge_write}
use memory_first_store.Store.Collection.{
  admit, write_with_hooks, version_of, value_of, next_version, counted, mismatch, expected_or,
}
use memory_first_store.Store.Raw.{write_raw, raw_collection}
use memory_first_store.Store.Entries.{entry-insert_same, entry, entry-write, raw_collection-eq-ok}

module _ (c : Crc) (t : ConcurrentMap RawRecord)
    (preflight : Option (List ℕ) → ℕ → Result StoreError (Unit {0})) where
  -- How a write to a collection goes.
  data Wrote (key : List ℕ) (value : Option (List ℕ)) (context : RawWriteContext)
      (d : StoreDurability) (col : RawCollection t.Table) : Type 0 where
    fails :
        (d' : StoreDurability) (e : StoreError)
        → write_with_hooks t preflight c key value context d col ≡ ((d', col), err e)
        → Wrote key value context d col
    writes :
        (d' : StoreDurability) (ack : WriteAcknowledgement)
        → t.can_insert_or_replace key col.records ≡ true
        → write_with_hooks t preflight c key value context d col ≡ (
          (
            d',
            counted t
                (is_some value)
                (is_some (value_of (t.get key col.records)))
                (t.insert key
                  (record {
                    value = value;
                    version = next_version (version_of (t.get key col.records));
                  })
                  col.records).0
                col,
          ),
          ok (record {
            version = next_version (version_of (t.get key col.records));
            lsn = ack_lsn ack;
            acknowledgement = ack;
          }),
        )
        → Wrote key value context d col

  admit-eq-ok :
      (key : List ℕ) (context : RawWriteContext) (col : RawCollection t.Table)
      → admit t preflight key context col ≡ ok tt
      → t.can_insert_or_replace key col.records ≡ true
  unfolding admit
  admit-eq-ok key context col h =
      let old = t.get key col.records in
      let expected = context.options.expected_version in
      fail_if-elim (mismatch expected (version_of old))
        (StoreError.conflict context.collection key (expected_or expected) (version_of old)) _ h
        λ same rest. elim (Result-cases (preflight (value_of old) (version_of old))) [
          | inl (e, failed) ↦ cc (rw failed at rest)
          | inr (u, passed) ↦ ground (arith, rw passed at rest)
        ]

  admit-conflict :
      (key : List ℕ) (context : RawWriteContext) (col : RawCollection t.Table) (expected : ℕ)
      → context.options.expected_version ≡ some expected
      → (expected == version_of (t.get key col.records)) ≡ false
      → admit t preflight key context col
        ≡ err (
            StoreError.conflict context.collection key expected
              (version_of (t.get key col.records)))
  unfolding admit
  admit-conflict key context col expected wants differs = rw (wants, differs)

  wrote :
      (key : List ℕ) (value : Option (List ℕ)) (context : RawWriteContext) (d : StoreDurability)
      (col : RawCollection t.Table)
      → Wrote key value context d col
  unfolding write_with_hooks
  wrote key value context d col = elim (Result-cases (admit t preflight key context col)) [
    | inl (e, refused) ↦ fails d e (rw (refused, write_with_hooks))
    | inr (u, admitted) ↦
        let room = admit-eq-ok key context col admitted in
        let old = t.get key col.records in
        let r : RawRecord = record { value = value; version = next_version (version_of old) } in
        let acked =
          acknowledge_write c (effective_durability context.options context.default_durability)
            context.collection key value r.version d in
        elim (Result-cases acked.1) [
          | inl (e, refused) ↦ fails acked.0 e (rw (admitted, write_with_hooks, refused))
          | inr (ack, given) ↦ writes acked.0 ack room (
              rw (admitted, write_with_hooks, given, t.insert-fits key r col.records room)
                (elim (Bool-cases (is_some old)) [ inl there ↦ rw there | inr new ↦ rw new ]))
        ]
  ]

  -- A write that succeeds gives the key the value, or a tombstone, with the version after the one
  -- it had, and changes no other record of any collection.
  pub write_raw-eq-ok :
      (s s' : MfsStore t.Table) (name key : List ℕ) (value : Option (List ℕ))
      (options : WriteOptions) (result : WriteResult)
      → write_raw t c name key value options preflight s ≡ (s', ok result)
      → (result.version ≡ next_version (version_of (entry t (name, key) s)))
        × ((k : NamedKey)
            → entry t k s' ≡ (
                if named_same (name, key) k
                then some (record { value = value; version = result.version })
                else entry t k s))
  unfolding write_raw
  write_raw-eq-ok s s' name key value options result h =
      elim (Result-cases (raw_collection t name s)) [
        | inl (e, missing) ↦ cc (rw (missing, write_raw) at h)
        | inr (col, there) ↦
            let found = raw_collection-eq-ok t name s there in
            let context : RawWriteContext = record {
              collection = name;
              options = options;
              default_durability = s.config.durability;
            } in
            elim (wrote key value context s.durability col) [
              | fails d' e p ↦ cc (rw (there, write_raw, p) at h)
              | writes d' ack room p ↦
                  let version = next_version (version_of (t.get key col.records)) in
                  let r : RawRecord = record { value = value; version = version } in
                  let col' =
                    counted t (is_some value) (is_some (value_of (t.get key col.records)))
                      (t.insert key r col.records).0 col in
                  let after : MfsStore t.Table = record s {
                    durability = d';
                    collections = insert name col' s.collections;
                  } in
                  let made : WriteResult = record {
                    version = version;
                    lsn = ack_lsn ack;
                    acknowledgement = ack;
                  } in
                  let both : write_raw t c name key value options preflight s ≡ (after, ok made) =
                    rw (there, write_raw, p) in
                  let same : after ≡ s' = ap (λ x. x.0) (sym both ∙ h) in
                  let versions : version ≡ result.version =
                    ground (arith, ap (λ x. x.1) (sym both ∙ h)) in
                  (
                    rw (← versions, found),
                    λ k.
                        rw (← same, ← versions)
                          (entry-write t k name key r col col' s after found refl
                            (λ j. t.get-insert key j r col.records room)),
                  )
            ]
      ]

  -- A write that fails leaves every record of the store as it was.
  pub write_raw-eq-err :
      (s s' : MfsStore t.Table) (name key : List ℕ) (value : Option (List ℕ))
      (options : WriteOptions) (e : StoreError)
      → write_raw t c name key value options preflight s ≡ (s', err e)
      → (k : NamedKey) → entry t k s' ≡ entry t k s
  unfolding write_raw
  write_raw-eq-err s s' name key value options e h k =
      elim (Result-cases (raw_collection t name s)) [
        | inl (why, missing) ↦
            let both : write_raw t c name key value options preflight s ≡ (s, err why) =
              rw (missing, write_raw) in
            let same : s ≡ s' = ap (λ x. x.0) (sym both ∙ h) in rw same
        | inr (col, there) ↦
            let found = raw_collection-eq-ok t name s there in
            let context : RawWriteContext = record {
              collection = name;
              options = options;
              default_durability = s.config.durability;
            } in
            elim (wrote key value context s.durability col) [
              | fails d' why p ↦
                  let after : MfsStore t.Table = record s {
                    durability = d';
                    collections = insert name col s.collections;
                  } in
                  let both : write_raw t c name key value options preflight s ≡ (after, err why) =
                    rw (there, write_raw, p) in
                  let same : after ≡ s' = ap (λ x. x.0) (sym both ∙ h) in
                  rw (← same) (entry-insert_same t k name col s after found refl)
              | writes d' ack room p ↦ cc (rw (there, write_raw, p) at h)
            ]
      ]

  -- A write to a collection that is there and that expects another version than the record's is a
  -- conflict: it reports both
  -- versions, leaves the log and its writer as they were, and changes no record.
  pub write_raw-conflict :
      (s : MfsStore t.Table) (name key : List ℕ) (value : Option (List ℕ)) (options : WriteOptions)
      (expected : ℕ)
      → is_some (lookup name s.collections) ≡ true
      → options.expected_version ≡ some expected
      → (expected == version_of (entry t (name, key) s)) ≡ false
      → let (s', result) = write_raw t c name key value options preflight s in
        (result ≡ err (StoreError.conflict name key expected (version_of (entry t (name, key) s))))
        × (s'.durability ≡ s.durability)
        × ((k : NamedKey) → entry t k s' ≡ entry t k s)
  unfolding write_raw write_with_hooks admit raw_collection
  write_raw-conflict s name key value options expected there wants differs =
      elim (Option-cases (lookup name s.collections)) [
        | inl missing ↦ cc (rw missing at there)
        | inr (col, found) ↦
            let after : MfsStore t.Table = record s {
              collections = insert name col s.collections;
            } in
            let differs' : (expected == version_of (t.get key col.records)) ≡ false =
              rw found at differs in
            let context : RawWriteContext = record {
              collection = name;
              options = options;
              default_durability = s.config.durability;
            } in
            let why = StoreError.conflict name key expected (version_of (t.get key col.records)) in
            let refused = admit-conflict key context col expected wants differs' in
            let unwritten : write_with_hooks t preflight c key value context s.durability col
                ≡ ((s.durability, col), err why) =
              rw (refused, write_with_hooks) in
            let both : write_raw t c name key value options preflight s ≡ (after, err why) =
              rw (found, write_raw, unwritten) in
            rw (both, found) (refl, refl, λ k. entry-insert_same t k name col s after found refl)
      ]
