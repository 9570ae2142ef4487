-- ===== src/Checkpoint/Loading.antt =====
-- Loading the records of one collection (`from_raw_snapshot` of crates/mfs-store/src/store/raw.rs).
use memory_first_store.Prelude.{
  ap, ℕ, ◌+◌, ◌%◌, ◌^◌, ◌≡◌, ◌∙◌, refl, true, false, Option, none, some, List, [], ◌∷◌, ◌++◌, ◌⊎◌,
  if◌then◌else◌, Bool-cases, inl, inr,
}
use memory_first_store.Prelude.Fail.{ok, err}
use memory_first_store.Errors.{StoreError}
use memory_first_store.Maps.{bytes_keyed, bytes_same, bytes_same_iff, lookup}
use memory_first_store.Maps.Distinct.{IsDistinct}
use memory_first_store.Store.{RawRecord}
use memory_first_store.Store.Table.{ConcurrentMap, is_some}
use memory_first_store.Checkpoint.{RawSnapshotRecord}
use memory_first_store.Checkpoint.Snapshot.{load_records}
use memory_first_store.Checkpoint.Restored.{record_of, records_map}

-- The first, or the second if there is none.
abbrev pub or_else {ℓ} : {A : Type ℓ} → Option A → Option A → Option A
or_else none b = b
or_else (some a) b = some a

pub or_else-none {ℓ} : {A : Type ℓ} (a : Option A) → or_else a none ≡ a
or_else-none none = refl
or_else-none (some a) = refl

module _ (t : ConcurrentMap RawRecord) where
  -- Why loading the records of a collection stops: the table that holds those before one of them
  -- refuses its key.
  pub record Overfills (name : List ℕ) (rs : List RawSnapshotRecord) (m : t.Table) (live : ℕ)
      (e : StoreError) : Type 0 where
    pub before : List RawSnapshotRecord
    pub refused : RawSnapshotRecord
    pub behind : List RawSnapshotRecord
    pub records : rs ≡ before ++ refused ∷ behind
    pub table : t.Table
    pub loaded : (n : ℕ) × (load_records t name before m live ≡ ok (table, n))
    pub full : t.can_insert_or_replace refused.key table ≡ false
    pub error : e ≡ StoreError.collection_capacity_full name

  -- A record that the table takes.
  load_records-fits :
      (name : List ℕ) (r : RawSnapshotRecord) (rs : List RawSnapshotRecord) (m : t.Table) (live : ℕ)
      → t.can_insert_or_replace r.key m ≡ true
      → load_records t name (r ∷ rs) m live
        ≡ load_records t name rs
            (t.insert r.key (record_of r) m).0
            (if is_some r.value then (live + 1) % 2 ^ 64 else live)
  unfolding load_records
  load_records-fits name r rs m live room =
      rw (t.insert-fits r.key (record_of r) m room, load_records)
        (elim (Bool-cases (is_some (t.get r.key m))) [ inl old ↦ rw old | inr new ↦ rw new ])

  pub load_records_total :
      (name : List ℕ) (rs : List RawSnapshotRecord) (m : t.Table) (live : ℕ)
      → IsDistinct (records_map rs)
      → ((out : t.Table × ℕ) × (load_records t name rs m live ≡ ok out)
          × ((key : List ℕ)
              → t.get key out.0 ≡ or_else (lookup key (records_map rs)) (t.get key m)))
        ⊎ ((e : StoreError) × (load_records t name rs m live ≡ err e) × Overfills name rs m live e)
  unfolding load_records lookup
  load_records_total name [] m live h = inl ((m, live), refl, λ key. refl)
  load_records_total name (r ∷ rs) m live h =
      let live' = if is_some r.value then (live + 1) % 2 ^ 64 else live in
      let m' = (t.insert r.key (record_of r) m).0 in
      elim (Bool-cases (t.can_insert_or_replace r.key m)) [
        | inr full ↦ inr (
          StoreError.collection_capacity_full name,
          rw (t.insert-full r.key (record_of r) m full, load_records),
          record {
            before = [];
            refused = r;
            behind = rs;
            records = refl;
            table = m;
            loaded = (live, refl);
            full = full;
            error = refl;
          },
        )
        | inl room ↦
            let fits = λ (xs : List RawSnapshotRecord). load_records-fits name r xs m live room in
            elim (load_records_total name rs m' live' h.1) [
              | inr (e, failed, o) ↦ inr (
                e,
                fits rs ∙ failed,
                record {
                  before = r ∷ o.before;
                  refused = o.refused;
                  behind = o.behind;
                  records = ap (◌∷◌ r) o.records;
                  table = o.table;
                  loaded = (o.loaded.0, fits o.before ∙ o.loaded.1);
                  full = o.full;
                  error = o.error;
                },
              )
              | inl (out, e, gets) ↦ inl (
                out,
                fits rs ∙ e,
                λ key.
                    gets key
                    ∙ rw (t.get-insert r.key key (record_of r) m room)
                        (elim (Bool-cases (bytes_same r.key key)) [
                          | inl here ↦
                              let at : r.key ≡ key = (bytes_same_iff r.key key).0 here in
                              let missing : lookup key (records_map rs) ≡ none = rw (← at) h.0 in
                              rw (here, missing)
                          | inr other ↦ rw other
                        ]),
              )
            ]
      ]
