-- ===== src/S3Fifo/Valid.antt =====
-- The invariant of a shard: its sketches fit and it is within its capacities; inserts and reads
-- keep it (crates/mfs-core/src/s3fifo.rs).
use memory_first_store.Prelude.{
  ℕ, ◌≤◌, ◌≡◌, ◌∙◌, refl, sym, ap, Option, none, some, List, arith, length, if◌then◌else◌,
  Bool-cases, Option-cases, inl, inr,
}
use memory_first_store.Maps.{Keyed, lookup, insert, lookup-insert}
use memory_first_store.S3Fifo.{Resident, Shard, in_cold, in_hot}
use memory_first_store.S3Fifo.Frequency.{bump_ref}
use memory_first_store.S3Fifo.Weight.{
  IsSubmap, insert-IsSubmap, remove_found, SameSetup, SameSetup-refl,
}
use memory_first_store.S3Fifo.Loops.{evict_to_capacity_total}
use memory_first_store.S3Fifo.Operations.{
  reject_candidate_by_capacity_gate, candidate_of, contains_hash, enqueue, insert_new, insert_value,
  get,
}
use memory_first_store.S3Fifo.Fits.{FitsFrequencies}
use memory_first_store.S3Fifo.Counted.{
  ValidAdmission, ValidAdmission-FitsAdmission, record_frequency_total, record_admission_total,
  count_admission_total,
}

-- The sketches fit, and the map, the hot queue and the ghosts are within their capacities.
pub record IsValidShard {K V : Type 0} (s : Shard K V) : Type 0 where
  pub frequency : FitsFrequencies s.frequency
  pub admission : ValidAdmission s.admission
  pub size : length s.map ≤ s.capacity
  pub hot : s.hot_len ≤ s.hot_capacity
  pub ghosts : length s.ghost ≤ s.ghost_capacity

-- The value that a map has for a key.
abbrev pub held : {K V : Type 0} ⦃e : Keyed K⦄ → K → List (K × Resident V) → Option V
held key m = elim (lookup key m) [ none ↦ none | some r ↦ some r.value ]

-- The map has no value but the one that is expected for its key.
abbrev pub HoldsOnly :
    {K V : Type 0} ⦃e : Keyed K⦄ → (K → Option V) → List (K × Resident V) → Type 0
HoldsOnly {K} {V} expected m =
    (k : K) (r : Resident V) → lookup k m ≡ some r → expected k ≡ some r.value

-- What is expected after an insert.
abbrev pub inserted : {K V : Type 0} ⦃e : Keyed K⦄ → K → V → (K → Option V) → K → Option V
inserted ⦃e⦄ key value expected k = if e.same key k then some value else expected k

module _ {K V : Type 0} ⦃e : Keyed K⦄ where
  pub held-HoldsOnly : (m : List (K × Resident V)) → HoldsOnly (λ k. held k m) m
  held-HoldsOnly m k r found = rw (held, found)

  insert-HoldsOnly :
      (key : K) (value : V) (r : Resident V) (m : List (K × Resident V))
      → r.value ≡ value
      → HoldsOnly (inserted key value (λ k. held k m)) (insert key r m)
  insert-HoldsOnly key value r m new k x found = elim (Bool-cases (e.same key k)) [
    | inl here ↦
        let at : r ≡ x = ground (arith, rw (lookup-insert key k r m, here) at found) in
        rw (inserted, here, ← at) (ap some (sym new))
    | inr other ↦
        rw (inserted, other) (held-HoldsOnly m k x (rw (lookup-insert key k r m, other) at found))
  ]

  -- What evictions leave of what was inserted.
  IsSubmap-HoldsOnly :
      (expected : K → Option V) (m m' : List (K × Resident V))
      → HoldsOnly expected m
      → IsSubmap m' m
      → HoldsOnly expected m'
  IsSubmap-HoldsOnly expected m m' holds left k r found =
      let (x, there, same) = left k r found in holds k x there ∙ ap some same

  missing-HoldsOnly :
      (key : K) (value : V) (m : List (K × Resident V))
      → lookup key m ≡ none
      → HoldsOnly (inserted key value (λ k. held k m)) m
  missing-HoldsOnly key value m missing k r found = elim (Bool-cases (e.same key k)) [
    | inl here ↦ cc (rw (← (e.same_iff key k).0 here, missing) at found)
    | inr other ↦ rw (inserted, other) (held-HoldsOnly m k r found)
  ]

  enqueue_lem :
      (key : K) (hash : ℕ) (value : V) (s : Shard K V)
      → SameSetup s (enqueue key hash value s)
        × HoldsOnly (inserted key value (λ k. held k s.map)) (enqueue key hash value s).map
  unfolding enqueue
  enqueue_lem key hash value s = elim (Bool-cases (contains_hash hash s.ghost_set)) [
    | inl ghost ↦ rw ghost (
      SameSetup-refl s,
      insert-HoldsOnly key value
          (record { value = value; state = in_hot; referenced = 1; hash = hash }) s.map refl,
    )
    | inr new ↦ rw new (
      SameSetup-refl s,
      insert-HoldsOnly key value
          (record { value = value; state = in_cold; referenced = 0; hash = hash }) s.map refl,
    )
  ]

  insert_new-IsValidShard :
      (key : K) (hash : ℕ) (value : V) (s : Shard K V)
      → IsValidShard s
      → lookup key s.map ≡ none
      → (s' : Shard K V) × (insert_new key hash value s ≡ some s')
        × IsValidShard s'
        × (s'.capacity ≡ s.capacity)
        × HoldsOnly (inserted key value (λ k. held k s.map)) s'.map
  unfolding insert_new
  insert_new-IsValidShard key hash value s valid missing =
      let (sample, admission, sampled, fits) =
        record_admission_total s.admission hash s refl valid.admission in
      let s1 = record s { admission = admission } in
      elim (Bool-cases (reject_candidate_by_capacity_gate sample s1)) [
        | inl rejected ↦ (
          s1,
          rw (sampled, rejected),
          record {
            frequency = valid.frequency;
            admission = fits;
            size = valid.size;
            hot = valid.hot;
            ghosts = valid.ghosts;
          },
          refl,
          missing-HoldsOnly key value s.map missing,
        )
        | inr admitted ↦
            let (frequency, counted, fits') =
              record_frequency_total s1.frequency hash s1 refl valid.frequency in
            let s2 = record s1 { frequency = frequency } in
            let queued = enqueue key hash value s2 in
            let (setup, holds) = enqueue_lem key hash value s2 in
            let (s', done, size, hot, ghosts, follows) =
              evict_to_capacity_total (candidate_of key hash sample) queued
                (rw setup.3 fits', rw setup.4 (ValidAdmission-FitsAdmission admission fits)) in
            (
              s',
              rw (sampled, admitted, counted) done,
              record {
                frequency = rw (follows.setup.3, setup.3) fits';
                admission = rw (follows.setup.4, setup.4) fits;
                size = rw follows.setup.0 size;
                hot = rw follows.setup.1 hot;
                ghosts = rw follows.setup.2 ghosts;
              },
              follows.setup.0 ∙ setup.0,
              IsSubmap-HoldsOnly _ queued.map s'.map holds follows.values,
            )
      ]

  replaced-size :
      (key : K) (r r' : Resident V) (m : List (K × Resident V))
      → lookup key m ≡ some r
      → length (insert key r' m) ≤ length m
  unfolding insert
  replaced-size key r r' m found = omega (arith, (remove_found key m found).1)

  -- On a valid shard an insert ends without a panic, returns the value that the key had, and leaves
  -- a valid shard of the same capacity; its values are the inserted one, under its key, and values
  -- that the shard had under other keys.
  pub insert_value-IsValidShard :
      (key : K) (hash : ℕ) (value : V) (s : Shard K V)
      → IsValidShard s
      → (s' : Shard K V) × (insert_value key hash value s ≡ some (held key s.map, s'))
        × IsValidShard s'
        × (s'.capacity ≡ s.capacity)
        × HoldsOnly (inserted key value (λ k. held k s.map)) s'.map
  unfolding insert_value
  insert_value-IsValidShard key hash value s valid = elim (Option-cases (lookup key s.map)) [
    | inl missing ↦
        let (s', done, valid', same, holds) =
          insert_new-IsValidShard key hash value s valid missing in
        (s', rw (insert_value, held, missing, done), valid', same, holds)
    | inr (r, found) ↦
        let (frequency, counted, fits) =
          record_frequency_total s.frequency r.hash s refl valid.frequency in
        let s1 = record s { frequency = frequency } in
        let (admission, admitted, fits') =
          count_admission_total s1.admission r.hash s1 refl valid.admission in
        let r' = record r { value = value; referenced = bump_ref r.referenced } in
        (
          record s1 { admission = admission; map = insert key r' s.map },
          rw (insert_value, held, found, counted, admitted),
          record {
            frequency = fits;
            admission = fits';
            size = omega (arith, replaced-size key r r' s.map found, valid.size);
            hot = valid.hot;
            ghosts = valid.ghosts;
          },
          refl,
          insert-HoldsOnly key value r' s.map refl,
        )
  ]

  -- On a valid shard a read ends without a panic, returns the value that the key has, and leaves a
  -- valid shard of the same capacity that has no other values.
  pub get-IsValidShard :
      (key : K) (s : Shard K V)
      → IsValidShard s
      → (s' : Shard K V) × (get key s ≡ some (held key s.map, s'))
        × IsValidShard s'
        × (s'.capacity ≡ s.capacity)
        × HoldsOnly (λ k. held k s.map) s'.map
  unfolding get
  get-IsValidShard key s valid = elim (Option-cases (lookup key s.map)) [
    | inl missing ↦ (s, rw (get, held, missing), valid, refl, held-HoldsOnly s.map)
    | inr (r, found) ↦
        let (frequency, counted, fits) =
          record_frequency_total s.frequency r.hash s refl valid.frequency in
        let r' = record r { referenced = bump_ref r.referenced } in
        (
          record s { frequency = frequency; map = insert key r' s.map },
          rw (get, held, found, counted),
          record {
            frequency = fits;
            admission = valid.admission;
            size = omega (arith, replaced-size key r r' s.map found, valid.size);
            hot = valid.hot;
            ghosts = valid.ghosts;
          },
          refl,
          IsSubmap-HoldsOnly (λ k. held k s.map) s.map (insert key r' s.map) (held-HoldsOnly s.map)
              (insert-IsSubmap key s.map r r' found refl),
        )
  ]
