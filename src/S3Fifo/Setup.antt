-- ===== src/S3Fifo/Setup.antt =====
-- A new shard and a removal (crates/mfs-core/src/s3fifo.rs).
use memory_first_store.Prelude.{
  ℕ, ◌^◌, ◌≤◌, ◌<◌, ◌≡◌, refl, Bool, true, false, Option, none, some, arith, length,
  length-replicate, max, ltb, if◌then◌else◌, Option-cases, Bool-cases, inl, inr,
}
use memory_first_store.Maps.{Keyed, lookup, remove, lookup-remove}
use memory_first_store.TinyLfu.{
  TinyLfuCounterKind, next_power_of_two, power_from, saturating_mul, with_capacity,
  with_capacity_and_floor, with_packed_4bit, with_doorkeeper, with_two_counter_decay,
  floored_sample_size,
}
use memory_first_store.TinyLfu.Valid.{IsValid}
use memory_first_store.TinyLfu.Setup.{with_options-IsValid, power_from-le}
use memory_first_store.S3Fifo.{Shard, Resident, ResidentState, in_cold, in_hot, frequency_depth}
use memory_first_store.S3Fifo.Frequency.{sketch_with_capacity}
use memory_first_store.S3Fifo.Evict.{forget}
use memory_first_store.S3Fifo.Weight.{remove_found}
use memory_first_store.S3Fifo.Fits.{FitsFrequency, FitsFrequencies}
use memory_first_store.S3Fifo.Operations.{
  S3FifoAdmissionExperiment, capacity_gate, wide_sketch, packed_4bit, doorkeeper, two_counter_decay,
  build_admission_sketch, new_shard, remove_key,
}
use memory_first_store.S3Fifo.Valid.{IsValidShard, held, HoldsOnly, held-HoldsOnly}
use memory_first_store.S3Fifo.Counted.{ValidAdmission}

-- The least width and the floor that an experiment asks for.
abbrev pub IsModest : Option S3FifoAdmissionExperiment → Type 0
IsModest none = Unit
IsModest (some (capacity_gate maximum_frequency)) = Unit
IsModest (some (wide_sketch min_width floor)) = (min_width ≤ 2 ^ 58) × (floor < 2 ^ 64)
IsModest (some (packed_4bit min_width floor)) = (min_width ≤ 2 ^ 58) × (floor < 2 ^ 64)
IsModest (some (doorkeeper min_width floor)) = (min_width ≤ 2 ^ 58) × (floor < 2 ^ 64)
IsModest (some (two_counter_decay min_width floor)) = (min_width ≤ 2 ^ 58) × (floor < 2 ^ 64)

floored_lt : (capacity floor : ℕ) → floor < 2 ^ 64 → floored_sample_size capacity floor < 2 ^ 64
floored_lt capacity floor h = omega (arith, h)

build_admission_sketch-IsValid :
    (capacity : ℕ) (experiment : Option S3FifoAdmissionExperiment)
    → capacity ≤ 2 ^ 58
    → IsModest experiment
    → IsValid (build_admission_sketch capacity experiment)
unfolding build_admission_sketch with_capacity with_capacity_and_floor with_packed_4bit
    with_doorkeeper with_two_counter_decay
build_admission_sketch-IsValid capacity none h m =
    (with_options-IsValid capacity 64 _ TinyLfuCounterKind.u8 false h (omega arith) (omega arith)).0
build_admission_sketch-IsValid capacity (some (capacity_gate maximum_frequency)) h m =
    (with_options-IsValid capacity 64 _ TinyLfuCounterKind.u8 false h (omega arith) (omega arith)).0
build_admission_sketch-IsValid capacity (some (wide_sketch min_width floor)) h m =
    (with_options-IsValid capacity min_width _ TinyLfuCounterKind.u8 false h m.0
      (floored_lt capacity floor m.1)).0
build_admission_sketch-IsValid capacity (some (packed_4bit min_width floor)) h m =
    (with_options-IsValid capacity min_width _ TinyLfuCounterKind.packed_4bit false h m.0
      (floored_lt capacity floor m.1)).0
build_admission_sketch-IsValid capacity (some (doorkeeper min_width floor)) h m =
    (with_options-IsValid capacity min_width _ TinyLfuCounterKind.u8 true h m.0
      (floored_lt capacity floor m.1)).0
build_admission_sketch-IsValid capacity (some (two_counter_decay min_width floor)) h m =
    (with_options-IsValid capacity min_width _ TinyLfuCounterKind.two_counter false h m.0
      (floored_lt capacity floor m.1)).0

sketch_with_capacity-FitsFrequency :
    (capacity : ℕ) → capacity ≤ 2 ^ 58 → FitsFrequency (sketch_with_capacity capacity)
unfolding sketch_with_capacity next_power_of_two
sketch_with_capacity-FitsFrequency capacity h =
    let small = power_from-le 64 1 (saturating_mul (max capacity 16) 4) in
    let width = max (power_from 64 1 (saturating_mul (max capacity 16) 4)) 64 in
    record {
      cut = omega arith;
      counters =
          rw (length-replicate {A = ℕ} (saturating_mul width frequency_depth) 0)
            (omega (arith, small, h));
    }

-- A new shard of up to 2 ^ 58 residents is valid.
pub new_shard-IsValidShard :
    (K V : Type 0) (capacity hot ghost threshold : ℕ) (enabled : Bool)
    (experiment : Option S3FifoAdmissionExperiment)
    → capacity ≤ 2 ^ 58
    → IsModest experiment
    → IsValidShard (new_shard K V capacity hot ghost threshold enabled experiment)
unfolding new_shard
new_shard-IsValidShard K V capacity hot ghost threshold enabled experiment h m = record {
  frequency = frequency (ltb 1 threshold);
  admission = admission enabled;
  size = omega arith;
  hot = omega arith;
  ghosts = omega arith;
}
  where
    frequency :
        (b : Bool)
        → FitsFrequencies (if b then some (sketch_with_capacity (max capacity 1)) else none)
    frequency true = sketch_with_capacity-FitsFrequency (max capacity 1) (omega (arith, h))
    frequency false = tt

    admission :
        (b : Bool)
        → ValidAdmission
            (if b then some (build_admission_sketch (max capacity 1) experiment) else none)
    admission true = build_admission_sketch-IsValid (max capacity 1) experiment (omega (arith, h)) m
    admission false = tt

-- What is expected after a removal.
abbrev pub removed : {K V : Type 0} ⦃e : Keyed K⦄ → K → (K → Option V) → K → Option V
removed ⦃e⦄ key expected k = if e.same key k then none else expected k

module _ {K V : Type 0} ⦃e : Keyed K⦄ where
  forget-IsValidShard :
      (key : K) (r : Resident V) (s : Shard K V)
      → lookup key s.map ≡ some r
      → IsValidShard s
      → IsValidShard (forget key r s)
        × ((forget key r s).capacity ≡ s.capacity)
        × ((forget key r s).map ≡ remove key s.map)
  forget-IsValidShard key r s found valid = by_state r.state refl
    where
      shorter : length (remove key s.map) < length s.map
      shorter = (remove_found key s.map found).1

      by_state :
          (state : ResidentState)
          → r.state ≡ state
          → IsValidShard (forget key r s)
            × ((forget key r s).capacity ≡ s.capacity)
            × ((forget key r s).map ≡ remove key s.map)
      by_state in_cold at = rw at (
        record {
          frequency = valid.frequency;
          admission = valid.admission;
          size = omega (arith, shorter, valid.size);
          hot = valid.hot;
          ghosts = valid.ghosts;
        },
        refl,
        refl,
      )
      by_state in_hot at = rw at (
        record {
          frequency = valid.frequency;
          admission = valid.admission;
          size = omega (arith, shorter, valid.size);
          hot = omega (arith, valid.hot);
          ghosts = valid.ghosts;
        },
        refl,
        refl,
      )

  -- A removal returns the value that the key had, and leaves the values of the other keys.
  pub remove_key-IsValidShard :
      (key : K) (s : Shard K V)
      → IsValidShard s
      → (s' : Shard K V) × (remove_key key s ≡ (held key s.map, s'))
        × IsValidShard s'
        × (s'.capacity ≡ s.capacity)
        × HoldsOnly (removed key (λ k. held k s.map)) s'.map
  unfolding remove_key
  remove_key-IsValidShard key s valid = elim (Option-cases (lookup key s.map)) [
    | inl missing ↦ (
      s,
      rw (remove_key, held, missing),
      valid,
      refl,
      λ k r found. elim (Bool-cases (e.same key k)) [
        | inl here ↦ cc (rw (← (e.same_iff key k).0 here, missing) at found)
        | inr other ↦ rw (removed, other) (held-HoldsOnly s.map k r found)
      ],
    )
    | inr (r, found) ↦
        let (valid', size, left) = forget-IsValidShard key r s found valid in
        (
          forget key r s,
          rw (remove_key, held, found),
          valid',
          size,
          rw left (λ k x there. elim (Bool-cases (e.same key k)) [
            | inl here ↦ cc (rw (lookup-remove key k s.map, here) at there)
            | inr other ↦
                rw (removed, other)
                  (held-HoldsOnly s.map k x (rw (lookup-remove key k s.map, other) at there))
          ]),
        )
  ]
