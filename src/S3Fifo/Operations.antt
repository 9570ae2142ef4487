-- ===== src/S3Fifo/Operations.antt =====
-- The operations of a shard of the S3-FIFO cache (crates/mfs-core/src/s3fifo.rs), without those
-- that only measure.
use memory_first_store.Prelude.{
  ℕ, ◌+◌, ◌/◌, Bool, false, ◌||◌, ◌&&◌, Option, none, some, List, [], ◌∷◌, ◌++◌, length, min, max,
  ltb, leb, ◌==◌, if◌then◌else◌,
}
use memory_first_store.Prelude.Fail.Panic.{◌>>=◌}
use memory_first_store.Maps.{Keyed, lookup, insert}
use memory_first_store.TinyLfu.{
  TinyLfu, saturating_mul, with_capacity, with_capacity_and_floor, with_packed_4bit,
  with_doorkeeper, with_two_counter_decay,
}
use memory_first_store.TinyLfu.Sketch.{estimate, increment}
use memory_first_store.S3Fifo.{
  in_cold, in_hot, AdmissionCandidate, AdmissionSample, Shard, max_frequency,
}
use memory_first_store.S3Fifo.Frequency.{bump_ref, sketch_with_capacity, increment_frequency}
use memory_first_store.S3Fifo.Evict.{without, forget, evict_to_capacity}

pub data S3FifoAdmissionExperiment : Type 0 where
  capacity_gate : ℕ → S3FifoAdmissionExperiment
  wide_sketch packed_4bit doorkeeper two_counter_decay : ℕ → ℕ → S3FifoAdmissionExperiment

unfoldable pub build_admission_sketch : ℕ → Option S3FifoAdmissionExperiment → TinyLfu
build_admission_sketch capacity none = with_capacity capacity
build_admission_sketch capacity (some (capacity_gate maximum_frequency)) = with_capacity capacity
build_admission_sketch capacity (some (wide_sketch min_width floor)) =
    with_capacity_and_floor capacity min_width floor
build_admission_sketch capacity (some (packed_4bit min_width floor)) =
    with_packed_4bit capacity min_width floor
build_admission_sketch capacity (some (doorkeeper min_width floor)) =
    with_doorkeeper capacity min_width floor
build_admission_sketch capacity (some (two_counter_decay min_width floor)) =
    with_two_counter_decay capacity min_width floor

abbrev pub gate_of : Option S3FifoAdmissionExperiment → Option ℕ
gate_of (some (capacity_gate maximum_frequency)) = some maximum_frequency
gate_of _ = none

-- `value.clamp(low, high)`
abbrev pub clamp : ℕ → ℕ → ℕ → ℕ
clamp value low high = max low (min value high)

unfoldable pub new_shard :
    (K V : Type 0) → ℕ → ℕ → ℕ → ℕ → Bool → Option S3FifoAdmissionExperiment → Shard K V
new_shard K V capacity hot_ratio_percent ghost_ratio_percent small_to_main_threshold
      admission_enabled admission_experiment =
    let cap = max capacity 1 in
    record {
      map = [];
      cold = [];
      hot = [];
      ghost = [];
      ghost_set = [];
      capacity = cap;
      hot_capacity = clamp (saturating_mul cap hot_ratio_percent / 100) 1 cap;
      ghost_capacity = saturating_mul cap ghost_ratio_percent / 100;
      hot_len = 0;
      cold_len = 0;
      small_to_main_threshold = clamp small_to_main_threshold 1 max_frequency;
      frequency = if ltb 1 small_to_main_threshold then some (sketch_with_capacity cap) else none;
      admission =
          if admission_enabled
          then some (build_admission_sketch cap admission_experiment)
          else none;
      admission_gate = if admission_enabled then gate_of admission_experiment else none;
    }

module _ {K V : Type 0} where
  unfoldable pub record_frequency : ℕ → Shard K V → Option (Shard K V)
  record_frequency hash s = elim s.frequency [
    | none ↦ some s
    | some frequency ↦ do
      counted ← increment_frequency hash frequency
      some (record s { frequency = some counted })
  ]

  unfoldable pub record_admission : ℕ → Shard K V → Option (Option AdmissionSample × Shard K V)
  record_admission hash s = elim s.admission [
    | none ↦ some (none, s)
    | some admission ↦ do
      prior_frequency ← estimate admission hash
      (counted, frequency) ← increment admission hash
      some (
        some (record { prior_frequency = prior_frequency; frequency = frequency }),
        record s { admission = some counted },
      )
  ]

  unfoldable pub count_admission : ℕ → Shard K V → Option (Shard K V)
  count_admission hash s = elim s.admission [
    | none ↦ some s
    | some admission ↦ do
      (counted, frequency) ← increment admission hash
      some (record s { admission = some counted })
  ]

  unfoldable pub reject_candidate_by_capacity_gate : Option AdmissionSample → Shard K V → Bool
  reject_candidate_by_capacity_gate sample s = elim s.admission_gate [
    | none ↦ false
    | some maximum_frequency ↦ elim sample [
      | none ↦ false
      | some taken ↦ leb s.capacity (length s.map) && leb taken.prior_frequency maximum_frequency
    ]
  ]

unfoldable pub contains_hash : ℕ → List ℕ → Bool
contains_hash hash [] = false
contains_hash hash (x ∷ xs) = x == hash || contains_hash hash xs

abbrev pub candidate_of :
    {K : Type 0} → K → ℕ → Option AdmissionSample → Option (AdmissionCandidate K)
candidate_of key hash none = none
candidate_of key hash (some sample) =
    some (record { key = key; hash = hash; frequency = sample.frequency })

module _ {K V : Type 0} ⦃e : Keyed K⦄ where
  -- A new resident in its queue: the hot one if its hash is a ghost.
  unfoldable pub enqueue : K → ℕ → V → Shard K V → Shard K V
  enqueue key hash value s =
      let from_ghost = contains_hash hash s.ghost_set in
      let known = record s { ghost_set = without hash s.ghost_set } in
      if from_ghost
      then record known {
        hot = s.hot ++ key ∷ [];
        hot_len = s.hot_len + 1;
        map =
            insert key (record { value = value; state = in_hot; referenced = 1; hash = hash })
              s.map;
      }
      else record known {
        cold = s.cold ++ key ∷ [];
        cold_len = s.cold_len + 1;
        map =
            insert key (record { value = value; state = in_cold; referenced = 0; hash = hash })
              s.map;
      }

  -- The insert of a key that is not there.
  unfoldable pub insert_new : K → ℕ → V → Shard K V → Option (Shard K V)
  insert_new key hash value s = do
    (sample, s1) ← record_admission hash s
    if reject_candidate_by_capacity_gate sample s1 then some s1 else (do
      s2 ← record_frequency hash s1
      evict_to_capacity (candidate_of key hash sample) (enqueue key hash value s2))

  -- `Shard::insert`, with the value that it replaces.
  unfoldable pub insert_value : K → ℕ → V → Shard K V → Option (Option V × Shard K V)
  insert_value key hash value s = elim (lookup key s.map) [
    | some existing ↦ do
      s1 ← record_frequency existing.hash s
      s2 ← count_admission existing.hash s1
      some (
        some existing.value,
        record s2 {
          map =
              insert key
                (record existing { value = value; referenced = bump_ref existing.referenced })
                s2.map;
        },
      )
    | none ↦ do after ← insert_new key hash value s; some (none, after)
  ]

  unfoldable pub get : K → Shard K V → Option (Option V × Shard K V)
  get key s = elim (lookup key s.map) [
    | none ↦ some (none, s)
    | some resident ↦ do
      s1 ← record_frequency resident.hash s
      some (
        some resident.value,
        record s1 {
          map = insert key (record resident { referenced = bump_ref resident.referenced }) s1.map;
        },
      )
  ]

  unfoldable pub remove_key : K → Shard K V → Option V × Shard K V
  remove_key key s = elim (lookup key s.map) [
    | none ↦ (none, s)
    | some resident ↦ (some resident.value, forget key resident s)
  ]
