-- ===== src/S3Fifo.antt =====
-- A shard of the S3-FIFO cache of crates/mfs-core/src/s3fifo.rs: its types.
-- Locks, atomics and the measurements of the diagnostics are left out; a hash map is an
-- association list, a hash set a list, and `VecDeque` a list with its front first.
pub mod Frequency
pub mod Evict
pub mod Operations
pub mod Weight
pub mod Fits
pub mod Steps
pub mod Rounds
pub mod Loops
pub mod Counted
pub mod Valid
pub mod Kept
pub mod Config
pub mod Cache
pub mod Setup
pub mod Calls
pub mod Sessions
mod Tests
use memory_first_store.Prelude.{ℕ, Option, List}
use memory_first_store.TinyLfu.{TinyLfu}

abbrev pub max_ref : ℕ
max_ref = 2

abbrev pub max_frequency : ℕ
max_frequency = 15

abbrev pub frequency_depth : ℕ
frequency_depth = 4

pub data ResidentState : Type 0 where
  in_cold in_hot : ResidentState

pub record Resident (V : Type 0) : Type 0 where
  pub value : V
  pub state : ResidentState
  pub referenced : ℕ
  pub hash : ℕ

pub record AdmissionCandidate (K : Type 0) : Type 0 where
  pub key : K
  pub hash : ℕ
  pub frequency : ℕ

pub record AdmissionSample : Type 0 where
  pub prior_frequency : ℕ
  pub frequency : ℕ

pub record FrequencySketch : Type 0 where
  pub width : ℕ
  pub mask : ℕ
  pub sample_size : ℕ
  pub samples : ℕ
  pub counters : List ℕ

-- The `maximum_frequency` of `AdmissionCapacityGate` stands for it.
pub record Shard (K V : Type 0) : Type 0 where
  pub map : List (K × Resident V)
  pub cold : List K
  pub hot : List K
  pub ghost : List ℕ
  pub ghost_set : List ℕ
  pub capacity : ℕ
  pub hot_capacity : ℕ
  pub ghost_capacity : ℕ
  pub hot_len : ℕ
  pub cold_len : ℕ
  pub small_to_main_threshold : ℕ
  pub frequency : Option FrequencySketch
  pub admission : Option TinyLfu
  pub admission_gate : Option ℕ
