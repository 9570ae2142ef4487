-- ===== src/S3Fifo/Config.antt =====
-- `S3FifoConfig` of crates/mfs-core/src/s3fifo.rs. The number of threads of the machine, which sets
-- the number of shards, is an argument.
use memory_first_store.Prelude.{ℕ, ◌*◌, Bool, true, false, Option, none, some, max}
use memory_first_store.TinyLfu.{next_power_of_two}
use memory_first_store.S3Fifo.{max_frequency}
use memory_first_store.S3Fifo.Operations.{
  S3FifoAdmissionExperiment, capacity_gate, wide_sketch, packed_4bit, doorkeeper, two_counter_decay,
  clamp,
}

abbrev pub default_hot_ratio_percent : ℕ
default_hot_ratio_percent = 90

abbrev pub default_ghost_ratio_percent : ℕ
default_ghost_ratio_percent = 25

abbrev pub default_small_to_main_threshold : ℕ
default_small_to_main_threshold = 1

pub record S3FifoConfig : Type 0 where
  pub capacity : ℕ
  pub shards : ℕ
  pub hot_ratio_percent : ℕ
  pub ghost_ratio_percent : ℕ
  pub small_to_main_threshold : ℕ
  pub admission_enabled : Bool
  pub admission_experiment : Option S3FifoAdmissionExperiment

-- The threads are `none` where the machine does not tell.
unfoldable pub default_shards : Option ℕ → ℕ
default_shards none = next_power_of_two 16
default_shards (some threads) = next_power_of_two (threads * 4)

unfoldable pub new_config : Option ℕ → ℕ → S3FifoConfig
new_config threads capacity = record {
  capacity = capacity;
  shards = default_shards threads;
  hot_ratio_percent = default_hot_ratio_percent;
  ghost_ratio_percent = default_ghost_ratio_percent;
  small_to_main_threshold = default_small_to_main_threshold;
  admission_enabled = false;
  admission_experiment = none;
}

unfoldable pub with_shards : ℕ → S3FifoConfig → S3FifoConfig
with_shards shards c = record c { shards = next_power_of_two (max shards 1) }

unfoldable pub with_hot_ratio_percent : ℕ → S3FifoConfig → S3FifoConfig
with_hot_ratio_percent percent c = record c { hot_ratio_percent = clamp percent 1 100 }

unfoldable pub with_ghost_ratio_percent : ℕ → S3FifoConfig → S3FifoConfig
with_ghost_ratio_percent percent c = record c { ghost_ratio_percent = percent }

unfoldable pub with_small_to_main_threshold : ℕ → S3FifoConfig → S3FifoConfig
with_small_to_main_threshold threshold c = record c {
  small_to_main_threshold = clamp threshold 1 max_frequency;
}

unfoldable pub with_admission_filter : Bool → S3FifoConfig → S3FifoConfig
with_admission_filter enabled c = record c { admission_enabled = enabled }

unfoldable pub with_admission_experiment : S3FifoAdmissionExperiment → S3FifoConfig → S3FifoConfig
with_admission_experiment experiment c = record c {
  admission_enabled = true;
  admission_experiment = some experiment;
}

unfoldable pub with_experimental_capacity_gate : ℕ → S3FifoConfig → S3FifoConfig
with_experimental_capacity_gate maximum_frequency c = record c {
  admission_enabled = true;
  admission_experiment = some (capacity_gate maximum_frequency);
}

unfoldable pub with_experimental_wide_sketch_floor : ℕ → ℕ → S3FifoConfig → S3FifoConfig
with_experimental_wide_sketch_floor min_width sample_size_floor c = record c {
  admission_enabled = true;
  admission_experiment = some (wide_sketch min_width sample_size_floor);
}

unfoldable pub with_experimental_packed_4bit : ℕ → ℕ → S3FifoConfig → S3FifoConfig
with_experimental_packed_4bit min_width sample_size_floor c = record c {
  admission_enabled = true;
  admission_experiment = some (packed_4bit min_width sample_size_floor);
}

unfoldable pub with_experimental_doorkeeper : ℕ → ℕ → S3FifoConfig → S3FifoConfig
with_experimental_doorkeeper min_width sample_size_floor c = record c {
  admission_enabled = true;
  admission_experiment = some (doorkeeper min_width sample_size_floor);
}

unfoldable pub with_experimental_two_counter_decay : ℕ → ℕ → S3FifoConfig → S3FifoConfig
with_experimental_two_counter_decay min_width sample_size_floor c = record c {
  admission_enabled = true;
  admission_experiment = some (two_counter_decay min_width sample_size_floor);
}
