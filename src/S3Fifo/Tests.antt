-- ===== src/S3Fifo/Tests.antt =====
-- Calls on small shards (crates/mfs-core/src/s3fifo.rs).
use memory_first_store.Prelude.{
  ℕ, ◌≤◌, ◌≡◌, refl, true, false, Option, none, some, List, [], ◌∷◌, arith, length, max, ◌+◌, ◌<◌,
  ◌⊎◌, get_elem?,
}
use memory_first_store.Prelude.Fail.Panic.{◌>>=◌}
use memory_first_store.Maps.{bytes_keyed, bytes_same, lookup, remove, insert}
use memory_first_store.TinyLfu.{
  power_from, next_power_of_two, new_packed, new_counters, door_keeper_with_capacity, with_options,
  with_doorkeeper,
}
use memory_first_store.TinyLfu.Counters
use memory_first_store.TinyLfu.Counters.{load, increment_counter, age_counters}
use memory_first_store.TinyLfu.Sketch.{
  mix_tiny_lfu_hash, for_rows, door_index, bit_mask, set_bit, check_and_set, clear, index, estimate,
  age, record_sample, admit, admit_door, count, increment,
}
use memory_first_store.S3Fifo.{Shard}
use memory_first_store.S3Fifo.Frequency.{
  saturating_increment, bump_ref, mix_frequency_hash, sketch_with_capacity, sketch_index,
  age_sketch, sampled, increment_frequency, frequency_of,
}
use memory_first_store.S3Fifo.Evict.{
  without, remove_queued_key, reject_hotter, reject_candidate_if_victim_hotter, visit_cold,
  evict_cold_from, evict_cold_once, visit_hot, evict_hot_from, evict_hot_once, evict_any_once,
  after_eviction, shrink, cool, rounds, trim_ghosts, evict_to_capacity,
}
use memory_first_store.S3Fifo.Operations.{
  doorkeeper, build_admission_sketch, new_shard, record_frequency, record_admission,
  reject_candidate_by_capacity_gate, contains_hash, enqueue, insert_new, count_admission,
  insert_value, get, remove_key,
}
use memory_first_store.S3Fifo.Valid.{
  IsValidShard, HoldsOnly, held, inserted, insert_value-IsValidShard,
}
use memory_first_store.S3Fifo.Kept.{insert_value-held}
use memory_first_store.S3Fifo.Setup.{new_shard-IsValidShard}
use memory_first_store.S3Fifo.Config.{S3FifoConfig}
use memory_first_store.S3Fifo.Cache.{
  S3FifoCache, div_ceil, halved, with_hasher_and_config, shard_idx, on_shard, cache_len, cache_get,
  cache_insert, cache_remove,
}
use memory_first_store.S3Fifo.Calls.{
  CacheCall, insert_call, get_call, remove_call, call, calls, expected_after_all, IsExpected,
}
use memory_first_store.S3Fifo.Sessions.{call-IsExpected}

unfoldable shard_program : Unit {0}
unfolding bytes_same lookup remove insert power_from next_power_of_two new_packed new_counters
    door_keeper_with_capacity with_options with_doorkeeper Counters.saturating_increment load
    increment_counter age_counters mix_tiny_lfu_hash for_rows door_index bit_mask set_bit
    check_and_set clear index estimate age record_sample admit admit_door count increment
    saturating_increment bump_ref mix_frequency_hash sketch_with_capacity sketch_index age_sketch
    sampled increment_frequency frequency_of without remove_queued_key reject_hotter
    reject_candidate_if_victim_hotter visit_cold evict_cold_from evict_cold_once visit_hot
    evict_hot_from evict_hot_once evict_any_once after_eviction shrink cool rounds trim_ghosts
    evict_to_capacity build_admission_sketch new_shard record_frequency record_admission
    reject_candidate_by_capacity_gate contains_hash enqueue insert_new count_admission insert_value
    get remove_key halved with_hasher_and_config shard_idx on_shard cache_get cache_insert
    cache_remove call calls
shard_program = tt

abbrev key_a : List ℕ
key_a = 97 ∷ []

abbrev key_b : List ℕ
key_b = 98 ∷ []

abbrev key_c : List ℕ
key_c = 99 ∷ []

-- A shard of two residents.
abbrev small : Shard (List ℕ) ℕ
small = new_shard (List ℕ) ℕ 2 50 100 1 false none

-- Three residents in the shard of two.
abbrev crowded : Shard (List ℕ) ℕ
crowded = enqueue key_c 3 30 (enqueue key_b 2 20 (enqueue key_a 1 10 small))

-- The shard of one insert, with an admission sketch.
abbrev guarded : Shard (List ℕ) ℕ
guarded = new_shard (List ℕ) ℕ 1 50 100 4 true (some (doorkeeper 16 64))

guarded-IsValidShard : IsValidShard guarded
guarded-IsValidShard =
    new_shard-IsValidShard (List ℕ) ℕ 1 50 100 4 true (some (doorkeeper 16 64)) (omega arith)
      (omega arith, omega arith)

abbrev full_shard : Shard (List ℕ) ℕ
full_shard = (insert_value-IsValidShard key_a 1 10 guarded guarded-IsValidShard).0

insert_value-IsValidShard_example :
    (s' : Shard (List ℕ) ℕ) × (insert_value key_b 2 20 full_shard
      ≡ some (held key_b full_shard.map, s'))
    × IsValidShard s'
    × (s'.capacity ≡ full_shard.capacity)
    × HoldsOnly (inserted key_b 20 (λ k. held k full_shard.map)) s'.map
insert_value-IsValidShard_example =
    insert_value-IsValidShard key_b 2 20 full_shard
      (insert_value-IsValidShard key_a 1 10 guarded guarded-IsValidShard).2

-- A shard with one resident, and room for another.
abbrev roomy : Shard (List ℕ) ℕ
roomy = enqueue key_a 1 10 small

roomy-IsValidShard : IsValidShard roomy
unfolding enqueue new_shard contains_hash without insert remove
roomy-IsValidShard = record {
  frequency = tt;
  admission = tt;
  size = omega arith;
  hot = omega arith;
  ghosts = omega arith;
}

roomy_sizes :
    (lookup key_b roomy.map ≡ none)
    × (length roomy.map < roomy.capacity)
    × (roomy.hot_len < roomy.hot_capacity)
unfolding enqueue new_shard contains_hash without insert remove lookup bytes_same
roomy_sizes = (refl, omega arith, omega arith)

insert_value-held_example :
    (s' : Shard (List ℕ) ℕ) × (insert_value key_b 2 20 roomy ≡ some (none, s'))
    × ((k : List ℕ) → held k s'.map ≡ inserted key_b 20 (λ j. held j roomy.map) k)
insert_value-held_example =
    insert_value-held key_b 2 20 roomy roomy-IsValidShard roomy_sizes.0 roomy_sizes.1 roomy_sizes.2

-- A hasher, and a cache of one shard for two residents.
abbrev first_byte : List ℕ → ℕ
first_byte [] = 0
first_byte (b ∷ bs) = b

abbrev config : S3FifoConfig
config = record {
  capacity = 2;
  shards = 4;
  hot_ratio_percent = 50;
  ghost_ratio_percent = 100;
  small_to_main_threshold = 1;
  admission_enabled = false;
  admission_experiment = none;
}

abbrev session : List (CacheCall (List ℕ) ℕ)
session =
    insert_call key_a 10
    ∷ insert_call key_b 20
    ∷ get_call key_a
    ∷ insert_call key_c 30
    ∷ remove_call key_a
    ∷ []

call-IsExpected_example :
    (start : S3FifoCache (List ℕ) ℕ) × (before : S3FifoCache (List ℕ) ℕ) × (answer : Option ℕ)
    × (after : S3FifoCache (List ℕ) ℕ) × (with_hasher_and_config first_byte config ≡ some start)
    × (calls session start ≡ some before)
    × (call (get_call key_c) before ≡ some (answer, after))
    × IsExpected (expected_after_all session (λ k. none)) (get_call key_c) answer
    × (cache_len after < max config.capacity 1 + length after.shards)
    × ((length after.shards ≡ 1) ⊎ (32 ≤ div_ceil (max config.capacity 1) (length after.shards)))
call-IsExpected_example =
    call-IsExpected first_byte config session (get_call key_c)
      (record { capacity = omega arith; shards = omega arith; experiment = tt })

abbrev map_keys : {A : Type 0} → List (List ℕ × A) → List (List ℕ)
map_keys [] = []
map_keys ((k, r) ∷ m) = k ∷ map_keys m

-- The keys of the map, of the cold queue and of the hot queue of the first shard.
abbrev keys_after :
    S3FifoConfig
    → List (CacheCall (List ℕ) ℕ)
    → Option (List (List ℕ) × List (List ℕ) × List (List ℕ))
keys_after c xs = do
  start ← with_hasher_and_config first_byte c
  after ← calls xs start
  s ← get_elem? after.shards 0
  some (map_keys s.map, s.cold, s.hot)

-- The third key takes the place of the second, the first goes to the hot queue and leaves its key
-- there when it is removed.
session_run : keys_after config session ≡ some (key_c ∷ [], key_c ∷ [], key_a ∷ [])
unfolding shard_program
session_run = refl

abbrev answer_after : List (CacheCall (List ℕ) ℕ) → List ℕ → Option (Option ℕ)
answer_after xs key = do
  start ← with_hasher_and_config first_byte config
  before ← calls xs start
  (answer, after) ← cache_get key before
  some answer

answer_run : answer_after session key_c ≡ some (some 30)
unfolding shard_program
answer_run = refl

-- With an admission sketch the new key is rejected for a victim used more often. The victim stays,
-- in no queue.
abbrev admitting : S3FifoConfig
admitting = record config {
  capacity = 1;
  small_to_main_threshold = 4;
  admission_enabled = true;
  admission_experiment = some (doorkeeper 16 64);
}

orphan_run :
    keys_after admitting (insert_call key_a 10 ∷ insert_call key_a 11 ∷ insert_call key_b 20 ∷ [])
    ≡ some (key_a ∷ [], [], [])
unfolding shard_program
orphan_run = refl
