-- ===== src/S3Fifo/Cache.antt =====
-- `S3FifoCache` of crates/mfs-core/src/s3fifo.rs: shards, of which the hash of a key chooses one.
-- A lock holds for one operation. `none` is a panic of an index or a division by 0.
use Prim.Native.Nat.{bit_and}
use memory_first_store.Prelude.{
  ℕ, zero, suc, ◌+◌, ◌-◌, ◌*◌, ◌/◌, ◌%◌, ◌^◌, Bool, ◌&&◌, Option, none, some, List, [], ◌∷◌, length,
  max, ltb, ◌==◌, replicate, get_elem?, set, if◌then◌else◌,
}
use memory_first_store.Prelude.Fail.Panic.{◌>>=◌}
use memory_first_store.Maps.{Keyed}
use memory_first_store.TinyLfu.{next_power_of_two}
use memory_first_store.S3Fifo.{Shard}
use memory_first_store.S3Fifo.Operations.{clamp, new_shard, insert_value, get, remove_key}
use memory_first_store.S3Fifo.Config.{S3FifoConfig}

abbrev pub min_shard_capacity : ℕ
min_shard_capacity = 32

-- `hash_key` is the hasher's `hash_one`, which returns a u64.
pub record S3FifoCache (K V : Type 0) : Type 0 where
  pub shards : List (Shard K V)
  pub shard_mask : ℕ
  pub hash_key : K → ℕ

abbrev pub div_ceil : ℕ → ℕ → ℕ
div_ceil a b = (a + b - 1) / b

-- The loop that halves the number of shards while they are too small.
unfoldable pub halved : ℕ → ℕ → ℕ → ℕ
halved zero capacity shards = shards
halved (suc fuel) capacity shards =
    let rest = halved fuel capacity (shards / 2) in
    if ltb 1 shards && ltb (div_ceil capacity shards) min_shard_capacity then rest else shards

module _ {K V : Type 0} where
  unfoldable pub with_hasher_and_config : (K → ℕ) → S3FifoConfig → Option (S3FifoCache K V)
  with_hasher_and_config hash_key config =
      let capacity = max config.capacity 1 in
      let asked = next_power_of_two (max config.shards 1) in
      let shards = halved asked capacity asked in
      let per_shard = div_ceil (max capacity shards) shards in
      if shards == 0
      then none
      else some (record {
        shards = replicate shards (
            new_shard K V per_shard (clamp config.hot_ratio_percent 1 100)
              config.ghost_ratio_percent config.small_to_main_threshold config.admission_enabled
              config.admission_experiment);
        shard_mask = shards - 1;
        hash_key = hash_key;
      })

  -- The hash rotated right by 7 bits, within the mask.
  unfoldable pub shard_idx : S3FifoCache K V → ℕ → ℕ
  shard_idx c hash = bit_and (hash / 2 ^ 7 + hash % 2 ^ 7 * 2 ^ 57) c.shard_mask

  -- An operation on the shard of a key.
  unfoldable pub on_shard :
      {A : Type 0}
      → (Shard K V → Option (A × Shard K V))
      → ℕ
      → S3FifoCache K V
      → Option (A × S3FifoCache K V)
  on_shard operation hash c = do
    s ← get_elem? c.shards (shard_idx c hash)
    (answer, after) ← operation s
    some (answer, record c { shards = set c.shards (shard_idx c hash) after })

  unfoldable pub total_len : List (Shard K V) → ℕ
  total_len [] = 0
  total_len (s ∷ shards) = length s.map + total_len shards

  unfoldable pub cache_len : S3FifoCache K V → ℕ
  cache_len c = total_len c.shards

  unfoldable pub cache_is_empty : S3FifoCache K V → Bool
  cache_is_empty c = cache_len c == 0

module _ {K V : Type 0} ⦃e : Keyed K⦄ where
  unfoldable pub cache_get : K → S3FifoCache K V → Option (Option V × S3FifoCache K V)
  cache_get key c = on_shard (get key) (c.hash_key key) c

  unfoldable pub cache_insert : K → V → S3FifoCache K V → Option (Option V × S3FifoCache K V)
  cache_insert key value c =
      let hash = c.hash_key key in on_shard (insert_value key hash value) hash c

  unfoldable pub cache_remove : K → S3FifoCache K V → Option (Option V × S3FifoCache K V)
  cache_remove key c = on_shard (λ s. some (remove_key key s)) (c.hash_key key) c
