-- ===== src/S3Fifo/Sessions.antt =====
-- A new cache, and any calls on it (crates/mfs-core/src/s3fifo.rs).
use native.Mathlib.Nat.{mul-div-le, mul-le-mul, le-div_iff_mul-le, div-le_of_le-mul}
use memory_first_store.Prelude.{
  ℕ, zero, suc, ◌+◌, ◌-◌, ◌*◌, ◌/◌, ◌^◌, ◌≤◌, ◌<◌, ◌≡◌, refl, false, ◌&&◌, Option, none, some, List,
  [], ◌∷◌, ◌==◌, arith, length, length-replicate, replicate, max, get_elem?, ltb, leb, Bool-cases,
  inl, inr, ◌⊎◌, leb→le, leb→lt,
}
use memory_first_store.Maps.{Keyed, lookup-nil}
use memory_first_store.TinyLfu.{next_power_of_two, power_from}
use memory_first_store.TinyLfu.Setup.{power_from-le}
use memory_first_store.S3Fifo.{Shard}
use memory_first_store.S3Fifo.Operations.{clamp, new_shard}
use memory_first_store.S3Fifo.Valid.{IsValidShard}
use memory_first_store.S3Fifo.Setup.{IsModest, new_shard-IsValidShard}
use memory_first_store.S3Fifo.Config.{S3FifoConfig}
use memory_first_store.S3Fifo.Cache.{
  S3FifoCache, div_ceil, halved, with_hasher_and_config, total_len, cache_len, min_shard_capacity,
}
use memory_first_store.S3Fifo.Calls.{
  CacheCall, call, calls, expected_after_all, IsValidCache, IsExpected, call-IsValidCache,
  calls-IsValidCache,
}

power_from-ge : (k p n : ℕ) → n ≤ p * 2 ^ k → n ≤ power_from (suc k) p n
unfolding power_from
power_from-ge zero p n h = elim (Bool-cases (leb n p)) [
  | inl enough ↦ rw enough (leb→le n p enough)
  | inr small ↦ absurd (omega (arith, leb→lt n p small, h))
]
power_from-ge (suc k) p n h = elim (Bool-cases (leb n p)) [
  | inl enough ↦ rw enough (leb→le n p enough)
  | inr small ↦ rw small (power_from-ge k (p * 2) n (grind (arith, h)))
]

-- Enough fuel halves the shards until there is one, or each has the least capacity.
halved_lem :
    (fuel capacity shards : ℕ)
    → 1 ≤ shards
    → shards ≤ fuel
    → (1 ≤ halved fuel capacity shards)
      × (halved fuel capacity shards ≤ shards)
      × ((halved fuel capacity shards ≡ 1) ⊎ (32 ≤ div_ceil capacity (halved fuel capacity shards)))
unfolding halved
halved_lem zero capacity shards one fits = absurd (omega (arith, one, fits))
halved_lem (suc fuel) capacity shards one fits =
    elim (Bool-cases (ltb 1 shards && ltb (div_ceil capacity shards) min_shard_capacity)) [
      | inl more ↦
          let several : 1 < shards = ground (arith, more) in
          let (low, high, enough) =
            halved_lem fuel capacity (shards / 2) (omega (arith, several))
              (omega (arith, fits, several)) in
          rw more (low, omega (arith, high), enough)
      | inr last ↦ rw last (one, omega arith, settled last)
    ]
  where
    settled :
        (ltb 1 shards && ltb (div_ceil capacity shards) min_shard_capacity) ≡ false
        → (shards ≡ 1) ⊎ (32 ≤ div_ceil capacity shards)
    settled last = elim (Bool-cases (ltb 1 shards)) [
      | inl several ↦ inr (ground (arith, last, several))
      | inr single ↦ inl (ground (arith, single, one))
    ]

ceil_le : (m n : ℕ) → 1 ≤ n → n ≤ m → div_ceil m n ≤ m
ceil_le zero n one less = absurd (omega (arith, one, less))
ceil_le (suc m) zero one less = absurd (omega (arith, one))
ceil_le (suc m) (suc n) one less = div-le_of_le-mul (suc n) (grind arith)

ceil_mul_lt : (m n : ℕ) → 1 ≤ n → n * div_ceil m n < m + n
ceil_mul_lt m n one = omega (arith, mul-div-le (m + n - 1) n, one)

size_lt : (m n : ℕ) → 1 ≤ n → n ≤ m → n * max (div_ceil (max m n) n) 1 < m + n
size_lt m n one less =
    let largest : max m n ≡ m = omega (arith, less) in
    let some_room : 1 ≤ div_ceil m n =
      (le-div_iff_mul-le {k = n} {x = 1} {y = m + n - 1} one).1 (omega (arith, one, less)) in
    let whole : max (div_ceil m n) 1 ≡ div_ceil m n = omega (arith, some_room) in
    rw (largest, whole) (ceil_mul_lt m n one)

get_elem?-replicate :
    {A : Type 0} (n i : ℕ) (a x : A) → get_elem? (replicate n a) i ≡ some x → a ≡ x
get_elem?-replicate zero i a x h = cc h
get_elem?-replicate (suc n) zero a x h = ground (arith, h)
get_elem?-replicate (suc n) (suc i) a x h = get_elem?-replicate n i a x h

module _ {K V : Type 0} where
  total_len-le :
      (xs : List (Shard K V)) (capacity : ℕ)
      → ((i : ℕ) (s : Shard K V) → get_elem? xs i ≡ some s → length s.map ≤ capacity)
      → total_len xs ≤ length xs * capacity
  unfolding total_len
  total_len-le [] capacity each = omega arith
  total_len-le (s ∷ xs) capacity each =
      omega (arith, each 0 s refl, total_len-le xs capacity (λ i t h. each (suc i) t h))

-- Sizes that a cache can be made with.
pub record IsModestConfig (config : S3FifoConfig) : Type 0 where
  pub capacity : config.capacity ≤ 2 ^ 57
  pub shards : config.shards ≤ 2 ^ 57
  pub experiment : IsModest config.admission_experiment

-- The capacity is at least the number of shards.
enough_for_all :
    (capacity n : ℕ) → 1 ≤ n → 1 ≤ capacity → (n ≡ 1) ⊎ (32 ≤ div_ceil capacity n) → n ≤ capacity
enough_for_all capacity n one some_room (inl single) = omega (arith, single, some_room)
enough_for_all capacity n one some_room (inr roomy) =
    let below = mul-div-le (capacity + n - 1) n in
    let above = mul-le-mul {n₁ = n} {m₁ = 32} {n₂ = n} (omega arith) roomy in
    omega (arith, below, above, one)

module _ {K V : Type 0} ⦃e : Keyed K⦄ where
  -- The shards of a new cache, all alike and empty.
  replicate-IsValidCache :
      (n : ℕ) (s : Shard K V) (hash_key : K → ℕ)
      → 1 ≤ n
      → IsValidShard s
      → s.map ≡ []
      → IsValidCache n s.capacity
          (λ k. none)
          (record { shards = replicate n s; shard_mask = n - 1; hash_key = hash_key })
  replicate-IsValidCache n s hash_key one valid empty = record {
    mask = omega (arith, one);
    count = length-replicate n s;
    valid = λ i t found. rw (← get_elem?-replicate n i s t found) (valid, refl);
    holds = λ k t r found there.
        let at : t.map ≡ [] = rw (← get_elem?-replicate n _ s t found) empty in
        cc (rw (at, lookup-nil k) at there);
  }

  cache_len-le :
      (c : S3FifoCache K V) (n capacity : ℕ) (expected : K → Option V)
      → IsValidCache n capacity expected c
      → cache_len c ≤ n * capacity
  unfolding cache_len
  cache_len-le c n capacity expected v = rw (← v.count) (
      total_len-le c.shards capacity
        (λ i s found. let (valid, same) = v.valid i s found in omega (arith, valid.size, same)))

  -- What a new cache is.
  abbrev IsNew : (K → ℕ) → S3FifoConfig → ℕ → ℕ → S3FifoCache K V → Type 0
  IsNew hash_key config n capacity c =
      (with_hasher_and_config hash_key config ≡ some c)
      × IsValidCache n capacity (λ k. none) c
      × (n * capacity < max config.capacity 1 + n)
      × ((n ≡ 1) ⊎ (32 ≤ div_ceil (max config.capacity 1) n))

  with_hasher_and_config-IsNew :
      (hash_key : K → ℕ) (config : S3FifoConfig)
      → IsModestConfig config
      → (n : ℕ) × (capacity : ℕ) × (c : S3FifoCache K V) × IsNew hash_key config n capacity c
  unfolding with_hasher_and_config next_power_of_two new_shard
  with_hasher_and_config-IsNew hash_key config modest =
      let total = max config.capacity 1 in
      let asked = power_from 64 1 (max config.shards 1) in
      let small = power_from-le 64 1 (max config.shards 1) in
      let large = power_from-ge 63 1 (max config.shards 1) (omega (arith, modest.shards)) in
      let n = halved asked total asked in
      let (low, high, enough) = halved_lem asked total asked (omega (arith, large)) (omega arith) in
      let room = enough_for_all total n low (omega arith) enough in
      let whole : max total n ≡ total = omega (arith, room) in
      let per_shard = div_ceil (max total n) n in
      let bounded = ceil_le (max total n) n low (omega arith) in
      let valid =
        new_shard-IsValidShard K V per_shard (clamp config.hot_ratio_percent 1 100)
          config.ghost_ratio_percent config.small_to_main_threshold config.admission_enabled
          config.admission_experiment (omega (arith, bounded, whole, modest.capacity))
          modest.experiment in
      let exists : (n == 0) ≡ false = ground (arith, low) in
      (
        n,
        max per_shard 1,
        _,
        (
          rw exists,
          replicate-IsValidCache n _ hash_key low valid refl,
          size_lt total n low room,
          enough,
        ),
      )

  -- On a cache for at most 2 ^ 57 residents in at most 2 ^ 57 shards, whose admission experiment, if
  -- it has one with a sketch, asks for at most 2 ^ 58 counters in a row and fewer than 2 ^ 64
  -- samples, after any calls and whatever the hashes are: a call ends without a panic, its answer is
  -- none or what a map that never evicts would answer, and the cache holds fewer residents than its
  -- capacity (at least 1) and the number of its shards together; there is one shard, or each has
  -- room for 32 residents at least.
  pub call-IsExpected :
      (hash_key : K → ℕ) (config : S3FifoConfig) (xs : List (CacheCall K V)) (x : CacheCall K V)
      → IsModestConfig config
      → (start : S3FifoCache K V) × (before : S3FifoCache K V) × (answer : Option V)
        × (after : S3FifoCache K V) × (with_hasher_and_config hash_key config ≡ some start)
        × (calls xs start ≡ some before)
        × (call x before ≡ some (answer, after))
        × IsExpected (expected_after_all xs (λ k. none)) x answer
        × (cache_len after < max config.capacity 1 + length after.shards)
        × ((length after.shards ≡ 1)
            ⊎ (32 ≤ div_ceil (max config.capacity 1) (length after.shards)))
  call-IsExpected hash_key config xs x modest =
      let (n, capacity, start, (made, fresh, size, enough)) =
        with_hasher_and_config-IsNew hash_key config modest in
      let (before, run, v) = calls-IsValidCache xs n capacity (λ k. none) start fresh in
      let (answer, after, done, v', expected) =
        call-IsValidCache x n capacity (expected_after_all xs (λ k. none)) before v in
      (
        start,
        before,
        answer,
        after,
        made,
        run,
        done,
        expected,
        omega (arith, cache_len-le after n capacity _ v', size, v'.count),
        rw v'.count enough,
      )
