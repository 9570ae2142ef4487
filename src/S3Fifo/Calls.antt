-- ===== src/S3Fifo/Calls.antt =====
-- Calls on a cache (crates/mfs-core/src/s3fifo.rs), and what they are expected to find.
use memory_first_store.Prelude.{
  ==_iff, ◌==◌, ℕ, ◌+◌, ◌*◌, ◌/◌, ◌%◌, ◌^◌, ◌<◌, ◌≡◌, ◌≢◌, ◌∙◌, refl, sym, ap, Option, none, some,
  List, [], ◌∷◌, arith, length, length-set, get_elem?, get_elem?-set_self, get_elem?-set_ne, set,
  Bool-cases, Option-cases, inl, inr, ◌⊎◌,
}
use memory_first_store.Prelude.Fail.Panic.{◌>>=◌}
use memory_first_store.Bytes.Bits.{bit_and-le}
use memory_first_store.Maps.{Keyed, lookup}
use memory_first_store.TinyLfu.Valid.{get_elem?-below}
use memory_first_store.S3Fifo.{Shard, Resident}
use memory_first_store.S3Fifo.Operations.{insert_value, get, remove_key}
use memory_first_store.S3Fifo.Valid.{
  IsValidShard, HoldsOnly, held, inserted, insert_value-IsValidShard, get-IsValidShard,
}
use memory_first_store.S3Fifo.Setup.{removed, remove_key-IsValidShard}
use memory_first_store.S3Fifo.Cache.{
  S3FifoCache, shard_idx, on_shard, cache_get, cache_insert, cache_remove,
}

pub data CacheCall (K V : Type 0) : Type 0 where
  insert_call : K → V → CacheCall K V
  get_call remove_call : K → CacheCall K V

abbrev pub key_of : {K V : Type 0} → CacheCall K V → K
key_of (insert_call key value) = key
key_of (get_call key) = key
key_of (remove_call key) = key

set_cases :
    {A : Type 0} (xs : List A) (at i : ℕ) (new t : A)
    → at < length xs
    → get_elem? (set xs at new) i ≡ some t
    → ((at ≡ i) × (new ≡ t)) ⊎ ((at ≢ i) × (get_elem? xs i ≡ some t))
set_cases xs at i new t below found = elim (Bool-cases (at == i)) [
  | inl here ↦
      let same : at ≡ i = (==_iff at i).0 here in
      inl (same, ground (arith, rw (← same, get_elem?-set_self xs at new below) at found))
  | inr other ↦
      let apart : at ≢ i = λ same. ground (arith, other, same) in
      inr (apart, rw (get_elem?-set_ne xs new apart) at found)
]

module _ {K V : Type 0} ⦃e : Keyed K⦄ where
  unfoldable pub call : CacheCall K V → S3FifoCache K V → Option (Option V × S3FifoCache K V)
  call (insert_call key value) c = cache_insert key value c
  call (get_call key) c = cache_get key c
  call (remove_call key) c = cache_remove key c

  -- The calls one after the other; their answers are dropped.
  unfoldable pub calls : List (CacheCall K V) → S3FifoCache K V → Option (S3FifoCache K V)
  calls [] c = some c
  calls (x ∷ xs) c = do (answer, after) ← call x c; calls xs after

  -- A map that never evicts.
  abbrev pub expected_after : CacheCall K V → (K → Option V) → K → Option V
  expected_after (insert_call key value) expected = inserted key value expected
  expected_after (get_call key) expected = expected
  expected_after (remove_call key) expected = removed key expected

  abbrev pub expected_after_all : List (CacheCall K V) → (K → Option V) → K → Option V
  expected_after_all [] expected = expected
  expected_after_all (x ∷ xs) expected = expected_after_all xs (expected_after x expected)

  -- The shards are valid and of one capacity, and the shard of a key has for it only what is
  -- expected.
  pub record IsValidCache (n capacity : ℕ) (expected : K → Option V) (c : S3FifoCache K V)
      : Type 0 where
    pub mask : c.shard_mask < n
    pub count : length c.shards ≡ n
    pub valid :
        (i : ℕ) (s : Shard K V)
        → get_elem? c.shards i ≡ some s
        → IsValidShard s × (s.capacity ≡ capacity)
    pub holds :
        (k : K) (s : Shard K V) (r : Resident V)
        → get_elem? c.shards (shard_idx c (c.hash_key k)) ≡ some s
        → lookup k s.map ≡ some r
        → expected k ≡ some r.value

  expected_elsewhere :
      (x : CacheCall K V) (expected : K → Option V) (k : K)
      → key_of x ≢ k
      → expected_after x expected k ≡ expected k
  expected_elsewhere (insert_call key value) expected k other =
      ground (arith, e.same_iff key k, other)
  expected_elsewhere (get_call key) expected k other = refl
  expected_elsewhere (remove_call key) expected k other = ground (arith, e.same_iff key k, other)

  expected_more :
      (x : CacheCall K V) (f g : K → Option V) (k : K) (v : V)
      → (f k ≡ some v → g k ≡ some v)
      → expected_after x f k ≡ some v
      → expected_after x g k ≡ some v
  expected_more (insert_call key value) f g k v more h = ground (arith, e.same_iff key k, more, h)
  expected_more (get_call key) f g k v more h = more h
  expected_more (remove_call key) f g k v more h = ground (arith, e.same_iff key k, more, h)

  -- The answer and the effect of a call on the shard of its key.
  abbrev Answers : CacheCall K V → (Shard K V → Option (Option V × Shard K V)) → Type 0
  Answers x operation =
      (s : Shard K V)
      → IsValidShard s
      → (s' : Shard K V) × (operation s ≡ some (held (key_of x) s.map, s'))
        × IsValidShard s'
        × (s'.capacity ≡ s.capacity)
        × HoldsOnly (expected_after x (λ k. held k s.map)) s'.map

  shard_idx_lt : (c : S3FifoCache K V) (n hash : ℕ) → c.shard_mask < n → shard_idx c hash < n
  unfolding shard_idx
  shard_idx_lt c n hash h =
      omega (arith, h, bit_and-le (hash / 2 ^ 7 + hash % 2 ^ 7 * 2 ^ 57) c.shard_mask)

  held_more :
      (expected : K → Option V) (k : K) (v : V) (m : List (K × Resident V))
      → ((r : Resident V) → lookup k m ≡ some r → expected k ≡ some r.value)
      → held k m ≡ some v
      → expected k ≡ some v
  held_more expected k v m holds h = elim (Option-cases (lookup k m)) [
    | inl missing ↦ cc (rw (held, missing) at h)
    | inr (r, found) ↦ holds r found ∙ rw (held, found) at h
  ]

  -- The answer of a call is what the shard had, which is nothing or what is expected.
  abbrev pub IsExpected : (K → Option V) → CacheCall K V → Option V → Type 0
  IsExpected expected x answer = (answer ≡ none) ⊎ (answer ≡ expected (key_of x))

  held-IsExpected :
      (expected : K → Option V) (x : CacheCall K V) (m : List (K × Resident V))
      → ((r : Resident V) → lookup (key_of x) m ≡ some r → expected (key_of x) ≡ some r.value)
      → IsExpected expected x (held (key_of x) m)
  held-IsExpected expected x m holds = elim (Option-cases (lookup (key_of x) m)) [
    | inl missing ↦ inl (rw (held, missing))
    | inr (r, found) ↦ inr (rw (held, found) (sym (holds r found)))
  ]

  on_shard-IsValidCache :
      (x : CacheCall K V) (operation : Shard K V → Option (Option V × Shard K V)) (n capacity : ℕ)
      (expected : K → Option V) (c : S3FifoCache K V)
      → Answers x operation
      → IsValidCache n capacity expected c
      → (answer : Option V) × (c' : S3FifoCache K V) × (on_shard operation (c.hash_key (key_of x)) c
          ≡ some (answer, c'))
        × IsValidCache n capacity (expected_after x expected) c'
        × IsExpected expected x answer
  unfolding on_shard shard_idx
  on_shard-IsValidCache x operation n capacity expected c answers v =
      let at = shard_idx c (c.hash_key (key_of x)) in
      let below : at < length c.shards =
        rw v.count (shard_idx_lt c n (c.hash_key (key_of x)) v.mask) in
      let (s, read) = get_elem?-below c.shards at below in
      let (s', done, valid', same, holds) = answers s (v.valid at s read).0 in
      (
        held (key_of x) s.map,
        record c { shards = set c.shards at s' },
        rw (read, done),
        record {
          mask = v.mask;
          count = rw length-set v.count;
          valid = λ i t found. elim (set_cases c.shards at i s' t below found) [
            | inl (here, new) ↦ rw (← new) (valid', same ∙ (v.valid at s read).1)
            | inr (apart, there) ↦ v.valid i t there
          ];
          holds = λ k t r at_k found.
              elim (set_cases c.shards at (shard_idx c (c.hash_key k)) s' t below at_k) [
                | inl (here, new) ↦
                    expected_more x (λ j. held j s.map) expected k r.value
                      (held_more expected k r.value s.map
                        (λ q had. v.holds k s q (rw (← here) read) had))
                      (holds k r (rw new found))
                | inr (apart, there) ↦
                    expected_elsewhere x expected k
                      (λ one. apart (ap (λ j. shard_idx c (c.hash_key j)) one))
                    ∙ v.holds k t r there found
              ];
        },
        held-IsExpected expected x s.map (λ r found. v.holds (key_of x) s r read found),
      )

  pub call-IsValidCache :
      (x : CacheCall K V) (n capacity : ℕ) (expected : K → Option V) (c : S3FifoCache K V)
      → IsValidCache n capacity expected c
      → (answer : Option V) × (c' : S3FifoCache K V) × (call x c ≡ some (answer, c'))
        × IsValidCache n capacity (expected_after x expected) c'
        × IsExpected expected x answer
  unfolding call cache_get cache_insert cache_remove
  call-IsValidCache (insert_call key value) n capacity expected c v =
      on_shard-IsValidCache (insert_call key value) (insert_value key (c.hash_key key) value) n
        capacity expected c (insert_value-IsValidShard key (c.hash_key key) value) v
  call-IsValidCache (get_call key) n capacity expected c v =
      on_shard-IsValidCache (get_call key) (get key) n capacity expected c (get-IsValidShard key) v
  call-IsValidCache (remove_call key) n capacity expected c v =
      on_shard-IsValidCache (remove_call key) (λ s. some (remove_key key s)) n capacity expected c
        (λ s valid.
          let (s', done, rest, same, holds) = remove_key-IsValidShard key s valid in
          (s', ap some done, rest, same, holds))
        v

  pub calls-IsValidCache :
      (xs : List (CacheCall K V)) (n capacity : ℕ) (expected : K → Option V) (c : S3FifoCache K V)
      → IsValidCache n capacity expected c
      → (c' : S3FifoCache K V) × (calls xs c ≡ some c')
        × IsValidCache n capacity (expected_after_all xs expected) c'
  unfolding calls
  calls-IsValidCache [] n capacity expected c v = (c, refl, v)
  calls-IsValidCache (x ∷ xs) n capacity expected c v =
      let (answer, c1, done, v1, fresh) = call-IsValidCache x n capacity expected c v in
      let (c', rest, v') = calls-IsValidCache xs n capacity (expected_after x expected) c1 v1 in
      (c', rw done rest, v')
