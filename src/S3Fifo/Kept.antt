-- ===== src/S3Fifo/Kept.antt =====
-- An insert into a shard that has room (crates/mfs-core/src/s3fifo.rs).
use memory_first_store.Prelude.{
  ℕ, suc, ◌+◌, ◌≤◌, ◌<◌, ◌≡◌, ◌∙◌, refl, ap, Bool, false, ◌&&◌, Option, none, some, List, [], ◌∷◌,
  arith, length, ltb, Bool-cases, inl, inr, le→leb,
}
use memory_first_store.Maps.{Keyed, lookup, insert, lookup-insert}
use memory_first_store.S3Fifo.{AdmissionCandidate, AdmissionSample, Resident, Shard}
use memory_first_store.S3Fifo.Evict.{
  weight, without, shrink, cool, rounds, trim_ghosts, evict_to_capacity,
}
use memory_first_store.S3Fifo.Weight.{length-remove}
use memory_first_store.S3Fifo.Operations.{
  reject_candidate_by_capacity_gate, candidate_of, contains_hash, enqueue, insert_new, insert_value,
}
use memory_first_store.S3Fifo.Counted.{record_frequency_total, record_admission_total}
use memory_first_store.S3Fifo.Valid.{IsValidShard, held, inserted}

module _ {K V : Type 0} ⦃e : Keyed K⦄ where
  trim_ghosts-map : (ghosts : List ℕ) (s : Shard K V) → (trim_ghosts ghosts s).map ≡ s.map
  unfolding trim_ghosts
  trim_ghosts-map [] s = refl
  trim_ghosts-map (hash ∷ ghosts) s =
      elim (Bool-cases (ltb s.ghost_capacity (length (hash ∷ ghosts)))) [
        | inl over ↦
            rw over (trim_ghosts-map ghosts (record s { ghost_set = without hash s.ghost_set }))
        | inr enough ↦ rw enough
      ]

  rounds_done :
      (round : Shard K V → Option (Bool × Shard K V)) (fuel : ℕ) (s : Shard K V)
      → round s ≡ some (false, s)
      → rounds round (fuel + 2) s ≡ some s
  unfolding rounds
  rounds_done round fuel s last =
      let more : fuel + 2 ≡ suc (fuel + 1) = omega arith in
      ap (λ n. rounds round n s) more ∙ rw last

  -- With room, only the ghosts are cut.
  evict_to_capacity_idle :
      (candidate : Option (AdmissionCandidate K)) (s : Shard K V)
      → length s.map ≤ s.capacity
      → s.hot_len ≤ s.hot_capacity
      → evict_to_capacity candidate s ≡ some (trim_ghosts s.ghost s)
  unfolding evict_to_capacity shrink cool
  evict_to_capacity_idle candidate s room cold =
      let uncrowded : (ltb s.hot_capacity s.hot_len && ltb 0 s.hot_len) ≡ false =
        ground (arith, cold) in
      let shrunk =
        rounds_done (shrink candidate) (weight s.map) s
          (rw (le→leb (length s.map) s.capacity room)) in
      let cooled = rounds_done (cool candidate) (weight s.map) s (rw uncrowded) in
      rw (evict_to_capacity, shrunk, cooled)

  admits_with_room :
      (sample : Option AdmissionSample) (s : Shard K V)
      → length s.map < s.capacity
      → reject_candidate_by_capacity_gate sample s ≡ false
  unfolding reject_candidate_by_capacity_gate
  admits_with_room sample s room = ground (arith, room)

  insert-held :
      (key : K) (value : V) (r : Resident V) (m : List (K × Resident V)) (k : K)
      → r.value ≡ value
      → held k (insert key r m) ≡ inserted key value (λ j. held j m) k
  insert-held key value r m k new = elim (Bool-cases (e.same key k)) [
    | inl here ↦ rw (held, inserted, lookup-insert key k r m, here) (ap some new)
    | inr other ↦ rw (held, inserted, lookup-insert key k r m, other)
  ]

  -- What the queueing of a new resident makes of the sizes and the values.
  enqueue_sizes :
      (key : K) (hash : ℕ) (value : V) (s : Shard K V)
      → (length (enqueue key hash value s).map ≤ 1 + length s.map)
        × ((enqueue key hash value s).hot_len ≤ 1 + s.hot_len)
        × ((enqueue key hash value s).capacity ≡ s.capacity)
        × ((enqueue key hash value s).hot_capacity ≡ s.hot_capacity)
        × ((k : K)
            → held k (enqueue key hash value s).map ≡ inserted key value (λ j. held j s.map) k)
  unfolding enqueue insert
  enqueue_sizes key hash value s = elim (Bool-cases (contains_hash hash s.ghost_set)) [
    | inl ghost ↦ rw ghost (
      omega (arith, length-remove key s.map),
      omega arith,
      refl,
      refl,
      λ k. insert-held key value _ s.map k refl,
    )
    | inr new ↦ rw new (
      omega (arith, length-remove key s.map),
      omega arith,
      refl,
      refl,
      λ k. insert-held key value _ s.map k refl,
    )
  ]

  -- On a valid shard with room for another resident and another hot one, an insert of a new key ends
  -- without a panic, and afterwards the shard has the value for the key, and for every other key
  -- what it had.
  pub insert_value-held :
      (key : K) (hash : ℕ) (value : V) (s : Shard K V)
      → IsValidShard s
      → lookup key s.map ≡ none
      → length s.map < s.capacity
      → s.hot_len < s.hot_capacity
      → (s' : Shard K V) × (insert_value key hash value s ≡ some (none, s'))
        × ((k : K) → held k s'.map ≡ inserted key value (λ j. held j s.map) k)
  unfolding insert_value insert_new
  insert_value-held key hash value s valid missing room cold =
      let (sample, admission, admitted, fits) =
        record_admission_total s.admission hash s refl valid.admission in
      let s1 = record s { admission = admission } in
      let (frequency, counted, fits') =
        record_frequency_total s1.frequency hash s1 refl valid.frequency in
      let s2 = record s1 { frequency = frequency } in
      let queued = enqueue key hash value s2 in
      let (size, hot_len, capacity, hot_capacity, values) = enqueue_sizes key hash value s2 in
      let idle =
        evict_to_capacity_idle (candidate_of key hash sample) queued
          (omega (arith, size, capacity, room)) (omega (arith, hot_len, hot_capacity, cold)) in
      (
        trim_ghosts queued.ghost queued,
        rw (insert_value, missing, admitted, admits_with_room sample s1 room, counted, idle),
        λ k. ap (λ m. held k m) (trim_ghosts-map queued.ghost queued) ∙ values k,
      )
