-- ===== src/S3Fifo/Evict.antt =====
-- Evictions from a shard of the S3-FIFO cache (crates/mfs-core/src/s3fifo.rs).
use memory_first_store.Prelude.{
  ℕ, zero, suc, ◌+◌, ◌-◌, Bool, true, false, ◌||◌, ◌&&◌, not, Option, none, some, List, [], ◌∷◌,
  ◌++◌, length, ltb, leb, ◌==◌, if◌then◌else◌,
}
use memory_first_store.Prelude.Fail.Panic.{◌>>=◌}
use memory_first_store.Maps.{Keyed, lookup, remove, insert}
use memory_first_store.TinyLfu.{TinyLfu}
use memory_first_store.TinyLfu.Sketch.{estimate}
use memory_first_store.S3Fifo.{in_cold, in_hot, Resident, AdmissionCandidate, Shard}
use memory_first_store.S3Fifo.Frequency.{frequency_of}

-- A `HashSet` of hashes as a list: `remove`.
unfoldable pub without : ℕ → List ℕ → List ℕ
without hash [] = []
without hash (x ∷ xs) = let rest = without hash xs in if x == hash then rest else x ∷ rest

module _ {K : Type 0} ⦃e : Keyed K⦄ where
  -- A key that is last is taken from the back.
  unfoldable pub remove_queued_key : List K → K → List K
  remove_queued_key [] key = []
  remove_queued_key (x ∷ []) key = if e.same x key then [] else x ∷ []
  remove_queued_key (x ∷ y ∷ queue) key = x ∷ remove_queued_key (y ∷ queue) key

-- What a resident can still hold up: itself, its references, and its move to the hot queue.
abbrev pub resident_weight : {V : Type 0} → Resident V → ℕ
resident_weight r = 1 + r.referenced + (elim r.state [ in_cold ↦ 1 | in_hot ↦ 0 ])

abbrev pub weight : {K V : Type 0} → List (K × Resident V) → ℕ
weight [] = 0
weight (x ∷ m) = resident_weight x.1 + weight m

module _ {K V : Type 0} ⦃e : Keyed K⦄ where
  -- The map without a key, and the count of the queue it was in; `queued` takes it from the queue.
  abbrev pub forget : K → Resident V → Shard K V → Shard K V
  forget key r s = elim r.state [
    | in_cold ↦ record s { map = remove key s.map; cold_len = s.cold_len - 1 }
    | in_hot ↦ record s { map = remove key s.map; hot_len = s.hot_len - 1 }
  ]

  abbrev pub unqueue : K → Resident V → Shard K V → Shard K V
  unqueue key r s = elim r.state [
    | in_cold ↦ record s { cold = remove_queued_key s.cold key }
    | in_hot ↦ record s { hot = remove_queued_key s.hot key }
  ]

  -- The sketch finds the victim used more often than the candidate, which then goes.
  unfoldable pub reject_hotter :
      Option TinyLfu → AdmissionCandidate K → ℕ → Shard K V → Option (Bool × Shard K V)
  reject_hotter none candidate victim_hash s = some (false, s)
  reject_hotter (some admission) candidate victim_hash s = do
    victim ← estimate admission victim_hash
    some (
        if leb victim candidate.frequency then (false, s) else elim (lookup candidate.key s.map) [
          | none ↦ (false, s)
          | some removed ↦ (true, unqueue candidate.key removed (forget candidate.key removed s))
        ])

  unfoldable pub reject_candidate_if_victim_hotter :
      Option (AdmissionCandidate K) → ℕ → Shard K V → Option (Bool × Shard K V)
  reject_candidate_if_victim_hotter none victim_hash s = some (false, s)
  reject_candidate_if_victim_hotter (some candidate) victim_hash s =
      if candidate.hash == victim_hash
      then some (false, s)
      else reject_hotter s.admission candidate victim_hash s

  -- `map_or(0, ...)` on the sketch that may be there.
  abbrev pub frequency_or_zero : Shard K V → ℕ → Option ℕ
  frequency_or_zero s hash = elim s.frequency [
    | none ↦ some 0
    | some frequency ↦ frequency_of frequency hash
  ]

  -- A cold resident that was used moves to the hot queue.
  abbrev pub promote : K → Resident V → Shard K V → Shard K V
  promote key r s = record s {
    map = insert key (record r { state = in_hot; referenced = r.referenced - 1 }) s.map;
    cold_len = s.cold_len - 1;
    hot_len = s.hot_len + 1;
    hot = s.hot ++ key ∷ [];
  }

  abbrev pub evict_cold : K → ℕ → Shard K V → Shard K V
  evict_cold key hash s = record s {
    map = remove key s.map;
    cold_len = s.cold_len - 1;
    ghost = s.ghost ++ hash ∷ [];
    ghost_set = hash ∷ without hash s.ghost_set;
  }

  -- The victim goes, unless the candidate goes in its place.
  abbrev pub evict_or_reject :
      Option (AdmissionCandidate K) → ℕ → Shard K V → Shard K V → Option (Bool × Shard K V)
  evict_or_reject candidate hash evicted s = do
    (rejected, after) ← reject_candidate_if_victim_hotter candidate hash s
    some (true, if rejected then after else evicted)

  -- A round of `evict_cold_once` on a cold resident.
  unfoldable pub visit_cold :
      Option (AdmissionCandidate K) → K → Resident V → Shard K V → Option (Bool × Shard K V)
  visit_cold candidate key r s = do
    frequency ← frequency_or_zero s r.hash
    if leb s.small_to_main_threshold r.referenced || leb s.small_to_main_threshold frequency
        then some (true, promote key r s)
        else evict_or_reject candidate r.hash (evict_cold key r.hash s) s

  -- The loop over the cold queue, of which this much is left.
  unfoldable pub evict_cold_from :
      Option (AdmissionCandidate K) → List K → Shard K V → Option (Bool × Shard K V)
  evict_cold_from candidate [] s = some (false, record s { cold = [] })
  evict_cold_from candidate (key ∷ queue) s =
      let again = evict_cold_from candidate queue s in
      elim (lookup key s.map) [
        | none ↦ again
        | some r ↦ elim r.state [
          | in_hot ↦ again
          | in_cold ↦ visit_cold candidate key r (record s { cold = queue })
        ]
      ]

  unfoldable pub evict_cold_once :
      Option (AdmissionCandidate K) → Shard K V → Option (Bool × Shard K V)
  evict_cold_once candidate s = evict_cold_from candidate s.cold s

  -- A hot resident that was used has another turn.
  abbrev pub requeue : K → Resident V → Shard K V → Shard K V
  requeue key r s = record s {
    map = insert key (record r { referenced = r.referenced - 1 }) s.map;
    hot = s.hot ++ key ∷ [];
  }

  unfoldable pub visit_hot :
      Option (AdmissionCandidate K) → K → Resident V → Shard K V → Option (Bool × Shard K V)
  visit_hot candidate key r s =
      if not (r.referenced == 0)
      then some (true, requeue key r s)
      else evict_or_reject candidate r.hash
          (record s { map = remove key s.map; hot_len = s.hot_len - 1 }) s

  unfoldable pub evict_hot_from :
      Option (AdmissionCandidate K) → List K → Shard K V → Option (Bool × Shard K V)
  evict_hot_from candidate [] s = some (false, record s { hot = [] })
  evict_hot_from candidate (key ∷ queue) s =
      let again = evict_hot_from candidate queue s in
      elim (lookup key s.map) [
        | none ↦ again
        | some r ↦ elim r.state [
          | in_cold ↦ again
          | in_hot ↦ visit_hot candidate key r (record s { hot = queue })
        ]
      ]

  unfoldable pub evict_hot_once :
      Option (AdmissionCandidate K) → Shard K V → Option (Bool × Shard K V)
  evict_hot_once candidate s = evict_hot_from candidate s.hot s

  abbrev pub evict_first : List (K × Resident V) → Shard K V → Bool × Shard K V
  evict_first [] s = (false, s)
  evict_first ((key, r) ∷ m) s = (true, forget key r s)

  -- The first key is the one that the map's iterator happens to give.
  unfoldable pub evict_any_once : Shard K V → Bool × Shard K V
  evict_any_once s = evict_first s.map s

  -- Without progress the count of cold residents was wrong, or no queue has a resident.
  unfoldable pub after_eviction : Bool → Shard K V → Bool × Shard K V
  after_eviction progressed after =
      if progressed
      then (true, after)
      else if ltb 0 after.cold_len
      then (true, record after { cold_len = 0 })
      else evict_any_once after

  -- A round of the first loop of `evict_to_capacity`, and whether there is another.
  unfoldable pub shrink : Option (AdmissionCandidate K) → Shard K V → Option (Bool × Shard K V)
  shrink candidate s = if leb (length s.map) s.capacity then some (false, s) else do
    (progressed, after) ←
        if ltb 0 s.cold_len then evict_cold_once candidate s else evict_hot_once candidate s
    some (after_eviction progressed after)

  -- A round of the second loop.
  unfoldable pub cool : Option (AdmissionCandidate K) → Shard K V → Option (Bool × Shard K V)
  cool candidate s =
      if ltb s.hot_capacity s.hot_len && ltb 0 s.hot_len
      then (do
        (progressed, after) ← evict_hot_once candidate s
        some (if progressed then (true, after) else (false, record after { hot_len = 0 })))
      else some (false, s)

  -- Rounds until one is the last; `none` is a panic, or that the fuel ran out.
  unfoldable pub rounds :
      (Shard K V → Option (Bool × Shard K V)) → ℕ → Shard K V → Option (Shard K V)
  rounds round zero s = none
  rounds round (suc fuel) s = do
    (more, after) ← round s
    elim more [ true ↦ rounds round fuel after | false ↦ some after ]

  -- The third loop, over the ghosts.
  unfoldable pub trim_ghosts : List ℕ → Shard K V → Shard K V
  trim_ghosts [] s = record s { ghost = [] }
  trim_ghosts (hash ∷ ghosts) s =
      let rest = trim_ghosts ghosts (record s { ghost_set = without hash s.ghost_set }) in
      if ltb s.ghost_capacity (length (hash ∷ ghosts))
      then rest
      else record s { ghost = hash ∷ ghosts }

  unfoldable pub evict_to_capacity : Option (AdmissionCandidate K) → Shard K V → Option (Shard K V)
  evict_to_capacity candidate s = do
    shrunk ← rounds (shrink candidate) (weight s.map + 2) s
    cooled ← rounds (cool candidate) (weight shrunk.map + 2) shrunk
    some (trim_ghosts cooled.ghost cooled)
