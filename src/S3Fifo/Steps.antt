-- ===== src/S3Fifo/Steps.antt =====
-- One eviction from a shard (crates/mfs-core/src/s3fifo.rs): it does not panic, and it makes the
-- shard lighter or finds its queue empty.
use memory_first_store.Prelude.{
  ℕ, ◌-◌, ◌<◌, ◌≡◌, refl, Bool, true, false, ◌||◌, Option, none, some, List, [], ◌∷◌, arith, leb,
  ◌==◌, Bool-cases, Option-cases, inl, inr, ◌⊎◌,
}
use memory_first_store.Maps.{Keyed, same_refl, lookup, remove}
use memory_first_store.TinyLfu.{TinyLfu}
use memory_first_store.TinyLfu.Bounds.{estimate_le, least_value}
use memory_first_store.S3Fifo.{
  ResidentState, in_cold, in_hot, Resident, AdmissionCandidate, FrequencySketch, Shard,
  max_frequency,
}
use memory_first_store.S3Fifo.Frequency.{frequency_of}
use memory_first_store.S3Fifo.Evict.{
  resident_weight, forget, unqueue, reject_hotter, reject_candidate_if_victim_hotter,
  frequency_or_zero, promote, evict_cold, evict_or_reject, visit_cold, evict_cold_from, requeue,
  visit_hot, evict_hot_from, evict_first, evict_any_once,
}
use memory_first_store.S3Fifo.Weight.{Shrinks, SameSetup-refl, remove-Shrinks, insert-Shrinks}
use memory_first_store.S3Fifo.Fits.{FitsFrequencies, FitsAdmission, least_rows}

state-cases : {V : Type 0} (r : Resident V) → (r.state ≡ in_cold) ⊎ (r.state ≡ in_hot)
state-cases r = by_state r.state
  where
    by_state : (state : ResidentState) → (state ≡ in_cold) ⊎ (state ≡ in_hot)
    by_state in_cold = inl refl
    by_state in_hot = inr refl

module _ {K V : Type 0} ⦃e : Keyed K⦄ where
  frequency_total :
      (o : Option FrequencySketch) (s : Shard K V) (hash : ℕ)
      → s.frequency ≡ o
      → FitsFrequencies o
      → (x : ℕ) × (frequency_or_zero s hash ≡ some x)
  unfolding frequency_of
  frequency_total none s hash at fits = (0, rw at)
  frequency_total (some f) s hash at fits =
      let (x, read) = least_rows 4 0 max_frequency f hash fits (omega arith) in (x, rw at read)

  lookup_head :
      (key : K) (r : Resident V) (m : List (K × Resident V)) → lookup key ((key, r) ∷ m) ≡ some r
  unfolding lookup
  lookup_head key r m = rw (same_refl key)

  forget-Shrinks :
      (key : K) (r : Resident V) (s : Shard K V)
      → lookup key s.map ≡ some r
      → Shrinks s (forget key r s) × Shrinks s (unqueue key r (forget key r s))
  forget-Shrinks key r s found = by_state r.state refl
    where
      by_state :
          (state : ResidentState)
          → r.state ≡ state
          → Shrinks s (forget key r s) × Shrinks s (unqueue key r (forget key r s))
      by_state in_cold at = rw at (
        remove-Shrinks key r s _ found (SameSetup-refl s) refl (omega arith),
        remove-Shrinks key r s _ found (SameSetup-refl s) refl (omega arith),
      )
      by_state in_hot at = rw at (
        remove-Shrinks key r s _ found (SameSetup-refl s) refl (omega arith),
        remove-Shrinks key r s _ found (SameSetup-refl s) refl (omega arith),
      )

  -- What a step gives: a lighter shard, or an answer that nothing was done.
  abbrev pub Steps : Option (Bool × Shard K V) → Shard K V → Shard K V → Type 0
  Steps result s idle =
      (progressed : Bool) × (s' : Shard K V) × (result ≡ some (progressed, s'))
      × (progressed ≡ true → Shrinks s s')
      × (progressed ≡ false → s' ≡ idle)

  reject_hotter-Steps :
      (o : Option TinyLfu) (c : AdmissionCandidate K) (hash : ℕ) (s : Shard K V)
      → FitsAdmission o
      → Steps (reject_hotter o c hash s) s s
  unfolding reject_hotter
  reject_hotter-Steps none c hash s fits = (false, s, refl, λ x. cc, λ x. refl)
  reject_hotter-Steps (some t) c hash s fits =
      let (read, _) = estimate_le t hash fits in
      elim (Bool-cases (leb (least_value t hash) c.frequency)) [
        | inl cooler ↦ (false, s, rw (read, cooler), λ x. cc, λ x. refl)
        | inr hotter ↦ elim (Option-cases (lookup c.key s.map)) [
          | inl missing ↦ (false, s, rw (read, hotter, missing), λ x. cc, λ x. refl)
          | inr (r, found) ↦ (
            true,
            unqueue c.key r (forget c.key r s),
            rw (read, hotter, found),
            λ x. (forget-Shrinks c.key r s found).1,
            λ x. cc,
          )
        ]
      ]

  reject-Steps :
      (candidate : Option (AdmissionCandidate K)) (hash : ℕ) (s : Shard K V)
      → FitsAdmission s.admission
      → Steps (reject_candidate_if_victim_hotter candidate hash s) s s
  unfolding reject_candidate_if_victim_hotter
  reject-Steps none hash s fits = (false, s, refl, λ x. cc, λ x. refl)
  reject-Steps (some c) hash s fits = elim (Bool-cases (c.hash == hash)) [
    | inl same ↦ (false, s, rw same, λ x. cc, λ x. refl)
    | inr other ↦ rw other (reject_hotter-Steps s.admission c hash s fits)
  ]

  evict_or_reject-Shrinks :
      (candidate : Option (AdmissionCandidate K)) (hash : ℕ) (evicted s : Shard K V)
      → FitsAdmission s.admission
      → Shrinks s evicted
      → (s' : Shard K V) × (evict_or_reject candidate hash evicted s ≡ some (true, s'))
        × Shrinks s s'
  evict_or_reject-Shrinks candidate hash evicted s fits less =
      let (rejected, after, e, taken, _) = reject-Steps candidate hash s fits in
      elim (Bool-cases rejected) [
        | inl goes ↦ (after, rw (e, goes), taken goes)
        | inr stays ↦ (evicted, rw (e, stays), less)
      ]

  visit_cold-Shrinks :
      (candidate : Option (AdmissionCandidate K)) (key : K) (r : Resident V) (s : Shard K V)
      → lookup key s.map ≡ some r
      → r.state ≡ in_cold
      → FitsFrequencies s.frequency
      → FitsAdmission s.admission
      → (s' : Shard K V) × (visit_cold candidate key r s ≡ some (true, s')) × Shrinks s s'
  unfolding visit_cold
  visit_cold-Shrinks candidate key r s found cold fits admits =
      let (frequency, read) = frequency_total s.frequency s r.hash refl fits in
      let used =
        leb s.small_to_main_threshold r.referenced || leb s.small_to_main_threshold frequency in
      let moved : Resident V = record r { state = in_hot; referenced = r.referenced - 1 } in
      let less : resident_weight moved < resident_weight r = rw cold (omega arith) in
      elim (Bool-cases used) [
        | inl up ↦ (
          promote key r s,
          rw (read, up),
          insert-Shrinks key r moved s (promote key r s) found (SameSetup-refl s) refl (omega arith)
              refl less,
        )
        | inr out ↦
            let (s', e, shrinks) =
              evict_or_reject-Shrinks candidate r.hash (evict_cold key r.hash s) s admits (
                remove-Shrinks key r s (evict_cold key r.hash s) found (SameSetup-refl s) refl
                  (omega arith)) in
            (s', rw (read, out, visit_cold) e, shrinks)
      ]

  visit_hot-Shrinks :
      (candidate : Option (AdmissionCandidate K)) (key : K) (r : Resident V) (s : Shard K V)
      → lookup key s.map ≡ some r
      → FitsAdmission s.admission
      → (s' : Shard K V) × (visit_hot candidate key r s ≡ some (true, s')) × Shrinks s s'
  unfolding visit_hot
  visit_hot-Shrinks candidate key r s found admits =
      let evicted : Shard K V = record s { map = remove key s.map; hot_len = s.hot_len - 1 } in
      let older : Resident V = record r { referenced = r.referenced - 1 } in
      elim (Bool-cases (r.referenced == 0)) [
        | inr used ↦
            let less : resident_weight older < resident_weight r =
              (let above : 0 < r.referenced = ground (arith, used) in omega arith) in
            (
              requeue key r s,
              rw used,
              insert-Shrinks key r older s (requeue key r s) found (SameSetup-refl s) refl
                  (omega arith) refl less,
            )
        | inl unused ↦
            let (s', e, shrinks) =
              evict_or_reject-Shrinks candidate r.hash evicted s admits
                (remove-Shrinks key r s evicted found (SameSetup-refl s) refl (omega arith)) in
            (s', rw unused e, shrinks)
      ]

  -- The queues do not count.
  Shrinks-queues :
      (s s' : Shard K V) (cold hot : List K)
      → Shrinks (record s { cold = cold; hot = hot }) s'
      → Shrinks s s'
  Shrinks-queues s s' cold hot h = record {
    follows = record {
      setup = h.follows.setup;
      size = h.follows.size;
      values = h.follows.values;
      cold_len = h.follows.cold_len;
    };
    lighter = h.lighter;
  }

  pub evict_cold_from-Steps :
      (candidate : Option (AdmissionCandidate K)) (queue : List K) (s : Shard K V)
      → FitsFrequencies s.frequency
      → FitsAdmission s.admission
      → Steps (evict_cold_from candidate queue s) s (record s { cold = [] })
  unfolding evict_cold_from
  evict_cold_from-Steps candidate [] s fits admits =
      (false, record s { cold = [] }, refl, λ x. cc, λ x. refl)
  evict_cold_from-Steps candidate (key ∷ queue) s fits admits =
      let again = evict_cold_from-Steps candidate queue s fits admits in
      elim (Option-cases (lookup key s.map)) [
        | inl missing ↦ rw (missing, evict_cold_from) again
        | inr (r, found) ↦ elim (state-cases r) [
          | inr hot ↦ rw (found, evict_cold_from, hot) again
          | inl cold ↦
              let (s', e, less) =
                visit_cold-Shrinks candidate key r (record s { cold = queue }) found cold fits
                  admits in
              (
                true,
                s',
                rw (found, evict_cold_from, cold) e,
                λ x. Shrinks-queues s s' queue s.hot less,
                λ x. cc,
              )
        ]
      ]

  pub evict_hot_from-Steps :
      (candidate : Option (AdmissionCandidate K)) (queue : List K) (s : Shard K V)
      → FitsAdmission s.admission
      → Steps (evict_hot_from candidate queue s) s (record s { hot = [] })
  unfolding evict_hot_from
  evict_hot_from-Steps candidate [] s admits =
      (false, record s { hot = [] }, refl, λ x. cc, λ x. refl)
  evict_hot_from-Steps candidate (key ∷ queue) s admits =
      let again = evict_hot_from-Steps candidate queue s admits in
      elim (Option-cases (lookup key s.map)) [
        | inl missing ↦ rw (missing, evict_hot_from) again
        | inr (r, found) ↦ elim (state-cases r) [
          | inl cold ↦ rw (found, evict_hot_from, cold) again
          | inr hot ↦
              let (s', e, less) =
                visit_hot-Shrinks candidate key r (record s { hot = queue }) found admits in
              (
                true,
                s',
                rw (found, evict_hot_from, hot) e,
                λ x. Shrinks-queues s s' s.cold queue less,
                λ x. cc,
              )
        ]
      ]

  -- Taking any resident fails only on an empty map.
  pub evict_any_once-Shrinks :
      (s : Shard K V)
      → ((evict_any_once s ≡ (false, s)) × (s.map ≡ []))
        ⊎ ((s' : Shard K V) × (evict_any_once s ≡ (true, s')) × Shrinks s s')
  unfolding evict_any_once
  evict_any_once-Shrinks s = by_map s.map refl
    where
      by_map :
          (m : List (K × Resident V))
          → s.map ≡ m
          → ((evict_first m s ≡ (false, s)) × (m ≡ []))
            ⊎ ((s' : Shard K V) × (evict_first m s ≡ (true, s')) × Shrinks s s')
      by_map [] at = inl (refl, refl)
      by_map ((key, r) ∷ m) at =
          let found : lookup key s.map ≡ some r = rw at (lookup_head key r m) in
          inr (forget key r s, refl, (forget-Shrinks key r s found).0)
