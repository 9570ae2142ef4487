-- ===== src/S3Fifo/Rounds.antt =====
-- The rounds of the loops of `evict_to_capacity` (crates/mfs-core/src/s3fifo.rs).
use mathlib.Core.Path.{subst}
use memory_first_store.Prelude.{
  ℕ, zero, suc, ◌+◌, ◌≤◌, ◌<◌, ◌≡◌, refl, sym, ap, Bool, true, false, ◌&&◌, Option, some, List, [],
  arith, length, leb, ltb, if◌then◌else◌, Bool-cases, inl, inr, leb→le,
}
use memory_first_store.Prelude.Fail.Panic.{◌>>=◌}
use memory_first_store.Maps.{Keyed}
use memory_first_store.S3Fifo.{AdmissionCandidate, Shard}
use memory_first_store.S3Fifo.Evict.{
  weight, evict_cold_from, evict_hot_from, after_eviction, evict_cold_once, evict_hot_once, shrink,
  cool, rounds,
}
use memory_first_store.S3Fifo.Weight.{
  SameSetup-refl, Follows, Follows-refl, Follows-trans, IsSubmap-refl,
}
use memory_first_store.S3Fifo.Steps.{
  evict_cold_from-Steps, evict_hot_from-Steps, evict_any_once-Shrinks, Steps,
}
use memory_first_store.S3Fifo.Fits.{FitsFrequencies, FitsAdmission}

abbrev pub pending : ℕ → ℕ
pending cold_len = if ltb 0 cold_len then 1 else 0

pending-le : (a b : ℕ) → a ≤ b → pending a ≤ pending b
pending-le a b h = ground (arith, h)

pub pending_lt : (w cold_len : ℕ) → w + pending cold_len < w + 2
pending_lt w cold_len = ground arith

module _ {K V : Type 0} ⦃e : Keyed K⦄ where
  -- A loop ends if each round but the last makes a number smaller, and keeps what each round keeps.
  pub rounds_total :
      (round : Shard K V → Option (Bool × Shard K V)) (Good Done : Shard K V → Type 0)
      (measure : Shard K V → ℕ)
      → ((s : Shard K V)
          → Good s
          → (more : Bool) × (s' : Shard K V) × (round s ≡ some (more, s'))
            × Good s'
            × (more ≡ true → measure s' < measure s)
            × (more ≡ false → Done s'))
      → (fuel : ℕ) (s : Shard K V) → Good s
      → measure s < fuel
      → (s' : Shard K V) × (rounds round fuel s ≡ some s') × Good s' × Done s'
  unfolding rounds
  rounds_total round Good Done measure each zero s good enough = absurd (omega arith)
  rounds_total round Good Done measure each (suc fuel) s good enough =
      let (more, after, step, still, less, done) = each s good in
      elim (Bool-cases more) [
        | inr last ↦ (after, rw (step, rounds, last), still, done last)
        | inl again ↦
            let (s', rest, good', done') =
              rounds_total round Good Done measure each fuel after still
                (omega (arith, less again, enough)) in
            (s', rw (step, rounds, again) rest, good', done')
      ]

  -- The sketches of a shard fit.
  abbrev pub FitsShard : Shard K V → Type 0
  FitsShard s = FitsFrequencies s.frequency × FitsAdmission s.admission

  pub Follows-FitsShard : (s s' : Shard K V) → Follows s s' → FitsShard s → FitsShard s'
  Follows-FitsShard s s' f fits =
      (subst FitsFrequencies (sym f.setup.3) fits.0, subst FitsAdmission (sym f.setup.4) fits.1)

  -- The weight, and one for the reset of `cold_len`.
  abbrev pub shrink_measure : Shard K V → ℕ
  shrink_measure s = weight s.map + pending s.cold_len

  -- What a round of the first loop gives.
  abbrev pub ShrinkRound : Option (Bool × Shard K V) → Shard K V → Type 0
  ShrinkRound result s =
      (more : Bool) × (s' : Shard K V) × (result ≡ some (more, s'))
      × Follows s s'
      × (more ≡ true → shrink_measure s' < shrink_measure s)
      × (more ≡ false → length s'.map ≤ s'.capacity)

  idle_round :
      (s idle : Shard K V)
      → idle.map ≡ s.map
      → Follows s idle
      → idle.cold_len ≡ s.cold_len
      → ShrinkRound (some (after_eviction false idle)) s
  unfolding after_eviction
  idle_round s idle same follows count =
      let weighs : weight idle.map ≡ weight s.map = ap weight same in
      elim (Bool-cases (ltb 0 idle.cold_len)) [
        | inl wrong ↦
            let reset : Shard K V = record idle { cold_len = 0 } in
            let before : pending s.cold_len ≡ 1 = ground (arith, wrong, count) in
            (
              true,
              reset,
              rw wrong,
              record {
                setup = follows.setup;
                size = follows.size;
                values = follows.values;
                cold_len = omega arith;
              },
              λ x. omega (arith, weighs, before),
              λ x. cc,
            )
        | inr right ↦ elim (evict_any_once-Shrinks idle) [
          | inl (e, empty) ↦
              (false, idle, rw (right, e), follows, λ x. cc, λ x. rw empty (omega arith))
          | inr (s', e, less) ↦
              let fewer =
                pending-le s'.cold_len s.cold_len (omega (arith, less.follows.cold_len, count)) in
              (
                true,
                s',
                rw (right, e),
                Follows-trans s idle s' follows less.follows,
                λ x. omega (arith, less.lighter, weighs, fewer),
                λ x. cc,
              )
        ]
      ]

  moved_round :
      (result : Option (Bool × Shard K V)) (s idle : Shard K V)
      → Steps result s idle
      → idle.map ≡ s.map
      → Follows s idle
      → idle.cold_len ≡ s.cold_len
      → ShrinkRound (result >>= (λ x. some (after_eviction x.0 x.1))) s
  unfolding after_eviction
  moved_round result s idle (progressed, after, step, less, stays) same follows count =
      elim (Bool-cases progressed) [
        | inl moved ↦
            let lighter = less moved in
            let fewer = pending-le after.cold_len s.cold_len lighter.follows.cold_len in
            (
              true,
              after,
              rw (step, moved),
              lighter.follows,
              λ x. omega (arith, lighter.lighter, fewer),
              λ x. cc,
            )
        | inr stuck ↦
            let (more, s', e, rest, less', done) = idle_round s idle same follows count in
            (more, s', rw (step, stuck, stays stuck) e, rest, less', done)
      ]

  emptied : (s : Shard K V) (cold hot : List K) → Follows s (record s { cold = cold; hot = hot })
  emptied s cold hot = record {
    setup = SameSetup-refl s;
    size = omega arith;
    values = IsSubmap-refl s.map;
    cold_len = omega arith;
  }

  pub shrink_round :
      (candidate : Option (AdmissionCandidate K)) (s : Shard K V)
      → FitsShard s
      → ShrinkRound (shrink candidate s) s
  unfolding shrink evict_cold_once evict_hot_once
  shrink_round candidate s fits = elim (Bool-cases (leb (length s.map) s.capacity)) [
    | inl enough ↦
        (false, s, rw enough, Follows-refl s, λ x. cc, λ x. leb→le (length s.map) s.capacity enough)
    | inr over ↦ elim (Bool-cases (ltb 0 s.cold_len)) [
      | inl cold ↦
          let (more, s', e, follows, less, done) =
            moved_round (evict_cold_from candidate s.cold s) s (record s { cold = [] })
              (evict_cold_from-Steps candidate s.cold s fits.0 fits.1) refl (emptied s [] s.hot)
              refl in
          (more, s', rw (over, cold) e, follows, less, done)
      | inr hot ↦
          let (more, s', e, follows, less, done) =
            moved_round (evict_hot_from candidate s.hot s) s (record s { hot = [] })
              (evict_hot_from-Steps candidate s.hot s fits.1) refl (emptied s s.cold []) refl in
          (more, s', rw (over, hot) e, follows, less, done)
    ]
  ]

  pub cool_round :
      (candidate : Option (AdmissionCandidate K)) (s : Shard K V)
      → FitsShard s
      → (more : Bool) × (s' : Shard K V) × (cool candidate s ≡ some (more, s'))
        × Follows s s'
        × (more ≡ true → weight s'.map < weight s.map)
        × (more ≡ false → s'.hot_len ≤ s'.hot_capacity)
  unfolding cool evict_hot_once
  cool_round candidate s fits =
      elim (Bool-cases (ltb s.hot_capacity s.hot_len && ltb 0 s.hot_len)) [
        | inr enough ↦ (false, s, rw enough, Follows-refl s, λ x. cc, λ x. ground (arith, enough))
        | inl crowded ↦
            let (progressed, after, step, less, idle) =
              evict_hot_from-Steps candidate s.hot s fits.1 in
            elim (Bool-cases progressed) [
              | inl moved ↦ (
                true,
                after,
                rw (crowded, step, moved),
                (less moved).follows,
                λ x. (less moved).lighter,
                λ x. cc,
              )
              | inr stuck ↦
                  let same = idle stuck in
                  (
                    false,
                    record s { hot = []; hot_len = 0 },
                    rw (crowded, step, stuck, same),
                    record {
                      setup = SameSetup-refl s;
                      size = omega arith;
                      values = (Follows-refl s).values;
                      cold_len = omega arith;
                    },
                    λ x. cc,
                    λ x. omega arith,
                  )
            ]
      ]
