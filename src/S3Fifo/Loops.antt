-- ===== src/S3Fifo/Loops.antt =====
-- The loops of `evict_to_capacity` end and do what they are for (crates/mfs-core/src/s3fifo.rs).
use memory_first_store.Prelude.{
  ℕ, ◌+◌, ◌≤◌, ◌≡◌, refl, Option, some, List, [], ◌∷◌, arith, length, ltb, Bool-cases, inl, inr,
}
use memory_first_store.Maps.{Keyed}
use memory_first_store.S3Fifo.{AdmissionCandidate, Shard}
use memory_first_store.S3Fifo.Evict.{weight, shrink, cool, trim_ghosts, without, evict_to_capacity}
use memory_first_store.S3Fifo.Weight.{
  SameSetup-refl, Follows, Follows-refl, Follows-trans, IsSubmap-refl,
}
use memory_first_store.S3Fifo.Rounds.{
  pending_lt, rounds_total, FitsShard, Follows-FitsShard, shrink_measure, shrink_round, cool_round,
}

module _ {K V : Type 0} ⦃e : Keyed K⦄ where
  unghosted :
      (s : Shard K V) (ghost ghost_set : List ℕ)
      → Follows s (record s { ghost = ghost; ghost_set = ghost_set })
  unghosted s ghost ghost_set = record {
    setup = SameSetup-refl s;
    size = omega arith;
    values = IsSubmap-refl s.map;
    cold_len = omega arith;
  }

  trim_ghosts_lem :
      (ghosts : List ℕ) (s : Shard K V)
      → Follows s (trim_ghosts ghosts s)
        × ((trim_ghosts ghosts s).hot_len ≡ s.hot_len)
        × (length (trim_ghosts ghosts s).ghost ≤ s.ghost_capacity)
  unfolding trim_ghosts
  trim_ghosts_lem [] s = (unghosted s [] s.ghost_set, refl, omega arith)
  trim_ghosts_lem (hash ∷ ghosts) s =
      let shorter = record s { ghost_set = without hash s.ghost_set } in
      elim (Bool-cases (ltb s.ghost_capacity (length (hash ∷ ghosts)))) [
        | inl over ↦
            let (follows, hot_len, ghost) = trim_ghosts_lem ghosts shorter in
            rw over (
              Follows-trans s shorter (trim_ghosts ghosts shorter)
                  (unghosted s s.ghost shorter.ghost_set) follows,
              hot_len,
              ghost,
            )
        | inr enough ↦
            rw enough (unghosted s (hash ∷ ghosts) s.ghost_set, refl, ground (arith, enough))
      ]

  pub evict_to_capacity_total :
      (candidate : Option (AdmissionCandidate K)) (s : Shard K V)
      → FitsShard s
      → (s' : Shard K V) × (evict_to_capacity candidate s ≡ some s')
        × (length s'.map ≤ s.capacity)
        × (s'.hot_len ≤ s.hot_capacity)
        × (length s'.ghost ≤ s.ghost_capacity)
        × Follows s s'
  unfolding evict_to_capacity
  evict_to_capacity_total candidate s fits =
      let (shrunk, e1, f1, small) =
        rounds_total (shrink candidate) (λ x. Follows s x) (λ x. length x.map ≤ x.capacity)
          shrink_measure
          (λ x f.
            let (more, s', e, g, less, done) =
              shrink_round candidate x (Follows-FitsShard s x f fits) in
            (more, s', e, Follows-trans s x s' f g, less, done))
          (weight s.map + 2) s (Follows-refl s) (pending_lt (weight s.map) s.cold_len) in
      let (cooled, e2, f2, cold) =
        rounds_total (cool candidate) (λ x. Follows shrunk x) (λ x. x.hot_len ≤ x.hot_capacity)
          (λ x. weight x.map)
          (λ x f.
            let (more, s', e, g, less, done) =
              cool_round candidate x
                (Follows-FitsShard shrunk x f (Follows-FitsShard s shrunk f1 fits)) in
            (more, s', e, Follows-trans shrunk x s' f g, less, done))
          (weight shrunk.map + 2) shrunk (Follows-refl shrunk) (omega arith) in
      let f = Follows-trans s shrunk cooled f1 f2 in
      let (ghostless, hot_len, ghosts) = trim_ghosts_lem cooled.ghost cooled in
      (
        trim_ghosts cooled.ghost cooled,
        rw (e1, e2),
        omega (arith, ghostless.size, f2.size, small, f1.setup.0),
        rw hot_len (omega (arith, cold, f.setup.1)),
        omega (arith, ghosts, f.setup.2),
        Follows-trans s cooled (trim_ghosts cooled.ghost cooled) f ghostless,
      )
