-- ===== src/S3Fifo/Weight.antt =====
-- What an eviction does to the map of a shard (crates/mfs-core/src/s3fifo.rs): it shrinks, and holds
-- no value that it did not hold.
use memory_first_store.Prelude.{
  ◌+◌, ◌≤◌, ◌<◌, ◌≡◌, ◌∙◌, refl, sym, ap, some, List, [], ◌∷◌, arith, length, Bool-cases, inl, inr,
}
use memory_first_store.Maps.{Keyed, lookup, remove, insert, lookup-remove, lookup-insert}
use memory_first_store.S3Fifo.{Resident, Shard}
use memory_first_store.S3Fifo.Evict.{resident_weight, weight}

module _ {K V : Type 0} ⦃e : Keyed K⦄ where
  weight-remove : (k : K) (m : List (K × Resident V)) → weight (remove k m) ≤ weight m
  unfolding remove
  weight-remove k [] = omega arith
  weight-remove k ((j, r) ∷ m) = elim (Bool-cases (e.same j k)) [
    | inl here ↦ rw here (omega (arith, weight-remove k m))
    | inr other ↦ rw other (omega (arith, weight-remove k m))
  ]

  pub length-remove : (k : K) (m : List (K × Resident V)) → length (remove k m) ≤ length m
  unfolding remove
  length-remove k [] = omega arith
  length-remove k ((j, r) ∷ m) = elim (Bool-cases (e.same j k)) [
    | inl here ↦ rw here (omega (arith, length-remove k m))
    | inr other ↦ rw other (omega (arith, length-remove k m))
  ]

  -- Taking out what is there.
  pub remove_found :
      (k : K) (m : List (K × Resident V)) {r : Resident V}
      → lookup k m ≡ some r
      → (weight (remove k m) + resident_weight r ≤ weight m) × (length (remove k m) < length m)
  unfolding remove lookup
  remove_found k [] found = cc
  remove_found k ((j, x) ∷ m) {r} found = elim (Bool-cases (e.same j k)) [
    | inl here ↦
        let at : x ≡ r = ground (arith, found, here) in
        let same : resident_weight x ≡ resident_weight r = ap resident_weight at in
        rw here (omega (arith, weight-remove k m, same), omega (arith, length-remove k m))
    | inr other ↦
        let (w, l) = remove_found k m (rw other at found) in
        rw other (omega (arith, w), omega (arith, l))
  ]

  -- Every value of the first map is the one of the second map for its key.
  abbrev pub IsSubmap : List (K × Resident V) → List (K × Resident V) → Type 0
  IsSubmap m n =
      (k : K) (r : Resident V)
      → lookup k m ≡ some r
      → (x : Resident V) × (lookup k n ≡ some x) × (x.value ≡ r.value)

  pub IsSubmap-refl : (m : List (K × Resident V)) → IsSubmap m m
  IsSubmap-refl m k r found = (r, found, refl)

  pub IsSubmap-trans : (l m n : List (K × Resident V)) → IsSubmap l m → IsSubmap m n → IsSubmap l n
  IsSubmap-trans l m n f g k r found =
      let (x, at, same) = f k r found in
      let (y, there, equal) = g k x at in (y, there, equal ∙ same)

  pub remove-IsSubmap : (k : K) (m : List (K × Resident V)) → IsSubmap (remove k m) m
  remove-IsSubmap k m j r found = elim (Bool-cases (e.same k j)) [
    | inl here ↦ cc (rw (lookup-remove k j m, here) at found)
    | inr other ↦ (r, rw (lookup-remove k j m, other) at found, refl)
  ]

  -- Putting back a resident with its value.
  pub insert-IsSubmap :
      (k : K) (m : List (K × Resident V)) (r r' : Resident V)
      → lookup k m ≡ some r
      → r'.value ≡ r.value
      → IsSubmap (insert k r' m) m
  insert-IsSubmap k m r r' there same j x found = elim (Bool-cases (e.same k j)) [
    | inl here ↦
        let at : k ≡ j = (e.same_iff k j).0 here in
        let new : r' ≡ x = ground (arith, rw (lookup-insert k j r' m, here) at found) in
        (r, rw (← at) there, rw (← new) (sym same))
    | inr other ↦ (x, rw (lookup-insert k j r' m, other) at found, refl)
  ]

  pub insert_found :
      (k : K) (m : List (K × Resident V)) (r r' : Resident V)
      → lookup k m ≡ some r
      → resident_weight r' < resident_weight r
      → (weight (insert k r' m) < weight m) × (length (insert k r' m) ≤ length m)
  unfolding insert
  insert_found k m r r' there lighter =
      let (w, l) = remove_found k m there in (omega (arith, w, lighter), omega (arith, l))

-- The parts of a shard that evictions leave as they are.
abbrev pub SameSetup : {K V : Type 0} → Shard K V → Shard K V → Type 0
SameSetup s s' =
    (s'.capacity ≡ s.capacity)
    × (s'.hot_capacity ≡ s.hot_capacity)
    × (s'.ghost_capacity ≡ s.ghost_capacity)
    × (s'.frequency ≡ s.frequency)
    × (s'.admission ≡ s.admission)

-- One map is what evictions left of the other, and no longer.
pub record Follows {K V : Type 0} ⦃e : Keyed K⦄ (s s' : Shard K V) : Type 0 where
  pub setup : SameSetup s s'
  pub size : length s'.map ≤ length s.map
  pub values : IsSubmap s'.map s.map
  pub cold_len : s'.cold_len ≤ s.cold_len

-- A step of an eviction.
pub record Shrinks {K V : Type 0} ⦃e : Keyed K⦄ (s s' : Shard K V) : Type 0 where
  pub follows : Follows s s'
  pub lighter : weight s'.map < weight s.map

module _ {K V : Type 0} ⦃e : Keyed K⦄ where
  pub SameSetup-refl : (s : Shard K V) → SameSetup s s
  SameSetup-refl s = (refl, refl, refl, refl, refl)

  pub Follows-refl : (s : Shard K V) → Follows s s
  Follows-refl s = record {
    setup = SameSetup-refl s;
    size = omega arith;
    values = IsSubmap-refl s.map;
    cold_len = omega arith;
  }

  pub Follows-trans : (a b c : Shard K V) → Follows a b → Follows b c → Follows a c
  Follows-trans a b c f g = record {
    setup = (
      g.setup.0 ∙ f.setup.0,
      g.setup.1 ∙ f.setup.1,
      g.setup.2 ∙ f.setup.2,
      g.setup.3 ∙ f.setup.3,
      g.setup.4 ∙ f.setup.4,
    );
    size = omega (arith, f.size, g.size);
    values = IsSubmap-trans c.map b.map a.map g.values f.values;
    cold_len = omega (arith, f.cold_len, g.cold_len);
  }

  -- A step that takes a resident out, and one that puts it back lighter.
  pub remove-Shrinks :
      (key : K) (r : Resident V) (s s' : Shard K V)
      → lookup key s.map ≡ some r
      → SameSetup s s'
      → s'.map ≡ remove key s.map
      → s'.cold_len ≤ s.cold_len
      → Shrinks s s'
  remove-Shrinks key r s s' found setup left cold =
      let (w, l) = remove_found key s.map found in
      record {
        follows = record {
          setup = setup;
          size = rw left (omega (arith, l));
          values = rw left (remove-IsSubmap key s.map);
          cold_len = cold;
        };
        lighter = rw left (omega (arith, w));
      }

  pub insert-Shrinks :
      (key : K) (r r' : Resident V) (s s' : Shard K V)
      → lookup key s.map ≡ some r
      → SameSetup s s'
      → s'.map ≡ insert key r' s.map
      → s'.cold_len ≤ s.cold_len
      → r'.value ≡ r.value
      → resident_weight r' < resident_weight r
      → Shrinks s s'
  insert-Shrinks key r r' s s' found setup left cold same less =
      let (w, l) = insert_found key s.map r r' found less in
      record {
        follows = record {
          setup = setup;
          size = rw left l;
          values = rw left (insert-IsSubmap key s.map r r' found same);
          cold_len = cold;
        };
        lighter = rw left w;
      }
