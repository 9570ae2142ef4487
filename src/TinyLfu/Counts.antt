-- ===== src/TinyLfu/Counts.antt =====
-- What an increment does to the estimates (crates/mfs-core/src/tiny_lfu.rs).
use mathlib.Core.Path.{subst}
use memory_first_store.Prelude.Fail.Panic.{◌>>=◌}
use memory_first_store.Prelude.{
  List, [], ◌∷◌, length, ◌==◌, if◌then◌else◌, Bool-cases, inl, inr, ℕ, ◌+◌, ◌*◌, ◌%◌, ◌^◌, ◌≤◌, ◌<◌,
  ◌≡◌, ◌∙◌, refl, ap, Bool, true, false, Option, none, some, min, arith, lt→leb,
}
use memory_first_store.TinyLfu.{
  TinyLfuCounters, u8_counters, packed_counters, dual_counters, TinyLfu, u8_max, depth,
}
use memory_first_store.TinyLfu.Values.{
  HasCounters, layout, counter_max, GoesUp, GoesDown, age_counters-value,
}
use memory_first_store.TinyLfu.Sketch.{
  index, estimate, record_sample, age, count, admit, admit_door, increment,
}
use memory_first_store.TinyLfu.Bounds.{
  Fits, bump_rows, row_value, least_value, load_row, estimate_le,
}

layout-le : (cs : TinyLfuCounters) → counter_max cs ≤ 255
layout-le (u8_counters counters) = omega arith
layout-le (packed_counters bytes) = omega arith
layout-le (dual_counters d) = omega arith

min-GoesUp :
    (l : Bool × ℕ) (a b a' b' : ℕ) → GoesUp l a a' → GoesUp l b b' → GoesUp l (min a b) (min a' b')
min-GoesUp (true, most) a b a' b' ha hb = omega (arith, ha, hb)
min-GoesUp (false, most) a b a' b' ha hb = omega (arith, ha, hb)

capped-GoesUp :
    (l : Bool × ℕ) (a a' : ℕ) → l.1 ≤ 255 → GoesUp l a a' → GoesUp l (min 255 a) (min 255 a')
capped-GoesUp (true, most) a a' small ha = omega (arith, ha, small)
capped-GoesUp (false, most) a a' small ha = omega (arith, ha)

min-GoesDown :
    (l : Bool × ℕ) (a b a' b' : ℕ)
    → GoesDown l a a'
    → GoesDown l b b'
    → GoesDown l (min a b) (min a' b')
min-GoesDown (true, most) a b a' b' ha hb = omega (arith, ha, hb)
min-GoesDown (false, most) a b a' b' ha hb = omega (arith, ha, hb)

capped-GoesDown :
    (l : Bool × ℕ) (a a' : ℕ)
    → l.1 ≤ 255
    → a ≤ l.1
    → GoesDown l a a'
    → GoesDown l (min 255 a) (min 255 a')
capped-GoesDown (true, most) a a' small within ha = omega (arith, ha, small)
capped-GoesDown (false, most) a a' small within ha = omega (arith, ha)

least-le :
    (t t' : TinyLfu) (hash : ℕ)
    → ((row : ℕ) → row_value t hash row ≤ row_value t' hash row)
    → least_value t hash ≤ least_value t' hash
least-le t t' hash h =
    let a : min u8_max (row_value t hash 0) ≤ min u8_max (row_value t' hash 0) =
      omega (arith, h 0) in
    let b : min (min u8_max (row_value t hash 0)) (row_value t hash 1)
        ≤ min (min u8_max (row_value t' hash 0)) (row_value t' hash 1) =
      omega (arith, a, h 1) in
    omega (arith, b, h 2, h 3)

-- Counting a hash: its estimate goes up, and no estimate goes down.
pub count-GoesUp :
    (t : TinyLfu) (hash : ℕ)
    → Fits t
    → (cs' : TinyLfuCounters) × (count true t hash ≡ some (record t { counters = cs' }))
      × HasCounters (depth * t.width) cs'
      × (layout cs' ≡ layout t.counters)
      × GoesUp
          (layout t.counters)
          (least_value t hash)
          (least_value (record t { counters = cs' }) hash)
      × ((other : ℕ) → least_value t other ≤ least_value (record t { counters = cs' }) other)
unfolding count index
count-GoesUp t hash fits =
    let (cs', e, has, same, grow, ups, _) = bump_rows 4 0 t hash fits (omega arith) in
    let t' : TinyLfu = record t { counters = cs' } in
    let l = layout t.counters in
    let up : (r : ℕ) → r < 4 → GoesUp l (row_value t hash r) (row_value t' hash r) =
      λ r h. ups r (omega arith) (omega (arith, h)) in
    let up0 = capped-GoesUp l _ _ (layout-le t.counters) (up 0 (omega arith)) in
    let up1 = min-GoesUp l _ _ _ _ up0 (up 1 (omega arith)) in
    let up2 = min-GoesUp l _ _ _ _ up1 (up 2 (omega arith)) in
    (
      cs',
      e,
      has,
      same,
      min-GoesUp l _ _ _ _ up2 (up 3 (omega arith)),
      λ other. least-le t t' other (λ r. grow (index t other r)),
    )

-- Aging: the estimate of every hash halves, or with two sketches does not grow.
pub age-GoesDown :
    (t : TinyLfu)
    → Fits t
    → Fits (age t)
      × (layout (age t).counters ≡ layout t.counters)
      × ((hash : ℕ) → GoesDown (layout t.counters) (least_value t hash) (least_value (age t) hash))
unfolding age index
age-GoesDown t fits =
    let (has, same, downs) = age_counters-value (depth * t.width) t.counters fits.counters in
    let l = layout t.counters in
    (
      record { wide = fits.wide; mask = fits.mask; counters = has },
      same,
      λ hash.
          let (_, within) = load_row t hash fits 0 (omega arith) in
          let down : (r : ℕ) → GoesDown l (row_value t hash r) (row_value (age t) hash r) =
            λ r. downs (index t hash r) in
          let d0 = capped-GoesDown l _ _ (layout-le t.counters) within (down 0) in
          let d1 = min-GoesDown l _ _ _ _ d0 (down 1) in
          let d2 = min-GoesDown l _ _ _ _ d1 (down 2) in min-GoesDown l _ _ _ _ d2 (down 3),
    )

admit-none : (t : TinyLfu) (hash : ℕ) → t.doorkeeper ≡ none → admit t hash ≡ some (true, t)
unfolding admit admit_door
admit-none t hash e = ap (λ d. admit_door d t hash) e

record_sample-before :
    (t : TinyLfu)
    → t.samples + 1 < t.sample_size
    → t.sample_size < 2 ^ 64
    → record_sample t ≡ record t { samples = t.samples + 1 }
unfolding record_sample
record_sample-before t before small =
    let wrapped : (t.samples + 1) % 2 ^ 64 ≡ t.samples + 1 = omega (arith, before, small) in
    rw (wrapped, lt→leb t.sample_size (t.samples + 1) before)

-- One increment of a sketch without a doorkeeper, before the next aging.
increment_step :
    (t : TinyLfu) (hash : ℕ)
    → Fits t
    → t.doorkeeper ≡ none
    → t.samples + 1 < t.sample_size
    → t.sample_size < 2 ^ 64
    → (cs' : TinyLfuCounters) × let t' : TinyLfu = record t {
      counters = cs';
      samples = t.samples + 1;
    } in
        (increment t hash ≡ some (t', least_value t' hash))
        × HasCounters (depth * t.width) cs'
        × (layout cs' ≡ layout t.counters)
        × GoesUp (layout t.counters) (least_value t hash) (least_value t' hash)
        × ((other : ℕ) → least_value t other ≤ least_value t' other)
unfolding increment index
increment_step t hash fits no_door before small =
    let (cs', counted, has, same, up, grow) = count-GoesUp t hash fits in
    let t' : TinyLfu = record t { counters = cs'; samples = t.samples + 1 } in
    let fits' : Fits t' = record { wide = fits.wide; mask = fits.mask; counters = has } in
    let (read, _) = estimate_le t' hash fits' in
    (
      cs',
      (
        rw (
          admit-none t hash no_door,
          counted,
          record_sample-before (record t { counters = cs' }) before small,
          read,
        ),
        has,
        same,
        up,
        grow,
      ),
    )

-- Increments of some hashes in turn.
unfoldable pub increment_all : TinyLfu → List ℕ → Option TinyLfu
increment_all t [] = some t
increment_all t (hash ∷ hashes) = do (t', e) ← increment t hash; increment_all t' hashes

abbrev pub occurrences : ℕ → List ℕ → ℕ
occurrences hash [] = 0
occurrences hash (x ∷ xs) = (if x == hash then 1 else 0) + occurrences hash xs

GoesUp-exact :
    (l : Bool × ℕ) (before after : ℕ)
    → l.0 ≡ true
    → GoesUp l before after
    → min (before + 1) l.1 ≤ after
GoesUp-exact (true, most) before after e up = omega (arith, up)
GoesUp-exact (false, most) before after e up = cc

-- In a sketch of 8-bit or 4-bit counters without a doorkeeper, increments of any hashes before the
-- next aging succeed, and the estimate of every hash counts all of its increments: it is no less
-- than what it was before and their number, up to the greatest value of the counters.
pub increment_all-counts :
    (t : TinyLfu) (hashes : List ℕ)
    → Fits t
    → t.doorkeeper ≡ none
    → (layout t.counters).0 ≡ true
    → t.samples + length hashes < t.sample_size
    → t.sample_size < 2 ^ 64
    → (t' : TinyLfu) × (increment_all t hashes ≡ some t')
      × ((hash : ℕ)
          → (estimate t' hash ≡ some (least_value t' hash))
            × (min (least_value t hash + occurrences hash hashes) (counter_max t.counters)
                ≤ least_value t' hash))
unfolding increment_all
increment_all-counts t [] fits no_door exact before small =
    (t, refl, λ hash. let (read, within) = estimate_le t hash fits in (read, omega arith))
increment_all-counts t (x ∷ xs) fits no_door exact before small =
    let (cs', (step, has, same, up, grow)) =
      increment_step t x fits no_door (omega (arith, before)) small in
    let t1 : TinyLfu = record t { counters = cs'; samples = t.samples + 1 } in
    let fits1 : Fits t1 = record { wide = fits.wide; mask = fits.mask; counters = has } in
    let (t', rest, counts) =
      increment_all-counts t1 xs fits1 no_door (ap (λ l. l.0) same ∙ exact) (omega (arith, before))
        small in
    let exactly = GoesUp-exact (layout t.counters) (least_value t x) (least_value t1 x) exact up in
    (
      t',
      rw step rest,
      λ hash.
          let (read, more) = counts hash in
          let most : counter_max cs' ≡ counter_max t.counters = ap (λ l. l.1) same in
          (
            read,
            elim (Bool-cases (x == hash)) [
              | inl here ↦
                  let at : x ≡ hash = ground (arith, here) in
                  let one =
                    subst
                      (λ h. min (least_value t h + 1) (counter_max t.counters) ≤ least_value t1 h)
                      at exactly in
                  rw here (omega (arith, more, most, one))
              | inr other ↦ rw other (omega (arith, more, most, grow hash))
            ],
          ),
    )
