-- ===== src/TinyLfu/Valid.antt =====
-- The invariant of `TinyLfu`: what its constructors give and every increment keeps
-- (crates/mfs-core/src/tiny_lfu.rs).
use Prim.Native.Nat.{bit_and, bit_or}
use memory_first_store.Prelude.{
  ℕ, zero, suc, ◌+◌, ◌*◌, ◌/◌, ◌%◌, ◌^◌, ◌≤◌, ◌<◌, ◌≡◌, ◌∙◌, refl, ap, Bool, true, false, ◌&&◌, not,
  List, [], ◌∷◌, map, Option, none, some, arith, leb, length, length-set, set, get_elem?,
  Bool-cases, inl, inr, leb→lt, ◌==◌,
}
use memory_first_store.Bytes.Bits.{bit_and-le}
use memory_first_store.TinyLfu.{TinyLfuCounters, DoorKeeper, TinyLfu, depth}
use memory_first_store.TinyLfu.Values.{HasCounters, layout, counter_max}
use memory_first_store.TinyLfu.Sketch.{
  mix_tiny_lfu_hash, for_rows, door_index, set_bit, check_row, check_and_set, clear, record_sample,
  age, count, admit, age_door_keeper, bit_mask, admit_door, increment, estimate,
}
use memory_first_store.TinyLfu.Bounds.{Fits, least_value, estimate_le}
use memory_first_store.TinyLfu.Counts.{count-GoesUp, age-GoesDown}

-- The mask of a doorkeeper keeps within its bits.
abbrev pub FitsDoor : Option DoorKeeper → Type 0
FitsDoor none = Unit
FitsDoor (some d) = d.mask < length d.bits * 8

-- The samples stay below the number at which the sketch ages.
pub record IsValid (t : TinyLfu) : Type 0 where
  pub fits : Fits t
  pub door : FitsDoor t.doorkeeper
  pub sampled : t.samples < t.sample_size
  pub sample_size : t.sample_size < 2 ^ 64

module _ {A : Type 0} where
  pub get_elem?-below : (xs : List A) (i : ℕ) → i < length xs → (x : A) × (get_elem? xs i ≡ some x)
  get_elem?-below [] i h = absurd (omega arith)
  get_elem?-below (x ∷ xs) zero h = (x, refl)
  get_elem?-below (x ∷ xs) (suc i) h = get_elem?-below xs i (omega arith)

length-cleared : (xs : List ℕ) → length {A = ℕ} (map (λ byte. 0) xs) ≡ length xs
length-cleared [] = refl
length-cleared (x ∷ xs) = ap suc (length-cleared xs)

-- Rows of a doorkeeper: they pass, and leave its size.
check_rows :
    (n row hash : ℕ) (present : Bool) (d : DoorKeeper)
    → FitsDoor (some d)
    → (all_present : Bool) × (d' : DoorKeeper) × (for_rows (check_row hash) n row (present, d)
        ≡ some (all_present, d'))
      × FitsDoor (some d')
unfolding for_rows set_bit door_index
check_rows zero row hash present d fits = (present, d, refl, fits)
check_rows (suc n) row hash present d fits =
    let bit = door_index d hash row in
    let cut = bit_and-le (mix_tiny_lfu_hash hash row) d.mask in
    let (byte, read) = get_elem?-below d.bits (bit / 8) (omega (arith, cut, fits)) in
    let (all_present, d', rest, fits') =
      check_rows n (row + 1) hash (present && not (bit_and byte (bit_mask bit) == 0))
        (record d { bits = set d.bits (bit / 8) (bit_or byte (bit_mask bit)) })
        (rw length-set fits) in
    (all_present, d', rw read rest, fits')

admit_door-FitsDoor :
    (o : Option DoorKeeper) (t : TinyLfu) (hash : ℕ)
    → FitsDoor o
    → (known : Bool) × (door : Option DoorKeeper) × (admit_door o (record t { doorkeeper = o }) hash
        ≡ some (known, record t { doorkeeper = door }))
      × FitsDoor door
unfolding admit_door check_and_set
admit_door-FitsDoor none t hash fits = (true, none, refl, tt)
admit_door-FitsDoor (some d) t hash fits =
    let (known, d', e, fits') = check_rows 4 0 hash true d fits in (known, some d', rw e, fits')

age-FitsDoor : (t : TinyLfu) → FitsDoor t.doorkeeper → FitsDoor (age t).doorkeeper
unfolding age clear
age-FitsDoor t h = by_door t.doorkeeper h
  where
    by_door : (o : Option DoorKeeper) → FitsDoor o → FitsDoor (age_door_keeper o)
    by_door none fits = tt
    by_door (some d) fits = rw length-cleared fits

record_sample-IsValid :
    (t : TinyLfu)
    → Fits t
    → FitsDoor t.doorkeeper
    → t.samples < t.sample_size
    → t.sample_size < 2 ^ 64
    → IsValid (record_sample t) × (layout (record_sample t).counters ≡ layout t.counters)
unfolding record_sample age
record_sample-IsValid t fits door sampled small =
    let after = (t.samples + 1) % 2 ^ 64 in
    let (fits', same, _) = age-GoesDown t fits in
    elim (Bool-cases (leb t.sample_size after)) [
      | inl due ↦ rw due (
        record {
          fits = record { wide = fits'.wide; mask = fits'.mask; counters = fits'.counters };
          door = age-FitsDoor t door;
          sampled = omega (arith, sampled);
          sample_size = small;
        },
        same,
      )
      | inr early ↦
          let below = leb→lt t.sample_size after early in
          rw early (
            record {
              fits = record { wide = fits.wide; mask = fits.mask; counters = fits.counters };
              door = door;
              sampled = omega (arith, below);
              sample_size = small;
            },
            refl,
          )
    ]

count-Fits :
    (known : Bool) (t : TinyLfu) (hash : ℕ)
    → Fits t
    → (cs' : TinyLfuCounters) × (count known t hash ≡ some (record t { counters = cs' }))
      × HasCounters (depth * t.width) cs'
      × (layout cs' ≡ layout t.counters)
unfolding count
count-Fits false t hash fits = (t.counters, refl, fits.counters, refl)
count-Fits true t hash fits =
    let (cs', e, has, same, _, _) = count-GoesUp t hash fits in (cs', e, has, same)

-- An increment of any hash, in every layout, with or without a doorkeeper, and whether or not the
-- sketch ages with it, does not panic, keeps the invariant and the layout, and returns an estimate
-- that a counter can hold: at most 255, or 15 in the packed layouts.
pub increment-IsValid :
    (t : TinyLfu) (hash : ℕ)
    → IsValid t
    → (t' : TinyLfu) × (e : ℕ) × (increment t hash ≡ some (t', e))
      × IsValid t'
      × (e ≤ counter_max t.counters)
      × (layout t'.counters ≡ layout t.counters)
      × (estimate t' hash ≡ some e)
unfolding increment admit
increment-IsValid t hash valid =
    let (known, door, admitted, door_fits) = admit_door-FitsDoor t.doorkeeper t hash valid.door in
    let t1 : TinyLfu = record t { doorkeeper = door } in
    let fits1 : Fits t1 = record {
      wide = valid.fits.wide;
      mask = valid.fits.mask;
      counters = valid.fits.counters;
    } in
    let (cs', counted, has, same) = count-Fits known t1 hash fits1 in
    let t2 : TinyLfu = record t1 { counters = cs' } in
    let fits2 : Fits t2 = record { wide = fits1.wide; mask = fits1.mask; counters = has } in
    let (after, still) = record_sample-IsValid t2 fits2 door_fits valid.sampled valid.sample_size in
    let (read, within) = estimate_le (record_sample t2) hash after.fits in
    let kept : layout (record_sample t2).counters ≡ layout t.counters = still ∙ same in
    (
      record_sample t2,
      least_value (record_sample t2) hash,
      rw (admitted, counted, read),
      after,
      omega (arith, within, ap (λ l. l.1) kept),
      kept,
      read,
    )
