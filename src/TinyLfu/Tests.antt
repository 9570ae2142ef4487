-- ===== src/TinyLfu/Tests.antt =====
-- The theorems on `TinyLfu` at small sketches.
use memory_first_store.Prelude.{
  ℕ, ◌+◌, ◌≤◌, ◌≡◌, refl, true, false, Option, none, some, List, [], ◌∷◌, min, arith,
}
use memory_first_store.TinyLfu.{
  TinyLfuCounterKind, TinyLfu, with_options, power_from, next_power_of_two, new_packed,
  new_counters, door_keeper_with_capacity,
}
use memory_first_store.TinyLfu.Counters.{
  is_even, nibble, bump_nibble, age_byte, saturating_increment, load_packed, increment_packed,
  age_packed, load_dual, increment_dual, age_dual, load, increment_counter, age_counters,
}
use memory_first_store.TinyLfu.Sketch.{
  mix_tiny_lfu_hash, for_rows, door_index, bit_mask, set_bit, check_and_set, clear, index, estimate,
  age, record_sample, admit, admit_door, count, increment,
}
use memory_first_store.TinyLfu.Values.{layout, counter_max, GoesDown}
use memory_first_store.TinyLfu.Bounds.{Fits, least_value}
use memory_first_store.TinyLfu.Counts.{
  increment_all, increment_all-counts, occurrences, age-GoesDown,
}
use memory_first_store.TinyLfu.Valid.{IsValid, increment-IsValid}
use memory_first_store.TinyLfu.Setup.{with_options-IsValid}

unfoldable sketch_program : Unit {0}
unfolding power_from next_power_of_two new_packed new_counters door_keeper_with_capacity
    with_options is_even nibble bump_nibble age_byte saturating_increment load_packed
    increment_packed age_packed load_dual increment_dual age_dual load increment_counter
    age_counters mix_tiny_lfu_hash for_rows door_index bit_mask set_bit check_and_set clear index
    estimate age record_sample admit admit_door count increment increment_all
sketch_program = tt

-- The smallest sketch has 64 counters in a row.
abbrev packed : TinyLfu
packed = with_options 16 1 64 TinyLfuCounterKind.packed_4bit false

with_options-IsValid_example : IsValid packed × ((hash : ℕ) → estimate packed hash ≡ some 0)
with_options-IsValid_example =
    with_options-IsValid 16 1 64 TinyLfuCounterKind.packed_4bit false (omega arith) (omega arith)
      (omega arith)

-- With a doorkeeper.
abbrev guarded : TinyLfu
guarded = with_options 16 1 64 TinyLfuCounterKind.u8 true

guarded-IsValid : IsValid guarded
guarded-IsValid =
    (with_options-IsValid 16 1 64 TinyLfuCounterKind.u8 true (omega arith) (omega arith)
      (omega arith)).0

increment-IsValid_example :
    (t' : TinyLfu) × (e : ℕ) × (increment guarded 7 ≡ some (t', e))
    × IsValid t'
    × (e ≤ counter_max guarded.counters)
    × (layout t'.counters ≡ layout guarded.counters)
    × (estimate t' 7 ≡ some e)
increment-IsValid_example = increment-IsValid guarded 7 guarded-IsValid

packed-IsValid : IsValid packed
packed-IsValid =
    (with_options-IsValid 16 1 64 TinyLfuCounterKind.packed_4bit false (omega arith) (omega arith)
      (omega arith)).0

no_door : packed.doorkeeper ≡ none
unfolding sketch_program
no_door = refl

exact : (layout packed.counters).0 ≡ true
unfolding sketch_program
exact = refl

sampled : packed.samples + 3 ≤ 63
unfolding sketch_program
sampled = omega arith

sized : packed.sample_size ≡ 64
unfolding sketch_program
sized = refl

increment_all-counts_example :
    (t' : TinyLfu) × (increment_all packed (7 ∷ 9 ∷ 7 ∷ []) ≡ some t')
    × ((hash : ℕ)
        → (estimate t' hash ≡ some (least_value t' hash))
          × (min
                (least_value packed hash + occurrences hash (7 ∷ 9 ∷ 7 ∷ []))
                (counter_max packed.counters)
              ≤ least_value t' hash))
increment_all-counts_example =
    increment_all-counts packed (7 ∷ 9 ∷ 7 ∷ []) packed-IsValid.fits no_door exact
      (omega (arith, sampled, sized)) (omega (arith, sized))

-- The sketch after one increment.
abbrev incremented : TinyLfu
incremented = (increment-IsValid packed 7 packed-IsValid).0

age-GoesDown_example :
    Fits (age incremented)
    × (layout (age incremented).counters ≡ layout incremented.counters)
    × ((hash : ℕ)
        → GoesDown
            (layout incremented.counters)
            (least_value incremented hash)
            (least_value (age incremented) hash))
age-GoesDown_example = age-GoesDown incremented (increment-IsValid packed 7 packed-IsValid).3.fits

-- Two increments, and one of another hash.
abbrev estimate_after : List ℕ → ℕ → Option ℕ
estimate_after hashes hash = elim (increment_all packed hashes) [
  | none ↦ none
  | some t ↦ estimate t hash
]

counts : estimate_after (7 ∷ 9 ∷ 7 ∷ []) 7 ≡ some 2
unfolding sketch_program
counts = refl
