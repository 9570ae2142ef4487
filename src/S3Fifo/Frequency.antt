-- ===== src/S3Fifo/Frequency.antt =====
-- `FrequencySketch` of crates/mfs-core/src/s3fifo.rs. `none` is the panic of an index out of bounds.
use Prim.Native.Nat.{bit_and, bit_xor}
use memory_first_store.Prelude.{
  ℕ, ◌+◌, ◌-◌, ◌*◌, ◌/◌, ◌%◌, ◌^◌, Option, some, map, min, max, ltb, leb, replicate, get_elem?, set,
  if◌then◌else◌,
}
use memory_first_store.Prelude.Fail.Panic.{◌>>=◌}
use memory_first_store.TinyLfu.{next_power_of_two, saturating_mul}
use memory_first_store.TinyLfu.Sketch.{for_rows}
use memory_first_store.S3Fifo.{FrequencySketch, max_ref, max_frequency, frequency_depth}

-- `saturating_increment`
unfoldable pub saturating_increment : ℕ → ℕ
saturating_increment current = if ltb current max_frequency then current + 1 else current

unfoldable pub bump_ref : ℕ → ℕ
bump_ref current = if ltb current max_ref then current + 1 else current

unfoldable pub mix_frequency_hash : ℕ → ℕ → ℕ
mix_frequency_hash hash row =
    let mixed = bit_xor hash (row * 0x9E37_79B9_7F4A_7C15 % 2 ^ 64) in
    let folded = bit_xor mixed (mixed / 2 ^ 33) in
    let multiplied = folded * 0xC2B2_AE3D_27D4_EB4F % 2 ^ 64 in
    bit_xor multiplied (multiplied / 2 ^ 29)

unfoldable pub sketch_with_capacity : ℕ → FrequencySketch
sketch_with_capacity capacity =
    let width = max (next_power_of_two (saturating_mul (max capacity 16) 4)) 64 in
    record {
      width = width;
      mask = width - 1;
      sample_size = max (saturating_mul (max capacity 1) 10) width;
      samples = 0;
      counters = replicate (saturating_mul width frequency_depth) 0;
    }

unfoldable pub sketch_index : FrequencySketch → ℕ → ℕ → ℕ
sketch_index f hash row = row * f.width + bit_and (mix_frequency_hash hash row) f.mask

abbrev pub bump_counter : ℕ → FrequencySketch → ℕ → Option FrequencySketch
bump_counter hash f row = do
  counter ← get_elem? f.counters (sketch_index f hash row)
  some (record f {
    counters = set f.counters (sketch_index f hash row) (saturating_increment counter);
  })

unfoldable pub age_sketch : FrequencySketch → FrequencySketch
age_sketch f = record f { counters = map (λ value. value / 2) f.counters }

-- Without other threads the exchange of the count for 0 succeeds.
unfoldable pub sampled : FrequencySketch → FrequencySketch
sampled f =
    let samples = (f.samples + 1) % 2 ^ 64 in
    if leb f.sample_size samples
    then age_sketch (record f { samples = 0 })
    else record f { samples = samples }

unfoldable pub increment_frequency : ℕ → FrequencySketch → Option FrequencySketch
increment_frequency hash f = do
  counted ← for_rows (bump_counter hash) frequency_depth 0 f
  some (sampled counted)

abbrev pub least_counter : FrequencySketch → ℕ → ℕ → ℕ → Option ℕ
least_counter f hash least row = do
  value ← get_elem? f.counters (sketch_index f hash row)
  some (min least value)

unfoldable pub frequency_of : FrequencySketch → ℕ → Option ℕ
frequency_of f hash = for_rows (least_counter f hash) frequency_depth 0 max_frequency
