-- ===== src/S3Fifo/Fits.antt =====
-- The sketches of a shard fit their rows (crates/mfs-core/src/s3fifo.rs), so that no index is out of
-- bounds.
use memory_first_store.Prelude.{
  ℕ, zero, suc, ◌+◌, ◌*◌, ◌≤◌, ◌<◌, ◌≡◌, refl, Option, none, some, arith, length, min,
}
use memory_first_store.Bytes.Bits.{bit_and-le}
use memory_first_store.TinyLfu.{TinyLfu}
use memory_first_store.TinyLfu.Sketch.{for_rows}
use memory_first_store.TinyLfu.Bounds.{Fits, row_start}
use memory_first_store.TinyLfu.Valid.{get_elem?-below}
use memory_first_store.S3Fifo.{FrequencySketch, frequency_depth}
use memory_first_store.S3Fifo.Frequency.{mix_frequency_hash, sketch_index, least_counter}

-- The counters fit the rows, and a hash is cut to a row.
pub record FitsFrequency (f : FrequencySketch) : Type 0 where
  pub cut : f.mask < f.width
  pub counters : frequency_depth * f.width ≤ length f.counters

abbrev pub FitsFrequencies : Option FrequencySketch → Type 0
FitsFrequencies none = Unit
FitsFrequencies (some f) = FitsFrequency f

abbrev pub FitsAdmission : Option TinyLfu → Type 0
FitsAdmission none = Unit
FitsAdmission (some t) = Fits t

pub sketch_index_lt :
    (f : FrequencySketch) (hash row : ℕ)
    → FitsFrequency f
    → row < 4
    → sketch_index f hash row < length f.counters
unfolding sketch_index
sketch_index_lt f hash row fits h = omega (
  arith,
  fits.cut,
  fits.counters,
  bit_and-le (mix_frequency_hash hash row) f.mask,
  row_start row f.width h,
)

pub least_rows :
    (n row least : ℕ) (f : FrequencySketch) (hash : ℕ)
    → FitsFrequency f
    → row + n ≤ 4
    → (x : ℕ) × (for_rows (least_counter f hash) n row least ≡ some x)
unfolding for_rows
least_rows zero row least f hash fits h = (least, refl)
least_rows (suc n) row least f hash fits h =
    let (value, read) =
      get_elem?-below f.counters (sketch_index f hash row)
        (sketch_index_lt f hash row fits (omega arith)) in
    let (x, rest) = least_rows n (row + 1) (min least value) f hash fits (omega arith) in
    (x, rw read rest)
