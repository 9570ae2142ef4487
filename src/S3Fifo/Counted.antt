-- ===== src/S3Fifo/Counted.antt =====
-- Counting in the sketches of a shard (crates/mfs-core/src/s3fifo.rs): it does not panic, and the
-- sketches still fit.
use memory_first_store.Prelude.{
  ℕ, zero, suc, ◌+◌, ◌/◌, ◌%◌, ◌^◌, ◌≤◌, ◌≡◌, refl, ap, Option, none, some, List, [], ◌∷◌, arith,
  length, length-set, set, map, leb, Bool-cases, inl, inr,
}
use memory_first_store.TinyLfu.{TinyLfu}
use memory_first_store.TinyLfu.Sketch.{for_rows}
use memory_first_store.TinyLfu.Bounds.{estimate_le, least_value}
use memory_first_store.TinyLfu.Valid.{IsValid, get_elem?-below, increment-IsValid}
use memory_first_store.S3Fifo.{AdmissionSample, FrequencySketch, Shard}
use memory_first_store.S3Fifo.Frequency.{
  sketch_index, saturating_increment, bump_counter, sampled, increment_frequency, age_sketch,
}
use memory_first_store.S3Fifo.Fits.{FitsFrequency, FitsFrequencies, FitsAdmission, sketch_index_lt}
use memory_first_store.S3Fifo.Operations.{record_frequency, record_admission, count_admission}

length-halved : (xs : List ℕ) → length {A = ℕ} (map (λ value. value / 2) xs) ≡ length xs
length-halved [] = refl
length-halved (x ∷ xs) = ap suc (length-halved xs)

bump_rows :
    (n row hash : ℕ) (f : FrequencySketch)
    → FitsFrequency f
    → row + n ≤ 4
    → (f' : FrequencySketch) × (for_rows (bump_counter hash) n row f ≡ some f') × FitsFrequency f'
unfolding for_rows
bump_rows zero row hash f fits h = (f, refl, fits)
bump_rows (suc n) row hash f fits h =
    let at = sketch_index f hash row in
    let (counter, read) =
      get_elem?-below f.counters at (sketch_index_lt f hash row fits (omega arith)) in
    let (f', rest, fits') =
      bump_rows n (row + 1) hash
        (record f { counters = set f.counters at (saturating_increment counter) })
        (record { cut = fits.cut; counters = rw length-set fits.counters }) (omega arith) in
    (f', rw read rest, fits')

sampled-FitsFrequency : (f : FrequencySketch) → FitsFrequency f → FitsFrequency (sampled f)
unfolding sampled age_sketch
sampled-FitsFrequency f fits = elim (Bool-cases (leb f.sample_size ((f.samples + 1) % 2 ^ 64))) [
  | inl old ↦
      rw old (record { cut = fits.cut; counters = rw (length-halved f.counters) fits.counters })
  | inr new ↦ rw new (record { cut = fits.cut; counters = fits.counters })
]

increment_frequency_total :
    (hash : ℕ) (f : FrequencySketch)
    → FitsFrequency f
    → (f' : FrequencySketch) × (increment_frequency hash f ≡ some f') × FitsFrequency f'
unfolding increment_frequency
increment_frequency_total hash f fits =
    let (f', counted, fits') = bump_rows 4 0 hash f fits (omega arith) in
    (sampled f', rw counted, sampled-FitsFrequency f' fits')

abbrev pub ValidAdmission : Option TinyLfu → Type 0
ValidAdmission none = Unit
ValidAdmission (some t) = IsValid t

pub ValidAdmission-FitsAdmission : (o : Option TinyLfu) → ValidAdmission o → FitsAdmission o
ValidAdmission-FitsAdmission none valid = tt
ValidAdmission-FitsAdmission (some t) valid = valid.fits

module _ {K V : Type 0} where
  pub record_frequency_total :
      (o : Option FrequencySketch) (hash : ℕ) (s : Shard K V)
      → s.frequency ≡ o
      → FitsFrequencies o
      → (o' : Option FrequencySketch) × (record_frequency hash s
          ≡ some (record s { frequency = o' }))
        × FitsFrequencies o'
  unfolding record_frequency
  record_frequency_total none hash s at fits = (s.frequency, rw at, rw at tt)
  record_frequency_total (some f) hash s at fits =
      let (f', counted, fits') = increment_frequency_total hash f fits in
      (some f', rw (at, counted), fits')

  pub record_admission_total :
      (o : Option TinyLfu) (hash : ℕ) (s : Shard K V)
      → s.admission ≡ o
      → ValidAdmission o
      → (sample : Option AdmissionSample) × (o' : Option TinyLfu) × (record_admission hash s
          ≡ some (sample, record s { admission = o' }))
        × ValidAdmission o'
  unfolding record_admission
  record_admission_total none hash s at valid = (none, s.admission, rw at, rw at tt)
  record_admission_total (some t) hash s at valid =
      let (t', e, counted, valid', bounded, kind, reads) = increment-IsValid t hash valid in
      (
        some (record { prior_frequency = least_value t hash; frequency = e }),
        some t',
        rw (at, (estimate_le t hash valid.fits).0, counted),
        valid',
      )

  pub count_admission_total :
      (o : Option TinyLfu) (hash : ℕ) (s : Shard K V)
      → s.admission ≡ o
      → ValidAdmission o
      → (o' : Option TinyLfu) × (count_admission hash s ≡ some (record s { admission = o' }))
        × ValidAdmission o'
  unfolding count_admission
  count_admission_total none hash s at valid = (s.admission, rw at, rw at tt)
  count_admission_total (some t) hash s at valid =
      let (t', e, counted, valid', bounded, kind, reads) = increment-IsValid t hash valid in
      (some t', rw (at, counted), valid')
