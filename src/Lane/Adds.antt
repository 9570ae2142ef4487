-- ===== src/Lane/Adds.antt =====
-- One word of a lane under the operations of several threads (`fetch_add`, `mark_dirty` and
-- `mark_clean` of crates/mfs-core/src/lib.rs), as the sequence of their atomic steps.
use memory_first_store.Prelude.{ℕ, ◌+◌, ◌%◌, ◌^◌, ◌≡◌, List, [], ◌∷◌, arith}
use memory_first_store.Lane.{value_bits, with_dirty, new_word}

abbrev pub sum : List ℕ → ℕ
sum [] = 0
sum (v ∷ vs) = v + sum vs

-- From a word, with the values that are added, to a word. `loads` is the first load of a
-- `fetch_add` or an exchange that fails, also by chance or with an old value: the word stays.
-- An exchange goes through only if the thread's `current` is the word.
pub data Run : ℕ → List ℕ → ℕ → Type 0 where
  ends : (word : ℕ) → Run word [] word
  loads : (word observed : ℕ) (vs : List ℕ) (last : ℕ) → Run word vs last → Run word vs last
  exchanges :
      (word current value : ℕ) (vs : List ℕ) (last : ℕ)
      → word ≡ current
      → Run (new_word current value) vs last
      → Run word (value ∷ vs) last
  marks_dirty :
      (word : ℕ) (vs : List ℕ) (last : ℕ) → Run (with_dirty word) vs last → Run word vs last
  marks_clean :
      (word : ℕ) (vs : List ℕ) (last : ℕ) → Run (value_bits word) vs last → Run word vs last

-- However the steps of the threads interleave, no addition is lost: the value at the end is the
-- value at the start and all that was added, in 63 bits.
pub Run-value_bits :
    {word last : ℕ} {vs : List ℕ}
    → Run word vs last
    → value_bits last ≡ (value_bits word + sum vs) % 2 ^ 63
Run-value_bits (ends word) = omega arith
Run-value_bits (loads word observed vs last run) = Run-value_bits run
Run-value_bits (exchanges word current value vs last same run) =
    omega (arith, same, Run-value_bits run)
Run-value_bits (marks_dirty word vs last run) = omega (arith, Run-value_bits run)
Run-value_bits (marks_clean word vs last run) = omega (arith, Run-value_bits run)
