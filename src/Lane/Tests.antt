-- ===== src/Lane/Tests.antt =====
-- Runs of a lane of four words.
use memory_first_store.Prelude.{
  ℕ, ◌+◌, ◌/◌, ◌%◌, ◌^◌, ◌≡◌, refl, true, some, List, [], ◌∷◌, arith, All,
}
use memory_first_store.Lane.{
  value_bits, new_word, with_len, load, is_dirty, store, fetch_add, mark_dirty, mark_clean,
  mark_many_clean, dirty_from, dirty_values, load_many,
}
use memory_first_store.Lane.Flush.{places, dirty_values-load, mark_many_clean-dirty_values}
use memory_first_store.Lane.Adds.{Run, sum, ends, loads, exchanges, marks_clean, Run-value_bits}

lane_program : Unit {0}
unfolding with_len load is_dirty store fetch_add mark_dirty mark_clean mark_many_clean dirty_from
    dirty_values load_many
lane_program = tt

-- The first and the third word are dirty.
abbrev lane : List ℕ
lane = (2 ^ 63 + 5) ∷ 7 ∷ (2 ^ 63 + 9) ∷ 0 ∷ []

stores : store (with_len 2) 1 6 ≡ some (0 ∷ (2 ^ 63 + 6) ∷ [])
unfolding lane_program
stores = refl

fetches : fetch_add lane 1 3 ≡ some (7, (2 ^ 63 + 5) ∷ (2 ^ 63 + 10) ∷ (2 ^ 63 + 9) ∷ 0 ∷ [])
unfolding lane_program
fetches = refl

loads_many : load_many lane (2 ∷ 0 ∷ []) ≡ some (9 ∷ 5 ∷ [])
unfolding lane_program
loads_many = refl

collects : dirty_values lane 8 ≡ (0, 5) ∷ (2, 9) ∷ []
unfolding lane_program
collects = refl

dirty_values-load_example :
    All (λ e. (load lane e.0 ≡ some e.1) × (is_dirty lane e.0 ≡ some true)) (dirty_values lane 1)
dirty_values-load_example = dirty_values-load lane 1

mark_many_clean-dirty_values_example :
    (slots' : List ℕ) × (mark_many_clean lane (places (dirty_values lane 4)) ≡ some slots')
    × ((i : ℕ) → load slots' i ≡ load lane i)
    × All (λ w. w / 2 ^ 63 % 2 ≡ 0) slots'
    × ((k : ℕ) → dirty_values slots' k ≡ [])
mark_many_clean-dirty_values_example = mark_many_clean-dirty_values lane 4 (omega arith)

-- Two threads add 3 and 4 to the word 7; the second one's first exchange fails, and a cleaner
-- runs in between.
abbrev two_adds : Run 7 (3 ∷ 4 ∷ []) (new_word 10 4)
two_adds = exchanges 7 7 3 (4 ∷ []) (new_word 10 4) refl (
    loads (new_word 7 3) 7 (4 ∷ []) (new_word 10 4) (
      marks_clean (new_word 7 3) (4 ∷ []) (new_word 10 4)
        (exchanges 10 10 4 [] (new_word 10 4) refl (ends (new_word 10 4)))))

Run-value_bits_example : value_bits (new_word 10 4) ≡ (value_bits 7 + sum (3 ∷ 4 ∷ [])) % 2 ^ 63
Run-value_bits_example = Run-value_bits two_adds
