-- ===== src/Lane.antt =====
-- `DenseU64Lane` of crates/mfs-core/src/lib.rs, as one thread uses it. A lane is the list of its
-- words, each a `u64` with the dirty flag in bit 63; an index out of range panics, which is `none`.
-- The prefetches of `dirty_values` and `load_many` have no effect.
pub mod Flush
pub mod Adds
mod Tests
use memory_first_store.Prelude.{
  ℕ, zero, suc, ◌+◌, ◌/◌, ◌%◌, ◌^◌, Bool, not, Option, none, some, List, [], ◌∷◌, length, get_elem?,
  set, replicate, ◌==◌, if◌then◌else◌,
}
use memory_first_store.Prelude.Fail.Panic.{◌>>=◌}

abbrev pub dirty_bit : ℕ
dirty_bit = 2 ^ 63

-- `word & VALUE_MASK`, `word | DIRTY_BIT` and `word & DIRTY_BIT != 0`.
abbrev pub value_bits : ℕ → ℕ
value_bits word = word % dirty_bit

abbrev pub with_dirty : ℕ → ℕ
with_dirty word = word % dirty_bit + dirty_bit

abbrev pub dirty_word : ℕ → Bool
dirty_word word = not (word / dirty_bit % 2 == 0)

unfoldable pub with_len : ℕ → List ℕ
with_len len = replicate len 0

unfoldable pub load : List ℕ → ℕ → Option ℕ
load slots index = do word ← get_elem? slots index; some (value_bits word)

unfoldable pub is_dirty : List ℕ → ℕ → Option Bool
is_dirty slots index = do word ← get_elem? slots index; some (dirty_word word)

-- The word at an index, replaced.
abbrev pub update : (ℕ → ℕ) → List ℕ → ℕ → Option (List ℕ)
update f slots index = do word ← get_elem? slots index; some (set slots index (f word))

unfoldable pub store : List ℕ → ℕ → ℕ → Option (List ℕ)
store slots index value = update (λ word. with_dirty value) slots index

-- The word that the exchange of `fetch_add` writes; the addition wraps around.
abbrev pub new_word : ℕ → ℕ → ℕ
new_word current value = with_dirty (value_bits ((value_bits current + value) % 2 ^ 64))

-- The previous value, and the lane after the exchange.
unfoldable pub fetch_add : List ℕ → ℕ → ℕ → Option (ℕ × List ℕ)
fetch_add slots index value = do
  current ← get_elem? slots index
  some (value_bits current, set slots index (new_word current value))

unfoldable pub mark_dirty : List ℕ → ℕ → Option (List ℕ)
mark_dirty slots index = update with_dirty slots index

unfoldable pub mark_clean : List ℕ → ℕ → Option (List ℕ)
mark_clean slots index = update value_bits slots index

unfoldable pub mark_many_clean : List ℕ → List ℕ → Option (List ℕ)
mark_many_clean slots [] = some slots
mark_many_clean slots (index ∷ indices) = do
  slots' ← mark_clean slots index
  mark_many_clean slots' indices

-- The loop from an index on, with so much room left in the result.
unfoldable pub dirty_from : ℕ → ℕ → List ℕ → List (ℕ × ℕ)
dirty_from i room [] = []
dirty_from i zero (word ∷ words) = []
dirty_from i (suc room) (word ∷ words) =
    let pushed = dirty_from (i + 1) room words in
    let skipped = dirty_from (i + 1) (suc room) words in
    if dirty_word word then (i, value_bits word) ∷ pushed else skipped

unfoldable pub dirty_values : List ℕ → ℕ → List (ℕ × ℕ)
dirty_values slots max = dirty_from 0 max slots

unfoldable pub load_many : List ℕ → List ℕ → Option (List ℕ)
load_many slots [] = some []
load_many slots (index ∷ indices) = do
  value ← load slots index
  values ← load_many slots indices
  some (value ∷ values)
