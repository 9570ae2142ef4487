-- ===== src/Lane/Flush.antt =====
-- A flush of a lane: collect the dirty words, then mark them clean
-- (`dirty_values` and `mark_many_clean` of crates/mfs-core/src/lib.rs).
use memory_first_store.Prelude.{
  ℕ, zero, suc, ◌+◌, ◌/◌, ◌%◌, ◌^◌, ◌≤◌, ◌≡◌, refl, true, false, some, List, [], ◌∷◌, ◌++◌, arith,
  length, All, get_elem?, set, if◌then◌else◌, Bool-cases, inl, inr, append_assoc, length-append,
}
use memory_first_store.Lane.{
  value_bits, dirty_word, load, is_dirty, mark_clean, mark_many_clean, dirty_from, dirty_values,
}

abbrev pub places : List (ℕ × ℕ) → List ℕ
places [] = []
places (e ∷ es) = e.0 ∷ places es

-- The words with the first dirty ones marked clean.
cleaned : ℕ → List ℕ → List ℕ
cleaned room [] = []
cleaned zero (word ∷ words) = word ∷ words
cleaned (suc room) (word ∷ words) =
    let marked = cleaned room words in
    let kept = cleaned (suc room) words in
    if dirty_word word then value_bits word ∷ marked else word ∷ kept

get_elem?-behind :
    (pre : List ℕ) (w : ℕ) (ws : List ℕ) → get_elem? (pre ++ w ∷ ws) (length pre) ≡ some w
get_elem?-behind [] w ws = refl
get_elem?-behind (x ∷ pre) w ws = get_elem?-behind pre w ws

set-behind :
    (pre : List ℕ) (v w : ℕ) (ws : List ℕ) → set (pre ++ w ∷ ws) (length pre) v ≡ pre ++ v ∷ ws
set-behind [] v w ws = refl
set-behind (x ∷ pre) v w ws = rw (set-behind pre v w ws)

snoc_append : (pre : List ℕ) (x : ℕ) (ys : List ℕ) → (pre ++ x ∷ []) ++ ys ≡ pre ++ x ∷ ys
snoc_append pre x ys = rw append_assoc

mark_many_clean-cleaned :
    (pre words : List ℕ) (i room : ℕ)
    → i ≡ length pre
    → mark_many_clean (pre ++ words) (places (dirty_from i room words))
      ≡ some (pre ++ cleaned room words)
unfolding mark_many_clean mark_clean dirty_from cleaned
mark_many_clean-cleaned pre [] i room h = refl
mark_many_clean-cleaned pre (w ∷ ws) i zero h = refl
mark_many_clean-cleaned pre (w ∷ ws) i (suc room) h = elim (Bool-cases (dirty_word w)) [
  | inl dirty ↦
      let next =
        mark_many_clean-cleaned (pre ++ value_bits w ∷ []) ws (i + 1) room
          (omega (arith, length-append pre (value_bits w ∷ []))) in
      rw (dirty, h, get_elem?-behind pre w ws, set-behind pre (value_bits w) w ws)
        (rw (snoc_append pre (value_bits w) ws, snoc_append pre (value_bits w) (cleaned room ws), h)
          at next)
  | inr clean ↦
      let next =
        mark_many_clean-cleaned (pre ++ w ∷ []) ws (i + 1) (suc room)
          (omega (arith, length-append pre (w ∷ []))) in
      rw clean (rw (snoc_append pre w ws, snoc_append pre w (cleaned (suc room) ws)) at next)
]

load-cleaned : (room : ℕ) (words : List ℕ) (i : ℕ) → load (cleaned room words) i ≡ load words i
unfolding load cleaned
load-cleaned room [] i = refl
load-cleaned zero (w ∷ ws) i = refl
load-cleaned (suc room) (w ∷ ws) zero = elim (Bool-cases (dirty_word w)) [
  | inl dirty ↦ let same : w % 2 ^ 63 % 2 ^ 63 ≡ w % 2 ^ 63 = omega arith in rw (dirty, same)
  | inr clean ↦ rw clean
]
load-cleaned (suc room) (w ∷ ws) (suc i) = elim (Bool-cases (dirty_word w)) [
  | inl dirty ↦ rw dirty (load-cleaned room ws i)
  | inr clean ↦ rw clean (load-cleaned (suc room) ws i)
]

value_bits-dirty_word : (w : ℕ) → dirty_word (value_bits w) ≡ false
value_bits-dirty_word w = ground arith

-- With room for all of them, no dirty word is left.
dirty_from-cleaned :
    (room : ℕ) (words : List ℕ) (i k : ℕ)
    → length words ≤ room
    → dirty_from i k (cleaned room words) ≡ []
unfolding dirty_from cleaned
dirty_from-cleaned room [] i k h = refl
dirty_from-cleaned zero (w ∷ ws) i k h = absurd (omega arith)
dirty_from-cleaned (suc room) (w ∷ ws) i zero h = elim (Bool-cases (dirty_word w)) [
  | inl dirty ↦ rw dirty
  | inr clean ↦ rw clean
]
dirty_from-cleaned (suc room) (w ∷ ws) i (suc k) h = elim (Bool-cases (dirty_word w)) [
  | inl dirty ↦
      rw (dirty, value_bits-dirty_word w) (dirty_from-cleaned room ws (i + 1) (suc k) (omega arith))
  | inr clean ↦ rw (clean, clean) (dirty_from-cleaned (suc room) ws (i + 1) (suc k) (omega arith))
]

cleaned_clean :
    (room : ℕ) (words : List ℕ)
    → length words ≤ room
    → All (λ w. w / 2 ^ 63 % 2 ≡ 0) (cleaned room words)
unfolding cleaned
cleaned_clean room [] h = tt
cleaned_clean zero (w ∷ ws) h = absurd (omega arith)
cleaned_clean (suc room) (w ∷ ws) h = elim (Bool-cases (dirty_word w)) [
  | inl dirty ↦ rw dirty (omega arith, cleaned_clean room ws (omega arith))
  | inr clean ↦ rw clean (ground (arith, clean), cleaned_clean (suc room) ws (omega arith))
]

dirty_from-Holds :
    (pre words : List ℕ) (i room : ℕ)
    → i ≡ length pre
    → All
        (λ e. (load (pre ++ words) e.0 ≡ some e.1) × (is_dirty (pre ++ words) e.0 ≡ some true))
        (dirty_from i room words)
unfolding dirty_from load is_dirty
dirty_from-Holds pre [] i room h = tt
dirty_from-Holds pre (w ∷ ws) i zero h = tt
dirty_from-Holds pre (w ∷ ws) i (suc room) h =
    let later = λ (m : ℕ).
      dirty_from-Holds (pre ++ w ∷ []) ws (i + 1) m (omega (arith, length-append pre (w ∷ []))) in
    elim (Bool-cases (dirty_word w)) [
      | inl dirty ↦ rw dirty (
        (rw (h, get_elem?-behind pre w ws), rw (h, get_elem?-behind pre w ws, dirty)),
        rw (snoc_append pre w ws) at (later room),
      )
      | inr clean ↦ rw clean (rw (snoc_append pre w ws) at (later (suc room)))
    ]

-- A collection of dirty words gives only dirty ones, each with the value that a load gives.
pub dirty_values-load :
    (slots : List ℕ) (max : ℕ)
    → All
        (λ e. (load slots e.0 ≡ some e.1) × (is_dirty slots e.0 ≡ some true))
        (dirty_values slots max)
unfolding dirty_values
dirty_values-load slots max = dirty_from-Holds [] slots 0 max refl

-- Mark clean what a collection with room for the whole lane gave: every index is in range, every
-- load gives the value that it gave before, no word has its dirty bit set, and a further collection
-- finds nothing.
pub mark_many_clean-dirty_values :
    (slots : List ℕ) (max : ℕ)
    → length slots ≤ max
    → (slots' : List ℕ) × (mark_many_clean slots (places (dirty_values slots max)) ≡ some slots')
      × ((i : ℕ) → load slots' i ≡ load slots i)
      × All (λ w. w / 2 ^ 63 % 2 ≡ 0) slots'
      × ((k : ℕ) → dirty_values slots' k ≡ [])
unfolding dirty_values
mark_many_clean-dirty_values slots max h = (
  cleaned max slots,
  mark_many_clean-cleaned [] slots 0 max refl,
  load-cleaned max slots,
  cleaned_clean max slots h,
  λ k. dirty_from-cleaned max slots 0 k h,
)
