-- ===== src/TinyLfu/Bounds.antt =====
-- The sketch stays in bounds: no operation of `TinyLfu` panics
-- (crates/mfs-core/src/tiny_lfu.rs).
use mathlib.Core.Path.{subst}
use memory_first_store.Prelude.{
  ℕ, zero, suc, ◌+◌, ◌-◌, ◌*◌, ◌≤◌, ◌<◌, ◌≡◌, ◌≢◌, ◌∙◌, refl, sym, Bool, true, false, some, min,
  arith, ◌==◌, Bool-cases, inl, inr,
}
use memory_first_store.Bytes.Bits.{bit_and-le}
use memory_first_store.TinyLfu.{TinyLfuCounters, TinyLfu, u8_max, depth}
use memory_first_store.TinyLfu.Counters.{load}
use memory_first_store.TinyLfu.Values.{
  HasCounters, layout, counter_max, counter_value, GoesUp, load-counter_value,
  increment_counter-value,
}
use memory_first_store.TinyLfu.Sketch.{mix_tiny_lfu_hash, for_rows, index, estimate, bump_row}

-- The counters fit the rows, and a hash is cut to a row.
pub record Fits (t : TinyLfu) : Type 0 where
  pub wide : 0 < t.width
  pub mask : t.mask ≡ t.width - 1
  pub counters : HasCounters (depth * t.width) t.counters

pub row_start : (row w : ℕ) → row < 4 → row * w + w ≤ 4 * w
row_start row w h = grind arith

rows_apart : (r s w : ℕ) → r < s → r * w + w ≤ s * w
rows_apart r s w h = grind arith

module _ (t : TinyLfu) (fits : Fits t) (hash : ℕ) where
  index_in_row :
      (row : ℕ) → (row * t.width ≤ index t hash row) × (index t hash row < row * t.width + t.width)
  unfolding index
  index_in_row row =
      let cut = bit_and-le (mix_tiny_lfu_hash hash row) t.mask in
      (omega arith, omega (arith, cut, fits.mask, fits.wide))

  pub index_lt : (row : ℕ) → row < 4 → index t hash row < depth * t.width
  index_lt row h =
      let (_, below) = index_in_row row in omega (arith, below, row_start row t.width h)

  -- Two rows have no counter in common.
  index_ne : (r s : ℕ) → r < s → index t hash r ≢ index t hash s
  index_ne r s h e =
      let (_, below) = index_in_row r in
      let (above, _) = index_in_row s in
      absurd (omega (arith, below, above, rows_apart r s t.width h, e))

GoesUp-le :
    (l : Bool × ℕ) (before after : ℕ) → before ≤ l.1 → GoesUp l before after → before ≤ after
GoesUp-le (true, most) before after within up = omega (arith, up)
GoesUp-le (false, most) before after within up = up

-- No counter goes down.
increment_counter-le :
    (n : ℕ) (cs : TinyLfuCounters) (i : ℕ) (h : HasCounters n cs) (below : i < n) (j : ℕ)
    → counter_value cs j ≤ counter_value (increment_counter-value n cs i h below).0 j
increment_counter-le n cs i h below j =
    let (cs', _, _, _, up, others) = increment_counter-value n cs i h below in
    let (_, within) = load-counter_value n cs i h below in
    elim (Bool-cases (i == j)) [
      | inl here ↦
          let at : i ≡ j = ground (arith, here) in
          rw (← at) (GoesUp-le (layout cs) (counter_value cs i) (counter_value cs' i) within up)
      | inr other ↦ let same = others j (ground (arith, other)) in omega (arith, same)
    ]

-- What the increments of some rows leave.
abbrev pub RowsBumped : ℕ → ℕ → TinyLfu → ℕ → Type 0
RowsBumped n row t hash =
    (cs' : TinyLfuCounters) × (for_rows (bump_row hash) n row t
      ≡ some (record t { counters = cs' }))
    × HasCounters (depth * t.width) cs'
    × (layout cs' ≡ layout t.counters)
    × ((j : ℕ) → counter_value t.counters j ≤ counter_value cs' j)
    × ((r : ℕ)
        → row ≤ r
        → r < row + n
        → GoesUp (layout t.counters) (counter_value t.counters (index t hash r))
            (counter_value cs' (index t hash r)))
    × ((r : ℕ)
        → r < row
        → counter_value cs' (index t hash r) ≡ counter_value t.counters (index t hash r))

pub bump_rows :
    (n row : ℕ) (t : TinyLfu) (hash : ℕ) → Fits t → row + n ≤ 4 → RowsBumped n row t hash
unfolding for_rows index
bump_rows zero row t hash fits within = (
  t.counters,
  refl,
  fits.counters,
  refl,
  λ j. omega arith,
  λ r above below. absurd (omega arith),
  λ r below. refl,
)
bump_rows (suc n) row t hash fits within =
    let i = index t hash row in
    let room = index_lt t fits hash row (omega arith) in
    let (cs1, e, has, same, up, others) =
      increment_counter-value (depth * t.width) t.counters i fits.counters room in
    let grows = increment_counter-le (depth * t.width) t.counters i fits.counters room in
    let t1 : TinyLfu = record t { counters = cs1 } in
    let fits1 : Fits t1 = record { wide = fits.wide; mask = fits.mask; counters = has } in
    let (cs', es, has', same', grow, ups, kept) =
      bump_rows n (row + 1) t1 hash fits1 (omega arith) in
    (
      cs',
      rw e es,
      has',
      same' ∙ same,
      λ j. omega (arith, grows j, grow j),
      λ r above below. elim (Bool-cases (row == r)) [
        | inl here ↦
            let at : row ≡ r = ground (arith, here) in
            subst
              (λ x.
                GoesUp (layout t.counters) (counter_value t.counters (index t hash x))
                  (counter_value cs' (index t hash x)))
              at
              (subst (GoesUp (layout t.counters) (counter_value t.counters i))
                (sym (kept row (omega arith))) up)
        | inr later ↦
            let next : row + 1 ≤ r = ground (arith, above, later) in
            let after = counter_value cs' (index t hash r) in
            let untouched =
              others (index t hash r) (index_ne t fits hash row r (omega (arith, next))) in
            subst (λ l. GoesUp l (counter_value t.counters (index t hash r)) after) same
              (subst (λ b. GoesUp (layout cs1) b after) untouched
                (ups r next (omega (arith, below))))
      ],
      λ r below.
          kept r (omega arith)
          ∙ others (index t hash r) (λ e. index_ne t fits hash r row below (sym e)),
    )

-- The estimate is the least of the four counters of a hash.
abbrev pub row_value : TinyLfu → ℕ → ℕ → ℕ
row_value t hash row = counter_value t.counters (index t hash row)

abbrev pub least_value : TinyLfu → ℕ → ℕ
least_value t hash =
    min (min (min (min u8_max (row_value t hash 0)) (row_value t hash 1)) (row_value t hash 2))
      (row_value t hash 3)

pub load_row :
    (t : TinyLfu) (hash : ℕ)
    → Fits t
    → (row : ℕ) → row < 4
    → (load t.counters (index t hash row) ≡ some (row_value t hash row))
      × (row_value t hash row ≤ counter_max t.counters)
load_row t hash fits row h =
    load-counter_value (depth * t.width) t.counters (index t hash row) fits.counters
      (index_lt t fits hash row h)

-- An estimate reads four counters that are there, and is at most what a counter can hold: 255, or
-- 15 in the packed layouts.
pub estimate_le :
    (t : TinyLfu) (hash : ℕ)
    → Fits t
    → (estimate t hash ≡ some (least_value t hash)) × (least_value t hash ≤ counter_max t.counters)
unfolding estimate for_rows
estimate_le t hash fits =
    let r0 = load_row t hash fits 0 (omega arith) in
    let r1 = load_row t hash fits 1 (omega arith) in
    let r2 = load_row t hash fits 2 (omega arith) in
    let r3 = load_row t hash fits 3 (omega arith) in
    (rw (r0.0, r1.0, r2.0, r3.0), omega (arith, r0.1))
