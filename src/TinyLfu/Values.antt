-- ===== src/TinyLfu/Values.antt =====
-- The counters as numbers: what each layout has at an index, and how an increment and aging change
-- it (crates/mfs-core/src/tiny_lfu.rs).
use memory_first_store.Prelude.{
  ℕ, zero, suc, ◌+◌, ◌*◌, ◌/◌, ◌≤◌, ◌<◌, ◌≡◌, ◌≢◌, ◌∙◌, refl, ap, Bool, true, false, not, some,
  List, [], ◌∷◌, map, min, max, arith, ◌==◌, length, get_elem?, set, length-set, Bool-cases, inl,
  inr,
}
use memory_first_store.Bytes.Words.{IsByte, IsBytes}
use memory_first_store.Bytes.Bits.{bit_and-one}
use memory_first_store.TinyLfu.{
  Packed4BitCounters, TinyLfuCounters, u8_counters, packed_counters, dual_counters,
}
use memory_first_store.TinyLfu.Counters.{
  is_even, nibble, bump_nibble, age_byte, saturating_increment, load_packed, increment_packed,
  age_packed, load_dual, increment_dual, age_dual, load, increment_counter, age_counters,
}
use memory_first_store.TinyLfu.Nibbles.{facts_bump, facts_age}

-- 0 out of bounds.
abbrev pub value_at : List ℕ → ℕ → ℕ
value_at [] i = 0
value_at (x ∷ xs) zero = x
value_at (x ∷ xs) (suc i) = value_at xs i

get_elem?-value_at : (xs : List ℕ) (i : ℕ) → i < length xs → get_elem? xs i ≡ some (value_at xs i)
get_elem?-value_at [] i h = absurd (omega arith)
get_elem?-value_at (x ∷ xs) zero h = refl
get_elem?-value_at (x ∷ xs) (suc i) h = get_elem?-value_at xs i (omega arith)

value_at-set_self : (xs : List ℕ) (i v : ℕ) → i < length xs → value_at (set xs i v) i ≡ v
value_at-set_self [] i v h = absurd (omega arith)
value_at-set_self (x ∷ xs) zero v h = refl
value_at-set_self (x ∷ xs) (suc i) v h = value_at-set_self xs i v (omega arith)

value_at-set_ne : (xs : List ℕ) (i j v : ℕ) → i ≢ j → value_at (set xs i v) j ≡ value_at xs j
value_at-set_ne [] i j v h = refl
value_at-set_ne (x ∷ xs) zero zero v h = absurd (h refl)
value_at-set_ne (x ∷ xs) zero (suc j) v h = refl
value_at-set_ne (x ∷ xs) (suc i) zero v h = refl
value_at-set_ne (x ∷ xs) (suc i) (suc j) v h = value_at-set_ne xs i j v (λ e. h (ap suc e))

value_at-map :
    (f : ℕ → ℕ) (xs : List ℕ) (i : ℕ) → f 0 ≡ 0 → value_at (map f xs) i ≡ f (value_at xs i)
value_at-map f [] i h = rw h
value_at-map f (x ∷ xs) zero h = refl
value_at-map f (x ∷ xs) (suc i) h = value_at-map f xs i h

value_at-IsByte : (xs : List ℕ) (i : ℕ) → IsBytes xs → IsByte (value_at xs i)
value_at-IsByte [] i h = omega arith
value_at-IsByte (x ∷ xs) zero h = h.0
value_at-IsByte (x ∷ xs) (suc i) h = value_at-IsByte xs i h.1

set-IsBytes : (xs : List ℕ) (i v : ℕ) → IsBytes xs → IsByte v → IsBytes (set xs i v)
set-IsBytes [] i v h b = tt
set-IsBytes (x ∷ xs) zero v h b = (b, h.1)
set-IsBytes (x ∷ xs) (suc i) v h b = (h.0, set-IsBytes xs i v h.1 b)

map-IsBytes :
    (f : ℕ → ℕ) (xs : List ℕ)
    → ((v : ℕ) → IsByte v → IsByte (f v))
    → IsBytes xs
    → IsBytes (map f xs)
map-IsBytes f [] k h = tt
map-IsBytes f (x ∷ xs) k h = (k x h.0, map-IsBytes f xs k h.1)

length-map : (f : ℕ → ℕ) (xs : List ℕ) → length (map f xs) ≡ length xs
length-map f [] = refl
length-map f (x ∷ xs) = ap suc (length-map f xs)

-- Room for so many counters.
abbrev pub HasPacked : ℕ → Packed4BitCounters → Type 0
HasPacked n bytes = (n ≤ length bytes * 2) × IsBytes bytes

abbrev pub packed_value : Packed4BitCounters → ℕ → ℕ
packed_value bytes i = nibble (is_even i) (value_at bytes (i / 2))

is_even-other : (i j : ℕ) → j / 2 ≡ i / 2 → i ≢ j → is_even j ≡ not (is_even i)
unfolding is_even
is_even-other i j half differs = rw (bit_and-one i, bit_and-one j) (ground (arith, half, differs))

module _ (n : ℕ) (bytes : Packed4BitCounters) (h : HasPacked n bytes) (i : ℕ) (below : i < n) where
  load_packed-value :
      (load_packed bytes i ≡ some (packed_value bytes i)) × (packed_value bytes i ≤ 15)
  unfolding load_packed
  load_packed-value = (
    rw (get_elem?-value_at bytes (i / 2) (omega (arith, h.0))),
    (facts_bump (is_even i) (value_at bytes (i / 2)) (value_at-IsByte bytes (i / 2) h.1)).0,
  )

  abbrev bumped : Packed4BitCounters
  bumped = set bytes (i / 2) (bump_nibble (is_even i) (value_at bytes (i / 2)))

  increment_packed-value :
      (increment_packed bytes i ≡ some bumped)
      × HasPacked n bumped
      × (packed_value bumped i ≡ min (packed_value bytes i + 1) 15)
  unfolding increment_packed
  increment_packed-value =
      let (_, byte, up, _) =
        facts_bump (is_even i) (value_at bytes (i / 2)) (value_at-IsByte bytes (i / 2) h.1) in
      (
        rw (get_elem?-value_at bytes (i / 2) (omega (arith, h.0))),
        (
          rw length-set h.0,
          set-IsBytes bytes (i / 2) (bump_nibble (is_even i) (value_at bytes (i / 2))) h.1 byte,
        ),
        rw
            (value_at-set_self bytes (i / 2) (bump_nibble (is_even i) (value_at bytes (i / 2)))
              (omega (arith, h.0)))
            up,
      )

  -- The other counter of the byte, and the other bytes.
  increment_packed-other : (j : ℕ) → i ≢ j → packed_value bumped j ≡ packed_value bytes j
  increment_packed-other j differs =
      let byte = value_at-IsByte bytes (i / 2) h.1 in
      elim (Bool-cases (i / 2 == j / 2)) [
        | inl same_byte ↦
            let half : j / 2 ≡ i / 2 = ground (arith, same_byte) in
            rw
              (
                half,
                is_even-other i j half differs,
                value_at-set_self bytes (i / 2) (bump_nibble (is_even i) (value_at bytes (i / 2)))
                    (omega (arith, h.0)),
              )
              (facts_bump (is_even i) (value_at bytes (i / 2)) byte).3
        | inr other ↦ rw (
            value_at-set_ne bytes (i / 2) (j / 2) (bump_nibble (is_even i) (value_at bytes (i / 2)))
              (ground (arith, other)))
      ]

age_byte_zero : age_byte 0 ≡ 0
unfolding age_byte
age_byte_zero = refl

age_packed-value :
    (n : ℕ) (bytes : Packed4BitCounters)
    → HasPacked n bytes
    → HasPacked n (age_packed bytes)
      × ((i : ℕ) → packed_value (age_packed bytes) i ≡ packed_value bytes i / 2)
unfolding age_packed
age_packed-value n bytes h = (
  (rw length-map h.0, map-IsBytes age_byte bytes (λ v b. (facts_age true v b).0) h.1),
  λ i.
      rw (value_at-map age_byte bytes (i / 2) age_byte_zero)
        (facts_age (is_even i) (value_at bytes (i / 2)) (value_at-IsByte bytes (i / 2) h.1)).1,
)

-- The counters of a sketch, by layout.
abbrev pub HasCounters : ℕ → TinyLfuCounters → Type 0
HasCounters n (u8_counters counters) = (n ≤ length counters) × IsBytes counters
HasCounters n (packed_counters bytes) = HasPacked n bytes
HasCounters n (dual_counters d) = HasPacked n d.a × HasPacked n d.b

-- Whether every increment counts, and the greatest value.
abbrev pub layout : TinyLfuCounters → Bool × ℕ
layout (u8_counters counters) = (true, 255)
layout (packed_counters bytes) = (true, 15)
layout (dual_counters d) = (false, 15)

abbrev pub counter_max : TinyLfuCounters → ℕ
counter_max cs = (layout cs).1

abbrev pub counter_value : TinyLfuCounters → ℕ → ℕ
counter_value (u8_counters counters) i = value_at counters i
counter_value (packed_counters bytes) i = packed_value bytes i
counter_value (dual_counters d) i = max (packed_value d.a i) (packed_value d.b i)

-- How a counter goes up: by one below the greatest value. Of two sketches only the active one
-- does, and it may stay below the other.
abbrev pub GoesUp : Bool × ℕ → ℕ → ℕ → Type 0
GoesUp (true, most) before after = after ≡ min (before + 1) most
GoesUp (false, most) before after = before ≤ after

-- How a counter ages.
abbrev pub GoesDown : Bool × ℕ → ℕ → ℕ → Type 0
GoesDown (true, most) before after = after ≡ before / 2
GoesDown (false, most) before after = after ≤ before

pub load-counter_value :
    (n : ℕ) (cs : TinyLfuCounters) (i : ℕ)
    → HasCounters n cs
    → i < n
    → (load cs i ≡ some (counter_value cs i)) × (counter_value cs i ≤ counter_max cs)
unfolding load load_dual
load-counter_value n (u8_counters counters) i h below =
    let byte = value_at-IsByte counters i h.1 in
    (get_elem?-value_at counters i (omega (arith, h.0)), omega arith)
load-counter_value n (packed_counters bytes) i h below = load_packed-value n bytes h i below
load-counter_value n (dual_counters d) i h below =
    let (la, ma) = load_packed-value n d.a h.0 i below in
    let (lb, mb) = load_packed-value n d.b h.1 i below in (rw (la, lb), omega (arith, ma, mb))

abbrev pub Incremented : ℕ → TinyLfuCounters → ℕ → Type 0
Incremented n cs i =
    (cs' : TinyLfuCounters) × (increment_counter cs i ≡ some cs')
    × HasCounters n cs'
    × (layout cs' ≡ layout cs)
    × GoesUp (layout cs) (counter_value cs i) (counter_value cs' i)
    × ((j : ℕ) → i ≢ j → counter_value cs' j ≡ counter_value cs j)

-- An increment of one counter: the others keep their values.
pub increment_counter-value :
    (n : ℕ) (cs : TinyLfuCounters) (i : ℕ) → HasCounters n cs → i < n → Incremented n cs i
unfolding increment_counter increment_dual saturating_increment
increment_counter-value n (u8_counters counters) i h below =
    let v = value_at counters i in
    let byte = value_at-IsByte counters i h.1 in
    let up : saturating_increment v ≡ min (v + 1) 255 = ground (arith, byte) in
    let less : saturating_increment v < 256 = omega (arith, up) in
    (
      u8_counters (set counters i (saturating_increment v)),
      rw (get_elem?-value_at counters i (omega (arith, h.0))),
      (rw length-set h.0, set-IsBytes counters i (saturating_increment v) h.1 less),
      refl,
      value_at-set_self counters i (saturating_increment v) (omega (arith, h.0)) ∙ up,
      λ j differs. value_at-set_ne counters i j (saturating_increment v) differs,
    )
increment_counter-value n (packed_counters bytes) i h below =
    let (e, has, up) = increment_packed-value n bytes h i below in
    (
      packed_counters (bumped n bytes h i below),
      rw e,
      has,
      refl,
      up,
      increment_packed-other n bytes h i below,
    )
increment_counter-value n (dual_counters d) i h below = elim (Bool-cases d.active_is_a) [
  | inl on_a ↦
      let (e, has, up) = increment_packed-value n d.a h.0 i below in
      let (_, most) = load_packed-value n d.a h.0 i below in
      (
        dual_counters (record d { a = bumped n d.a h.0 i below }),
        rw (on_a, e),
        (has, h.1),
        refl,
        omega (arith, up, most),
        λ j differs. rw (increment_packed-other n d.a h.0 i below j differs),
      )
  | inr on_b ↦
      let (e, has, up) = increment_packed-value n d.b h.1 i below in
      let (_, most) = load_packed-value n d.b h.1 i below in
      (
        dual_counters (record d { b = bumped n d.b h.1 i below }),
        rw (on_b, e),
        (h.0, has),
        refl,
        omega (arith, up, most),
        λ j differs. rw (increment_packed-other n d.b h.1 i below j differs),
      )
]

-- Aging: every counter halves, or in the layout with two sketches does not grow.
pub age_counters-value :
    (n : ℕ) (cs : TinyLfuCounters)
    → HasCounters n cs
    → HasCounters n (age_counters cs)
      × (layout (age_counters cs) ≡ layout cs)
      × ((i : ℕ) → GoesDown (layout cs) (counter_value cs i) (counter_value (age_counters cs) i))
unfolding age_counters age_dual
age_counters-value n (u8_counters counters) h = (
  (rw length-map h.0, map-IsBytes (λ v. v / 2) counters (λ v b. omega arith) h.1),
  refl,
  λ i. value_at-map (λ v. v / 2) counters i refl,
)
age_counters-value n (packed_counters bytes) h =
    let (has, halves) = age_packed-value n bytes h in (has, refl, halves)
age_counters-value n (dual_counters d) h = elim (Bool-cases d.active_is_a) [
  | inl on_a ↦
      let (has, halves) = age_packed-value n d.b h.1 in
      rw on_a ((h.0, has), refl, λ i. omega (arith, halves i))
  | inr on_b ↦
      let (has, halves) = age_packed-value n d.a h.0 in
      rw on_b ((has, h.1), refl, λ i. omega (arith, halves i))
]
