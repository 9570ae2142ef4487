-- ===== src/TinyLfu/Setup.antt =====
-- The constructors of `TinyLfu` set up a valid sketch (crates/mfs-core/src/tiny_lfu.rs).
use memory_first_store.Prelude.{
  ℕ, zero, suc, ◌+◌, ◌*◌, ◌/◌, ◌%◌, ◌^◌, ◌≤◌, ◌<◌, ◌≡◌, ◌∙◌, refl, ap, Bool, true, false, some, max,
  arith, leb, replicate, length-replicate, Bool-cases, inl, inr, ◌⊎◌, leb→le, leb→lt,
}
use memory_first_store.Bytes.Words.{IsBytes}
use memory_first_store.TinyLfu.{
  TinyLfuCounterKind, depth, power_from, next_power_of_two, saturating_mul, new_packed,
  new_counters, door_keeper_with_capacity, with_options,
}
use memory_first_store.TinyLfu.Counters.{nibble, is_even}
use memory_first_store.TinyLfu.Values.{
  HasCounters, HasPacked, counter_value, packed_value, value_at,
}
use memory_first_store.TinyLfu.Sketch.{estimate}
use memory_first_store.TinyLfu.Bounds.{Fits, least_value, estimate_le}
use memory_first_store.TinyLfu.Valid.{IsValid, FitsDoor}

pub power_from-le : (k p n : ℕ) → power_from k p n ≤ max p (2 * n)
unfolding power_from
power_from-le zero p n = omega arith
power_from-le (suc k) p n = elim (Bool-cases (leb n p)) [
  | inl enough ↦ rw enough (omega arith)
  | inr small ↦
      let below = leb→lt n p small in rw small (omega (arith, below, power_from-le k (p * 2) n))
]

-- One, two, four, or a multiple of eight.
abbrev Doubled : ℕ → Type 0
Doubled p = (p ≡ 1) ⊎ ((p ≡ 2) ⊎ ((p ≡ 4) ⊎ (p % 8 ≡ 0)))

power_from-Doubled : (k p n : ℕ) → 8 ≤ n → Doubled p → power_from k p n % 8 ≡ 0
unfolding power_from
power_from-Doubled zero p n h d = omega arith
power_from-Doubled (suc k) p n h d = elim (Bool-cases (leb n p)) [
  | inl enough ↦
      let above = leb→le n p enough in
      rw enough (elim d [
        | inl one ↦ omega (arith, above, one)
        | inr (inl two) ↦ omega (arith, above, two)
        | inr (inr (inl four)) ↦ omega (arith, above, four)
        | inr (inr (inr more)) ↦ more
      ])
  | inr small ↦ rw small (
      power_from-Doubled k (p * 2) n h (elim d [
        | inl one ↦ inr (inl (omega (arith, one)))
        | inr (inl two) ↦ inr (inr (inl (omega (arith, two))))
        | inr (inr (inl four)) ↦ inr (inr (inr (omega (arith, four))))
        | inr (inr (inr more)) ↦ inr (inr (inr (omega (arith, more))))
      ]))
]

door_keeper-FitsDoor : (width : ℕ) → FitsDoor (some (door_keeper_with_capacity width))
unfolding door_keeper_with_capacity next_power_of_two
door_keeper-FitsDoor width =
    let n = saturating_mul (max width 8) 8 in
    let eights = power_from-Doubled 64 1 n (omega arith) (inl refl) in
    let bit_count = max (power_from 64 1 n) 64 in
    rw (length-replicate {A = ℕ} (bit_count / 8) 0) (omega (arith, eights))

replicate-IsBytes : (n : ℕ) → IsBytes (replicate n 0)
replicate-IsBytes zero = tt
replicate-IsBytes (suc n) = (omega arith, replicate-IsBytes n)

new_packed-HasPacked : (n : ℕ) → HasPacked n (new_packed n)
unfolding new_packed
new_packed-HasPacked n =
    (rw (length-replicate {A = ℕ} ((n + 1) / 2) 0) (omega arith), replicate-IsBytes ((n + 1) / 2))

new_counters-HasCounters : (kind : TinyLfuCounterKind) (n : ℕ) → HasCounters n (new_counters kind n)
unfolding new_counters
new_counters-HasCounters TinyLfuCounterKind.u8 n =
    (rw (length-replicate {A = ℕ} n 0) (omega arith), replicate-IsBytes n)
new_counters-HasCounters TinyLfuCounterKind.packed_4bit n = new_packed-HasPacked n
new_counters-HasCounters TinyLfuCounterKind.two_counter n =
    (new_packed-HasPacked n, new_packed-HasPacked n)

value_at-replicate : (n i : ℕ) → value_at (replicate n 0) i ≡ 0
value_at-replicate zero i = refl
value_at-replicate (suc n) zero = refl
value_at-replicate (suc n) (suc i) = value_at-replicate n i

nibble_zero : (low : Bool) → nibble low 0 ≡ 0
unfolding nibble
nibble_zero true = refl
nibble_zero false = refl

packed_value-new_packed : (n i : ℕ) → packed_value (new_packed n) i ≡ 0
unfolding new_packed
packed_value-new_packed n i =
    rw (value_at-replicate ((n + 1) / 2) (i / 2)) (nibble_zero (is_even i))

new_counters-value :
    (kind : TinyLfuCounterKind) (n i : ℕ) → counter_value (new_counters kind n) i ≡ 0
unfolding new_counters
new_counters-value TinyLfuCounterKind.u8 n i = value_at-replicate n i
new_counters-value TinyLfuCounterKind.packed_4bit n i = packed_value-new_packed n i
new_counters-value TinyLfuCounterKind.two_counter n i = omega (arith, packed_value-new_packed n i)

-- A sketch with up to 2 ^ 58 for its capacity and its least width, of any layout and with or
-- without a doorkeeper, satisfies the invariant, and every estimate is 0.
pub with_options-IsValid :
    (capacity min_width sample_size : ℕ) (kind : TinyLfuCounterKind) (doorkeeper_enabled : Bool)
    → capacity ≤ 2 ^ 58
    → min_width ≤ 2 ^ 58
    → sample_size < 2 ^ 64
    → IsValid (with_options capacity min_width sample_size kind doorkeeper_enabled)
      × ((hash : ℕ)
          → estimate (with_options capacity min_width sample_size kind doorkeeper_enabled) hash
            ≡ some 0)
unfolding with_options next_power_of_two
with_options-IsValid capacity min_width sample_size kind doorkeeper_enabled hc hw hs =
    let t = with_options capacity min_width sample_size kind doorkeeper_enabled in
    let a = power_from-le 64 1 (saturating_mul (max capacity 16) 4) in
    let b = power_from-le 64 1 (max min_width 1) in
    let fits_usize : saturating_mul t.width depth ≡ depth * t.width = omega (arith, a, b) in
    let fits : Fits t = record {
      wide = omega arith;
      mask = refl;
      counters = rw fits_usize (new_counters-HasCounters kind (depth * t.width));
    } in
    let zeros : (hash : ℕ) → least_value t hash ≡ 0 =
      λ hash. omega (arith, new_counters-value kind (saturating_mul t.width depth) _) in
    (
      record {
        fits = fits;
        door = door doorkeeper_enabled;
        sampled = omega arith;
        sample_size = omega (arith, hs);
      },
      λ hash. (estimate_le t hash fits).0 ∙ ap some (zeros hash),
    )
  where
    door :
        (enabled : Bool)
        → FitsDoor (with_options capacity min_width sample_size kind enabled).doorkeeper
    door true = door_keeper-FitsDoor _
    door false = tt
