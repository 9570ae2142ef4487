-- ===== src/TinyLfu/Nibbles.antt =====
-- The two counters of a byte, by the values of all bytes (`Packed4BitCounters` of
-- crates/mfs-core/src/tiny_lfu.rs).
use memory_first_store.Prelude.{
  ℕ, ◌+◌, ◌/◌, ◌≤◌, ◌≡◌, refl, Bool, true, false, ◌&&◌, not, min, arith, ltb, ◌==◌,
}
use memory_first_store.Bytes.Words.{IsByte}
use memory_first_store.Bytes.Bits.{check_below, check_below-true}
use memory_first_store.TinyLfu.Counters.{nibble, bump_nibble, age_byte}

-- What a byte does as two counters, for one of the two.
abbrev bumps_well : Bool → ℕ → Bool
bumps_well low value =
    ltb (nibble low value) 16
    && (ltb (bump_nibble low value) 256
        && ((nibble low (bump_nibble low value) == min (nibble low value + 1) 15)
            && (nibble (not low) (bump_nibble low value) == nibble (not low) value)))

abbrev ages_well : Bool → ℕ → Bool
ages_well low value =
    ltb (age_byte value) 256 && (nibble low (age_byte value) == nibble low value / 2)

bumps : (low : Bool) → check_below 256 (bumps_well low) ≡ true
unfolding check_below nibble bump_nibble
bumps true = refl
bumps false = refl

ages : (low : Bool) → check_below 256 (ages_well low) ≡ true
unfolding check_below nibble age_byte
ages true = refl
ages false = refl

module _ (low : Bool) (value : ℕ) (byte : IsByte value) where
  pub facts_bump :
      (nibble low value ≤ 15)
      × IsByte (bump_nibble low value)
      × (nibble low (bump_nibble low value) ≡ min (nibble low value + 1) 15)
      × (nibble (not low) (bump_nibble low value) ≡ nibble (not low) value)
  facts_bump =
      let h = check_below-true 256 (bumps_well low) value (bumps low) byte in ground (arith, h)

  pub facts_age : IsByte (age_byte value) × (nibble low (age_byte value) ≡ nibble low value / 2)
  facts_age =
      let h = check_below-true 256 (ages_well low) value (ages low) byte in ground (arith, h)
