-- ===== src/Prelude/Int.antt =====
-- Signed 64-bit integers over the native numbers, and their two's complement bit patterns.
use Prim.Native.Nat.{ℕ, ◌-◌, ◌^◌, ◌%◌, ◌<◌}
use mathlib.Core.Path.{◌≡◌}
use native.Mathlib.Omega.{arith}
use memory_first_store.Prelude.Tests.{ltb, if◌then◌else◌}

-- `negsuc n` is -(n + 1).
pub data ℤ : Type 0 where
  pos : ℕ → ℤ
  negsuc : ℕ → ℤ

abbrev pub IsI64 : ℤ → Type 0
IsI64 (pos n) = n < 2 ^ 63
IsI64 (negsuc n) = n < 2 ^ 63

-- The unsigned word with the same bits.
pub i64_bits : ℤ → ℕ
i64_bits (pos n) = n % 2 ^ 64
i64_bits (negsuc n) = 2 ^ 64 - 1 - n % 2 ^ 64

pub i64_of_bits : ℕ → ℤ
i64_of_bits b = if ltb b (2 ^ 63) then pos b else negsuc (2 ^ 64 - 1 - b)

pub i64_bits-lt : (i : ℤ) → i64_bits i < 2 ^ 64
unfolding i64_bits
i64_bits-lt (pos n) = omega arith
i64_bits-lt (negsuc n) = omega arith

pub i64_of_bits-i64_bits : (i : ℤ) → IsI64 i → i64_of_bits (i64_bits i) ≡ i
unfolding i64_bits i64_of_bits
i64_of_bits-i64_bits (pos n) h = ground arith
i64_of_bits-i64_bits (negsuc n) h = ground arith

pub i64_of_bits-IsI64 : (b : ℕ) → b < 2 ^ 64 → IsI64 (i64_of_bits b)
unfolding i64_of_bits
i64_of_bits-IsI64 b h = ground arith
