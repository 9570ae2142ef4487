-- ===== src/Bytes/Bits.antt =====
-- Rust's bit operations on unsigned integers.
use Prim.Native.Nat.{bit_and, digits, bit_and-bitwise}
use memory_first_store.Prelude.{
  ℕ, zero, suc, ◌/◌, ◌%◌, ◌<◌, ◌≤◌, ◌≡◌, refl, Bool, true, ◌&&◌, min, arith,
}

digits-le : (n a b : ℕ) → digits (λ b. zero) min n a b ≤ b
digits-le zero a b = omega arith
digits-le (suc n) zero b = omega arith
digits-le (suc n) (suc a) b = omega (arith, digits-le n (suc a / 2) (b / 2))

-- A mask bounds what it lets through.
pub bit_and-le : (a b : ℕ) → bit_and a b ≤ b
bit_and-le a b = omega (arith, bit_and-bitwise a b, digits-le a a b)

-- The lowest bit.
pub bit_and-one : (a : ℕ) → bit_and a 1 ≡ a % 2
bit_and-one zero = refl
bit_and-one (suc a) = omega (arith, bit_and-bitwise (suc a) 1, digits-le a (suc a / 2) 0)

-- A test that holds at all numbers below a bound.
unfoldable pub check_below : ℕ → (ℕ → Bool) → Bool
check_below zero test = true
check_below (suc n) test = check_below n test && test n

pub check_below-true :
    (n : ℕ) (test : ℕ → Bool) (x : ℕ) → check_below n test ≡ true → x < n → test x ≡ true
unfolding check_below
check_below-true zero test x h below = absurd (omega arith)
check_below-true (suc n) test x h below = ground (arith, check_below-true n test x)
