-- ===== src/Bytes/Words.antt =====
-- `to_le_bytes` and `from_le_bytes` at every width.
use memory_first_store.Prelude.{
  ℕ, zero, suc, ◌+◌, ◌*◌, ◌/◌, ◌%◌, ◌^◌, ◌<◌, ◌≡◌, refl, ap, List, [], ◌∷◌, ◌++◌, arith, length,
  All,
}
use native.Mathlib.Nat.{pow-suc}

abbrev pub IsByte : ℕ → Type 0
IsByte b = b < 256

abbrev pub IsBytes : List ℕ → Type 0
IsBytes = All IsByte

-- The `n` low bytes of a word, the lowest first.
unfoldable pub le_bytes : ℕ → ℕ → List ℕ
le_bytes zero w = []
le_bytes (suc n) w = (w % 256) ∷ le_bytes n (w / 256)

unfoldable pub of_le_bytes : List ℕ → ℕ
of_le_bytes [] = 0
of_le_bytes (b ∷ bs) = b + 256 * of_le_bytes bs

pub length-le_bytes : (n w : ℕ) → length (le_bytes n w) ≡ n
unfolding le_bytes
length-le_bytes zero w = refl
length-le_bytes (suc n) w = ap suc (length-le_bytes n (w / 256))

pub le_bytes-IsBytes : (n w : ℕ) → IsBytes (le_bytes n w)
unfolding le_bytes
le_bytes-IsBytes zero w = tt
le_bytes-IsBytes (suc n) w = (omega arith, le_bytes-IsBytes n (w / 256))

pub of_le_bytes-le_bytes : (n w : ℕ) → w < 256 ^ n → of_le_bytes (le_bytes n w) ≡ w
unfolding le_bytes of_le_bytes
of_le_bytes-le_bytes zero w h = omega arith
of_le_bytes-le_bytes (suc n) w h =
    let p = pow-suc 256 n in omega (arith, of_le_bytes-le_bytes n (w / 256) (omega arith))

pub of_le_bytes-lt : (bs : List ℕ) → IsBytes bs → of_le_bytes bs < 256 ^ length bs
unfolding of_le_bytes
of_le_bytes-lt [] h = omega arith
of_le_bytes-lt (b ∷ bs) h =
    let p = pow-suc 256 (length bs) in omega (arith, h.0, of_le_bytes-lt bs h.1)

pub le_bytes-of_le_bytes : (bs : List ℕ) → IsBytes bs → le_bytes (length bs) (of_le_bytes bs) ≡ bs
unfolding le_bytes of_le_bytes
le_bytes-of_le_bytes [] h = refl
le_bytes-of_le_bytes (b ∷ bs) h = ground (arith, le_bytes-of_le_bytes bs h.1, high, low)
  where
    high : (b + 256 * of_le_bytes bs) / 256 ≡ of_le_bytes bs
    high = omega (arith, h.0)

    low : (b + 256 * of_le_bytes bs) % 256 ≡ b
    low = omega (arith, h.0)

pub IsBytes-append : (xs ys : List ℕ) → IsBytes (xs ++ ys) → IsBytes xs × IsBytes ys
IsBytes-append [] ys h = (tt, h)
IsBytes-append (x ∷ xs) ys h = let (a, b) = IsBytes-append xs ys h.1 in ((h.0, a), b)
