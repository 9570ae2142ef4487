-- ===== src/Bytes/Readers.antt =====
-- Reading from the front of what is left of a byte slice: the pair of a slice and a cursor is
-- the list of the bytes behind the cursor.
use memory_first_store.Prelude.{
  ℕ, ◌≡◌, List, ◌++◌, arith, length, take, drop, ltb, if◌then◌else◌, length-append, take-append,
  drop-append, le→ltb, take-append-drop, length-take,
}
use memory_first_store.Prelude.Fail.{Result, ok, err}

-- `bytes[cursor..cursor + n]` and the cursor behind it, or an error if fewer bytes are left.
unfoldable pub split_exact {ℓ} : {E : Type ℓ} → E → ℕ → List ℕ → Result E (List ℕ × List ℕ)
split_exact e n bs = if ltb (length bs) n then err e else ok (take n bs, drop n bs)

module _ {ℓ} {E : Type ℓ} (e : E) where
  pub split_exact-append :
      (xs rest : List ℕ) {n : ℕ} → length xs ≡ n → split_exact e n (xs ++ rest) ≡ ok (xs, rest)
  unfolding split_exact
  split_exact-append xs rest h = rw (
    ← h,
    le→ltb (length (xs ++ rest)) (length xs) (omega (arith, length-append xs rest)),
    take-append,
    drop-append,
  )

  -- What was split off and what is left are the bytes.
  pub split_exact-eq-ok :
      (n : ℕ) (bs : List ℕ) {xs rest : List ℕ}
      → split_exact e n bs ≡ ok (xs, rest)
      → (bs ≡ xs ++ rest) × (length xs ≡ n)
  unfolding split_exact
  split_exact-eq-ok n bs h = ground (arith, take-append-drop n bs, length-take n bs)
