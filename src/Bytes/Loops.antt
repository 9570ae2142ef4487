-- ===== src/Bytes/Loops.antt =====
-- The loops of the codecs: `for x in xs { encode(x, out) }`, and `for _ in 0..count` around a read
-- and a push or an insert.
use memory_first_store.Prelude.{
  ℕ, zero, suc, ◌*◌, ◌≤◌, ◌≡◌, refl, Option, some, List, [], ◌∷◌, ◌++◌, arith, length, All, foldl,
  append_assoc, length-append,
}
use memory_first_store.Prelude.Fail.{Result, ok, ◌>>=◌}
use memory_first_store.Prelude.Fail.Panic

-- The bytes that the loop pushes; `none` if a round panics.
unfoldable pub encode_each {ℓ} : {A : Type ℓ} → (A → Option (List ℕ)) → List A → Option (List ℕ)
encode_each enc [] = some []
encode_each enc (x ∷ xs) =
    Panic.◌>>=◌ (enc x) (λ bs. Panic.◌>>=◌ (encode_each enc xs) (λ more. some (bs ++ more)))

-- `step` is the push or the insert, and `acc` the collection.
unfoldable pub read_into {ℓ κ μ} :
    {E : Type ℓ} {A : Type κ} {C : Type μ}
    → ℕ
    → (List ℕ → Result E (A × List ℕ))
    → (C → A → C)
    → C
    → List ℕ
    → Result E (C × List ℕ)
read_into zero read step acc bs = ok (acc, bs)
read_into (suc n) read step acc bs = do (x, rest) ← read bs; read_into n read step (step acc x) rest

-- An encoder and a reader that fit: what is encoded has `least` bytes at least, and is read back
-- whatever follows.
pub record RoundTrips {ℓ κ} {E : Type ℓ} {A : Type κ} (Fits : A → Type 0) (least : ℕ)
    (enc : A → Option (List ℕ)) (read : List ℕ → Result E (A × List ℕ)) : Type (ℓ ⊔ κ) where
  pub at :
      (a : A)
      → Fits a
      → (bs : List ℕ) × (enc a ≡ some bs)
        × (least ≤ length bs)
        × ((rest : List ℕ) → read (bs ++ rest) ≡ ok (a, rest))

pub read_into-encode_each {ℓ κ μ} :
    {E : Type ℓ} {A : Type κ} {C : Type μ} {Fits : A → Type 0} {least : ℕ}
    {enc : A → Option (List ℕ)} {read : List ℕ → Result E (A × List ℕ)}
    → RoundTrips Fits least enc read
    → (step : C → A → C) (xs : List A) → All Fits xs
    → (bs : List ℕ) × (encode_each enc xs ≡ some bs)
      × (length xs * least ≤ length bs)
      × ((acc : C) (rest : List ℕ)
          → read_into (length xs) read step acc (bs ++ rest) ≡ ok (foldl step acc xs, rest))
unfolding encode_each read_into
read_into-encode_each rt step [] h = ([], refl, omega arith, λ acc rest. refl)
read_into-encode_each {least = least} rt step (x ∷ xs) h =
    let (front, e, l, back) = rt.at x h.0 in
    let (more, es, ls, backs) = read_into-encode_each rt step xs h.1 in
    (
      front ++ more,
      rw (e, es),
      omega (arith, length-append front more),
      λ acc rest. rw (append_assoc, back) (backs (step acc x) rest),
    )
