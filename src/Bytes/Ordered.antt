-- ===== src/Bytes/Ordered.antt =====
-- `BTreeMap` and `BTreeSet` with byte strings for keys: lists in ascending order of their keys.
use Prim.Native.Nat.{compare, Ordering}
use memory_first_store.Prelude.{
  ℕ, ◌≡◌, refl, List, [], ◌∷◌, ◌++◌, arith, All, foldl, append_assoc, append-nil,
}

-- `Ord` of `Vec<u8>`.
unfoldable pub lex : List ℕ → List ℕ → Ordering
lex [] [] = Ordering.eq
lex [] (b ∷ bs) = Ordering.lt
lex (a ∷ as') [] = Ordering.gt
lex (a ∷ as') (b ∷ bs) = elim (compare a b) [
  | Ordering.lt ↦ Ordering.lt
  | Ordering.eq ↦ lex as' bs
  | Ordering.gt ↦ Ordering.gt
]

pub lex-flip : (a b : List ℕ) → lex a b ≡ Ordering.lt → lex b a ≡ Ordering.gt
unfolding lex
lex-flip [] [] h = cc
lex-flip [] (b ∷ bs) h = refl
lex-flip (a ∷ as') [] h = cc
lex-flip (a ∷ as') (b ∷ bs) h = ground (arith, lex-flip as' bs)

pub lex_refl : (a : List ℕ) → lex a a ≡ Ordering.eq
unfolding lex
lex_refl [] = refl
lex_refl (a ∷ as') = ground (arith, lex_refl as')

module _ {ℓ} {A : Type ℓ} (key : A → List ℕ) where
  -- An entry with an equal key is replaced.
  unfoldable pub insert : List A → A → List A
  insert [] a = a ∷ []
  insert (x ∷ xs) a =
      let more = insert xs a in
      elim (lex (key a) (key x)) [
        | Ordering.lt ↦ a ∷ x ∷ xs
        | Ordering.eq ↦ a ∷ xs
        | Ordering.gt ↦ x ∷ more
      ]

  abbrev pub Before : A → A → Type 0
  Before x y = lex (key x) (key y) ≡ Ordering.lt

  abbrev pub IsAscending : List A → Type 0
  IsAscending [] = Unit
  IsAscending (x ∷ xs) = All (Before x) xs × IsAscending xs

  -- What stands behind every entry goes to the end.
  insert_last :
      (xs : List A) (a : A) (ys : List A) → IsAscending (xs ++ a ∷ ys) → insert xs a ≡ xs ++ a ∷ []
  unfolding insert
  insert_last [] a ys h = refl
  insert_last (x ∷ xs) a ys h =
      ground (arith, lex-flip (key x) (key a), insert_last xs a ys h.1, before xs h.0)
    where
      before : (zs : List A) → All (Before x) (zs ++ a ∷ ys) → Before x a
      before [] k = k.0
      before (z ∷ zs) k = before zs k.1

  -- Inserting the entries of a map in its own order builds the map again.
  foldl-insert-append : (xs ys : List A) → IsAscending (xs ++ ys) → foldl insert xs ys ≡ xs ++ ys
  foldl-insert-append xs [] h = rw append-nil
  foldl-insert-append xs (y ∷ ys) h = rw (
    insert_last xs y ys h,
    foldl-insert-append (xs ++ y ∷ []) ys (rw append_assoc h),
    append_assoc,
  )

  pub foldl-insert : (ys : List A) → IsAscending ys → foldl insert [] ys ≡ ys
  foldl-insert ys h = foldl-insert-append [] ys h
