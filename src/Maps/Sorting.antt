-- ===== src/Maps/Sorting.antt =====
-- `sort_by` with a byte string for the key, which is stable: an insertion sort.
use Prim.Native.Nat.{Ordering}
use memory_first_store.Prelude.{
  ℕ, suc, ap, ◌≡◌, ◌∙◌, refl, false, List, [], ◌∷◌, arith, length, All, map, inl, inr, ◌⊎◌,
}
use memory_first_store.Bytes.Ordered.{lex, lex_refl}
use memory_first_store.Maps.{bytes_keyed, bytes_same, bytes_same_iff, lookup}
use memory_first_store.Maps.Distinct.{IsDistinct}

module _ {ℓ} {A : Type ℓ} (key : A → List ℕ) where
  -- In front of the first entry that has no smaller key.
  unfoldable pub place : A → List A → List A
  place a [] = a ∷ []
  place a (x ∷ xs) =
      let more = place a xs in
      elim (lex (key x) (key a)) [ Ordering.lt ↦ x ∷ more | _ ↦ a ∷ x ∷ xs ]

  unfoldable pub sort_by : List A → List A
  sort_by [] = []
  sort_by (x ∷ xs) = place x (sort_by xs)

  place-cases :
      (a x : A) (xs : List A)
      → ((place a (x ∷ xs) ≡ x ∷ place a xs) × (lex (key x) (key a) ≡ Ordering.lt))
        ⊎ (place a (x ∷ xs) ≡ a ∷ x ∷ xs)
  unfolding place
  place-cases a x xs = by_order (lex (key x) (key a)) refl
    where
      by_order :
          (o : Ordering)
          → lex (key x) (key a) ≡ o
          → ((place a (x ∷ xs) ≡ x ∷ place a xs) × (lex (key x) (key a) ≡ Ordering.lt))
            ⊎ (place a (x ∷ xs) ≡ a ∷ x ∷ xs)
      by_order Ordering.lt e = inl (rw (e, place), e)
      by_order Ordering.eq e = inr (rw (e, place))
      by_order Ordering.gt e = inr (rw (e, place))

  length-place : (a : A) (xs : List A) → length (place a xs) ≡ suc (length xs)
  unfolding place
  length-place a [] = refl
  length-place a (x ∷ xs) = ground (arith, length-place a xs)

  pub length-sort_by : (xs : List A) → length (sort_by xs) ≡ length xs
  unfolding sort_by
  length-sort_by [] = refl
  length-sort_by (x ∷ xs) = length-place x (sort_by xs) ∙ ap suc (length-sort_by xs)

  All-place {κ} : (P : A → Type κ) (a : A) (xs : List A) → P a → All P xs → All P (place a xs)
  unfolding place
  All-place P a [] p h = (p, tt)
  All-place P a (x ∷ xs) p h = elim (place-cases a x xs) [
    | inl (e, before) ↦ rw e (h.0, All-place P a xs p h.1)
    | inr e ↦ rw e (p, h)
  ]

  pub All-sort_by {κ} : (P : A → Type κ) (xs : List A) → All P xs → All P (sort_by xs)
  unfolding sort_by
  All-sort_by P [] h = tt
  All-sort_by P (x ∷ xs) h = All-place P x (sort_by xs) h.0 (All-sort_by P xs h.1)

  module _ {κ} {V : Type κ} (value : A → V) where
    -- The entries as keys and values.
    abbrev pub pair : A → List ℕ × V
    pair a = (key a, value a)

    lookup-place :
        (k : List ℕ) (a : A) (xs : List A)
        → lookup k (map pair (place a xs)) ≡ lookup k (map pair (a ∷ xs))
    unfolding place lookup
    lookup-place k a [] = refl
    lookup-place k a (x ∷ xs) =
        ground (
          arith,
          lookup-place k a xs,
          bytes_same_iff (key a) k,
          bytes_same_iff (key x) k,
          lex_refl k,
        )

    pub lookup-sort_by :
        (k : List ℕ) (xs : List A) → lookup k (map pair (sort_by xs)) ≡ lookup k (map pair xs)
    unfolding sort_by lookup
    lookup-sort_by k [] = refl
    lookup-sort_by k (x ∷ xs) = lookup-place k x (sort_by xs) ∙ rw (lookup-sort_by k xs)

    place-IsDistinct :
        (a : A) (xs : List A) → IsDistinct (map pair (a ∷ xs)) → IsDistinct (map pair (place a xs))
    unfolding place lookup
    place-IsDistinct a [] h = h
    place-IsDistinct a (x ∷ xs) h = elim (place-cases a x xs) [
      | inl (e, before) ↦
          let other : bytes_same (key a) (key x) ≡ false =
            ground (arith, bytes_same_iff (key a) (key x), lex_refl (key x), before) in
          rw e (
            lookup-place (key x) a xs ∙ rw other h.1.0,
            place-IsDistinct a xs (ground (arith, h.0), h.1.1),
          )
      | inr e ↦ rw e h
    ]

    pub sort_by-IsDistinct :
        (xs : List A) → IsDistinct (map pair xs) → IsDistinct (map pair (sort_by xs))
    unfolding sort_by
    sort_by-IsDistinct [] h = h
    sort_by-IsDistinct (x ∷ xs) h =
        place-IsDistinct x (sort_by xs) (lookup-sort_by (key x) xs ∙ h.0, sort_by-IsDistinct xs h.1)
