-- ===== src/Maps/Distinct.antt =====
-- Association lists with one entry for a key.
use memory_first_store.Prelude.{◌≡◌, ◌∙◌, refl, none, List, [], ◌∷◌, Bool-cases, inl, inr}
use memory_first_store.Maps.{Keyed, same_refl, lookup, remove, insert, lookup-remove, lookup-insert}

module _ {ℓ κ} {K : Type ℓ} {V : Type κ} ⦃e : Keyed K⦄ where
  -- No later entry has the key of an earlier one.
  abbrev pub IsDistinct : List (K × V) → Type κ
  IsDistinct [] = Unit {κ}
  IsDistinct (x ∷ m) = (lookup x.0 m ≡ none) × IsDistinct m

  -- The first entry of every key.
  unfoldable pub distinct : List (K × V) → List (K × V)
  distinct [] = []
  distinct (x ∷ m) = insert x.0 x.1 (distinct m)

  remove-IsDistinct : (k : K) (m : List (K × V)) → IsDistinct m → IsDistinct (remove k m)
  unfolding remove
  remove-IsDistinct k [] h = tt
  remove-IsDistinct k ((j, v) ∷ m) h = elim (Bool-cases (e.same j k)) [
    | inl here ↦ rw here (remove-IsDistinct k m h.1)
    | inr other ↦ rw other (
      lookup-remove k j m
          ∙ (elim (Bool-cases (e.same k j)) [ inl same ↦ rw same | inr differs ↦ rw differs h.0 ]),
      remove-IsDistinct k m h.1,
    )
  ]

  pub insert-IsDistinct :
      (k : K) (v : V) (m : List (K × V)) → IsDistinct m → IsDistinct (insert k v m)
  unfolding insert
  insert-IsDistinct k v m h = (rw (lookup-remove k k m, same_refl k), remove-IsDistinct k m h)

  pub distinct-IsDistinct : (m : List (K × V)) → IsDistinct (distinct m)
  unfolding distinct
  distinct-IsDistinct [] = tt
  distinct-IsDistinct (x ∷ m) = insert-IsDistinct x.0 x.1 (distinct m) (distinct-IsDistinct m)

  pub lookup-distinct : (k : K) (m : List (K × V)) → lookup k (distinct m) ≡ lookup k m
  unfolding distinct lookup
  lookup-distinct k [] = refl
  lookup-distinct k (x ∷ m) = rw (lookup-insert x.0 k x.1 (distinct m), lookup-distinct k m)

  -- Taking out a key that is not there.
  pub remove_missing : (k : K) (m : List (K × V)) → lookup k m ≡ none → remove k m ≡ m
  unfolding remove lookup
  remove_missing k [] h = refl
  remove_missing k ((j, v) ∷ m) h = elim (Bool-cases (e.same j k)) [
    | inl here ↦ cc (rw here at h)
    | inr other ↦ rw (other, remove_missing k m (rw other at h))
  ]
