-- ===== src/Maps.antt =====
-- `HashMap` as an association list with one entry for a key, over keys with a decided equality.
-- The order of the entries stands for the order that the table happens to have.
pub mod Distinct
pub mod Sorting
use memory_first_store.Prelude.{
  ℕ, ◌≡◌, refl, ◌↔◌, Bool, true, false, ◌&&◌, Option, none, some, List, [], ◌∷◌, arith, ◌==◌,
  if◌then◌else◌,
}

pub record Keyed {κ} (K : Type κ) : Type κ where
  pub same : K → K → Bool
  pub same_iff : (j k : K) → (same j k ≡ true) ↔ (j ≡ k)

unfoldable pub bytes_same : List ℕ → List ℕ → Bool
bytes_same [] [] = true
bytes_same (a ∷ as') (b ∷ bs) = a == b && bytes_same as' bs
bytes_same _ _ = false

pub bytes_same_iff : (a b : List ℕ) → (bytes_same a b ≡ true) ↔ (a ≡ b)
unfolding bytes_same
bytes_same_iff [] [] = ground arith
bytes_same_iff [] (b ∷ bs) = ground arith
bytes_same_iff (a ∷ as') [] = ground arith
bytes_same_iff (a ∷ as') (b ∷ bs) = ground (arith, bytes_same_iff as' bs)

instance abbrev pub bytes_keyed : Keyed (List ℕ)
bytes_keyed = record { same = bytes_same; same_iff = bytes_same_iff }

-- A collection and a key.
abbrev pub NamedKey : Type 0
NamedKey = List ℕ × List ℕ

unfoldable pub named_same : NamedKey → NamedKey → Bool
named_same a b = bytes_same a.0 b.0 && bytes_same a.1 b.1

pub named_same_iff : (a b : NamedKey) → (named_same a b ≡ true) ↔ (a ≡ b)
unfolding named_same
named_same_iff a b = ground (arith, bytes_same_iff a.0 b.0, bytes_same_iff a.1 b.1)

instance abbrev pub named_keyed : Keyed NamedKey
named_keyed = record { same = named_same; same_iff = named_same_iff }

pub same_refl {ℓ} : {K : Type ℓ} ⦃e : Keyed K⦄ (k : K) → e.same k k ≡ true
same_refl ⦃e⦄ k = (e.same_iff k k).1 refl

module _ {ℓ κ} {K : Type ℓ} {V : Type κ} ⦃e : Keyed K⦄ where
  unfoldable pub lookup : K → List (K × V) → Option V
  lookup k [] = none
  lookup k ((j, v) ∷ m) = if e.same j k then some v else lookup k m

  unfoldable pub remove : K → List (K × V) → List (K × V)
  remove k [] = []
  remove k ((j, v) ∷ m) = let rest = remove k m in if e.same j k then rest else (j, v) ∷ rest

  unfoldable pub insert : K → V → List (K × V) → List (K × V)
  insert k v m = (k, v) ∷ remove k m

  pub lookup-remove :
      (k j : K) (m : List (K × V))
      → lookup j (remove k m) ≡ (if e.same k j then none else lookup j m)
  unfolding lookup remove
  lookup-remove k j [] = ground arith
  lookup-remove k j ((i, v) ∷ m) =
      ground (arith, e.same_iff i k, e.same_iff i j, e.same_iff k j, lookup-remove k j m)

  pub lookup-insert :
      (k j : K) (v : V) (m : List (K × V))
      → lookup j (insert k v m) ≡ (if e.same k j then some v else lookup j m)
  unfolding lookup insert
  lookup-insert k j v m = ground (arith, lookup-remove k j m)

  pub lookup-nil : (k : K) → lookup k [] ≡ none
  unfolding lookup
  lookup-nil k = refl
