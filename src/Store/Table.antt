-- ===== src/Store/Table.antt =====
-- What the raw store uses of `ConcurrentMap` (crates/mfs-core/src/concurrent_map.rs), as an
-- interface, and a bounded association list that has it.
use memory_first_store.Prelude.{
  ℕ, ◌≡◌, Bool, true, false, ◌||◌, Option, none, some, List, [], length, ltb, if◌then◌else◌,
}
use memory_first_store.Maps.Distinct.{IsDistinct, distinct, lookup-distinct, distinct-IsDistinct}
use memory_first_store.Maps.{bytes_same, bytes_keyed, lookup, insert, lookup-insert, lookup-nil}

pub data InsertOutcome : Type 0 where
  inserted replaced full : InsertOutcome

abbrev pub is_some {ℓ} : {A : Type ℓ} → Option A → Bool
is_some none = false
is_some (some a) = true

-- A table may be full for a key that it does not hold; then an insert changes nothing.
pub record ConcurrentMap (V : Type 0) : Type 1 where
  pub Table : Type 0
  pub with_capacity : ℕ → Table
  pub get : List ℕ → Table → Option V
  pub can_insert_or_replace : List ℕ → Table → Bool
  pub insert : List ℕ → V → Table → Table × InsertOutcome
  -- What `for_each` visits, in its order: every entry once.
  pub entries : Table → List (List ℕ × V)
  pub lookup-entries : (k : List ℕ) (m : Table) → lookup k (entries m) ≡ get k m
  pub entries-IsDistinct : (m : Table) → IsDistinct (entries m)
  pub get-with_capacity : (n : ℕ) (k : List ℕ) → get k (with_capacity n) ≡ none
  pub insert-full :
      (k : List ℕ) (v : V) (m : Table)
      → can_insert_or_replace k m ≡ false
      → insert k v m ≡ (m, InsertOutcome.full)
  pub insert-fits :
      (k : List ℕ) (v : V) (m : Table)
      → can_insert_or_replace k m ≡ true
      → (insert k v m).1
        ≡ (if is_some (get k m) then InsertOutcome.replaced else InsertOutcome.inserted)
  pub get-insert :
      (k j : List ℕ) (v : V) (m : Table)
      → can_insert_or_replace k m ≡ true
      → get j (insert k v m).0 ≡ (if bytes_same k j then some v else get j m)

-- A capacity and the entries.
abbrev pub Bounded : Type 0 → Type 0
Bounded V = ℕ × List (List ℕ × V)

module _ {V : Type 0} where
  abbrev pub has_room : List ℕ → Bounded V → Bool
  has_room k m = is_some (lookup k m.1) || ltb (length m.1) m.0

  abbrev pub insert_bounded : List ℕ → V → Bounded V → Bounded V × InsertOutcome
  insert_bounded k v m =
      if has_room k m
      then (
        (m.0, insert k v m.1),
        if is_some (lookup k m.1) then InsertOutcome.replaced else InsertOutcome.inserted,
      )
      else (m, InsertOutcome.full)

abbrev pub bounded_map : (V : Type 0) → ConcurrentMap V
bounded_map V = record {
  Table = Bounded V;
  with_capacity = λ n. (n, []);
  get = λ k m. lookup k m.1;
  can_insert_or_replace = has_room;
  insert = insert_bounded;
  entries = λ m. distinct m.1;
  lookup-entries = λ k m. lookup-distinct k m.1;
  entries-IsDistinct = λ m. distinct-IsDistinct m.1;
  get-with_capacity = λ n k. lookup-nil k;
  insert-full = λ k v m h. rw h;
  insert-fits = λ k v m h. rw h;
  get-insert = λ k j v m h. rw h (lookup-insert k j v m.1);
}
