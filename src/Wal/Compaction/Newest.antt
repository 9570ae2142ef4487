-- ===== src/Wal/Compaction/Newest.antt =====
-- The records that the compaction retains are the ones without a later record of their key, in
-- their order.
use memory_first_store.Prelude.{
  length-append, ℕ, ◌+◌, ◌≤◌, ◌≡◌, refl, Bool, false, ◌||◌, some, List, [], ◌∷◌, ◌++◌, arith, map,
  foldl, length, All, get_elem?, if◌then◌else◌, append_assoc, append-nil, Bool-cases, inl, inr,
}
use memory_first_store.Maps.{NamedKey, named_keyed, remove, insert}
use memory_first_store.Wal.{RawWalRecord}
use memory_first_store.Wal.Reopen.{record_key}
use memory_first_store.Wal.Compaction.{newest, insert_sorted, sort, retained}

unfoldable pub has_key : NamedKey → List RawWalRecord → Bool
has_key k [] = false
has_key k (r ∷ rs) = named_keyed.same k (record_key r) || has_key k rs

-- Without the records that a later one of their key replaces.
unfoldable pub newest_records : List RawWalRecord → List RawWalRecord
newest_records [] = []
newest_records (r ∷ rs) =
    let more = newest_records rs in if has_key (record_key r) rs then more else r ∷ more

-- The same with the places of the records.
newest_indexed : ℕ → List RawWalRecord → List (ℕ × RawWalRecord)
newest_indexed i [] = []
newest_indexed i (r ∷ rs) =
    let more = newest_indexed (i + 1) rs in
    if has_key (record_key r) rs then more else (i, r) ∷ more

abbrev rev {ℓ} : {A : Type ℓ} → List A → List A
rev [] = []
rev (x ∷ xs) = rev xs ++ x ∷ []

abbrev pub indices : List (ℕ × RawWalRecord) → List ℕ
indices [] = []
indices (e ∷ es) = e.0 ∷ indices es

abbrev pub records : List (ℕ × RawWalRecord) → List RawWalRecord
records [] = []
records (e ∷ es) = e.1 ∷ records es

-- The entries of a map whose keys no record of a list has.
without : List RawWalRecord → List (NamedKey × ℕ) → List (NamedKey × ℕ)
without [] m = m
without (r ∷ rs) m = without rs (remove (record_key r) m)

abbrev places : List (NamedKey × ℕ) → List ℕ
places m = map (λ e. e.1) m

without-nil : (rs : List RawWalRecord) → without rs [] ≡ []
unfolding without remove
without-nil [] = refl
without-nil (r ∷ rs) = without-nil rs

without-cons :
    (rs : List RawWalRecord) (k : NamedKey) (i : ℕ) (m : List (NamedKey × ℕ))
    → without rs ((k, i) ∷ m) ≡ (if has_key k rs then without rs m else (k, i) ∷ without rs m)
unfolding without has_key remove
without-cons [] k i m = refl
without-cons (r ∷ rs) k i m = elim (Bool-cases (named_keyed.same k (record_key r))) [
  | inl same ↦ rw same
  | inr other ↦ rw (other, without-cons rs k i (remove (record_key r) m))
]

map-append : (xs ys : List (NamedKey × ℕ)) → places (xs ++ ys) ≡ places xs ++ places ys
map-append [] ys = refl
map-append (x ∷ xs) ys = rw (map-append xs ys)

-- The map after the loop, newest first.
newest-places :
    (i : ℕ) (m : List (NamedKey × ℕ)) (rs : List RawWalRecord)
    → places (newest i m rs) ≡ rev (indices (newest_indexed i rs)) ++ places (without rs m)
unfolding newest newest_indexed insert without
newest-places i m [] = refl
newest-places i m (r ∷ rs) =
    rw
      (
        newest-places (i + 1) ((record_key r, i) ∷ remove (record_key r) m) rs,
        without-cons rs (record_key r) i (remove (record_key r) m),
      )
      (elim (Bool-cases (has_key (record_key r) rs)) [
        | inl again ↦ rw again
        | inr last ↦ rw (last, append_assoc)
      ])

-- Numbers in ascending order from a bound.
abbrev Ascends : ℕ → List ℕ → Type 0
Ascends n [] = Unit
Ascends n (x ∷ xs) = (n ≤ x) × Ascends (x + 1) xs

weaken : (m n : ℕ) (xs : List ℕ) → m ≤ n → Ascends n xs → Ascends m xs
weaken m n [] h a = tt
weaken m n (x ∷ xs) h a = (omega (arith, a.0), a.1)

newest_indexed-Ascends :
    (i : ℕ) (rs : List RawWalRecord) → Ascends i (indices (newest_indexed i rs))
unfolding newest_indexed
newest_indexed-Ascends i [] = tt
newest_indexed-Ascends i (r ∷ rs) = elim (Bool-cases (has_key (record_key r) rs)) [
  | inl again ↦ rw again (weaken i (i + 1) _ (omega arith) (newest_indexed-Ascends (i + 1) rs))
  | inr last ↦ rw last (omega arith, newest_indexed-Ascends (i + 1) rs)
]

sort-append :
    (xs ys : List ℕ) (acc : List ℕ)
    → foldl insert_sorted acc (xs ++ ys) ≡ foldl insert_sorted (foldl insert_sorted acc xs) ys
sort-append [] ys acc = refl
sort-append (x ∷ xs) ys acc = sort-append xs ys (insert_sorted acc x)

insert_sorted-first : (x : ℕ) (xs : List ℕ) → Ascends (x + 1) xs → insert_sorted xs x ≡ x ∷ xs
unfolding insert_sorted
insert_sorted-first x [] h = refl
insert_sorted-first x (y ∷ ys) h = ground (arith, h.0)

sort-rev : (n : ℕ) (xs : List ℕ) → Ascends n xs → sort (rev xs) ≡ xs
sort-rev n [] h = refl
sort-rev n (x ∷ xs) h =
    rw (sort-append (rev xs) (x ∷ []) [], sort-rev (x + 1) xs h.1, insert_sorted-first x xs h.1)

records-newest_indexed :
    (i : ℕ) (rs : List RawWalRecord) → records (newest_indexed i rs) ≡ newest_records rs
unfolding newest_indexed newest_records
records-newest_indexed i [] = refl
records-newest_indexed i (r ∷ rs) = elim (Bool-cases (has_key (record_key r) rs)) [
  | inl again ↦ rw again (records-newest_indexed (i + 1) rs)
  | inr last ↦ rw (last, records-newest_indexed (i + 1) rs)
]

-- What stands at the places.
abbrev pub At : List RawWalRecord → ℕ × RawWalRecord → Type 0
At rs e = get_elem? rs e.0 ≡ some e.1

get_elem?-next :
    (pre : List RawWalRecord) (r : RawWalRecord) (rs : List RawWalRecord)
    → get_elem? (pre ++ r ∷ rs) (length pre) ≡ some r
get_elem?-next [] r rs = refl
get_elem?-next (x ∷ pre) r rs = get_elem?-next pre r rs

newest_indexed-At :
    (pre rs : List RawWalRecord) (i : ℕ)
    → i ≡ length pre
    → All (At (pre ++ rs)) (newest_indexed i rs)
unfolding newest_indexed
newest_indexed-At pre [] i h = tt
newest_indexed-At pre (r ∷ rs) i h =
    let split : (pre ++ r ∷ []) ++ rs ≡ pre ++ r ∷ rs = rw append_assoc in
    let more : All (At (pre ++ r ∷ rs)) (newest_indexed (i + 1) rs) =
      rw split at (
        newest_indexed-At (pre ++ r ∷ []) rs (i + 1) (omega (arith, length-append pre (r ∷ [])))) in
    elim (Bool-cases (has_key (record_key r) rs)) [
      | inl again ↦ rw again more
      | inr last ↦ rw last (rw h (get_elem?-next pre r rs), more)
    ]

-- The places that are retained, with their records.
pub retained_lem :
    (rs : List RawWalRecord)
    → (es : List (ℕ × RawWalRecord)) × (retained rs ≡ indices es)
      × (records es ≡ newest_records rs)
      × All (At rs) es
unfolding retained
retained_lem rs =
    let es = newest_indexed 0 rs in
    (
      es,
      rw (newest-places 0 [] rs, without-nil rs, append-nil)
          (sort-rev 0 (indices es) (newest_indexed-Ascends 0 rs)),
      records-newest_indexed 0 rs,
      newest_indexed-At [] rs 0 refl,
    )
