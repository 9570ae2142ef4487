-- ===== src/Wal/Compaction/Keeps.antt =====
-- What the newest records of a log have in common with the log.
use memory_first_store.Prelude.{
  ℕ, ◌<◌, ◌≡◌, refl, ◌∙◌, true, Option, some, List, [], ◌∷◌, arith, All, if◌then◌else◌, Bool-cases,
  inl, inr,
}
use memory_first_store.Maps.{NamedKey, named_keyed}
use memory_first_store.Wal.{RawWalRecord}
use memory_first_store.Wal.Crash.{IsAscendingFrom}
use memory_first_store.Wal.Reopen.{record_key, last_lsn, last_version}
use memory_first_store.Wal.Compaction.Newest.{has_key, newest_records}

pub All-newest_records {ℓ} :
    (P : RawWalRecord → Type ℓ) (rs : List RawWalRecord) → All P rs → All P (newest_records rs)
unfolding newest_records
All-newest_records P [] h = tt
All-newest_records P (r ∷ rs) h = elim (Bool-cases (has_key (record_key r) rs)) [
  | inl again ↦ rw again (All-newest_records P rs h.1)
  | inr last ↦ rw last (h.0, All-newest_records P rs h.1)
]

ascending_lower :
    (m n : ℕ) (rs : List RawWalRecord) → m < n → IsAscendingFrom n rs → IsAscendingFrom m rs
ascending_lower m n [] h a = tt
ascending_lower m n (r ∷ rs) h a = (omega (arith, a.0), a.1)

pub newest_records-IsAscendingFrom :
    (n : ℕ) (rs : List RawWalRecord) → IsAscendingFrom n rs → IsAscendingFrom n (newest_records rs)
unfolding newest_records
newest_records-IsAscendingFrom n [] h = tt
newest_records-IsAscendingFrom n (r ∷ rs) h = elim (Bool-cases (has_key (record_key r) rs)) [
  | inl again ↦ rw again (newest_records-IsAscendingFrom n rs (ascending_lower n r.lsn rs h.0 h.1))
  | inr last ↦ rw last (h.0, newest_records-IsAscendingFrom r.lsn rs h.1)
]

last_lsn-any :
    (m n : ℕ) (k : NamedKey) (rs : List RawWalRecord)
    → has_key k rs ≡ true
    → last_lsn m rs ≡ last_lsn n rs
unfolding has_key last_lsn
last_lsn-any m n k [] h = cc
last_lsn-any m n k (r ∷ rs) h = refl

pub last_lsn-newest_records :
    (n : ℕ) (rs : List RawWalRecord) → last_lsn n (newest_records rs) ≡ last_lsn n rs
unfolding newest_records last_lsn
last_lsn-newest_records n [] = refl
last_lsn-newest_records n (r ∷ rs) = elim (Bool-cases (has_key (record_key r) rs)) [
  | inl again ↦
      rw again (last_lsn-newest_records n rs ∙ last_lsn-any n r.lsn (record_key r) rs again)
  | inr last ↦ rw last (last_lsn-newest_records r.lsn rs)
]

-- What the last record of a key has.
unfoldable pub last_of {ℓ} :
    {A : Type ℓ} → (RawWalRecord → A) → NamedKey → Option A → List RawWalRecord → Option A
last_of f k found [] = found
last_of f k found (r ∷ rs) =
    last_of f k (if named_keyed.same (record_key r) k then some (f r) else found) rs

module _ {ℓ} {A : Type ℓ} (f : RawWalRecord → A) where
  last_of-any :
      (k : NamedKey) (a b : Option A) (rs : List RawWalRecord)
      → has_key k rs ≡ true
      → last_of f k a rs ≡ last_of f k b rs
  unfolding has_key last_of
  last_of-any k a b [] h = cc
  last_of-any k a b (r ∷ rs) h = elim (Bool-cases (named_keyed.same (record_key r) k)) [
    | inl same ↦ rw same
    | inr other ↦ rw other (
        last_of-any k a b rs (
          ground (
            arith,
            h,
            other,
            named_keyed.same_iff k (record_key r),
            named_keyed.same_iff (record_key r) k,
          )))
  ]

  -- The last record of every key is retained.
  pub last_of-newest_records :
      (k : NamedKey) (found : Option A) (rs : List RawWalRecord)
      → last_of f k found (newest_records rs) ≡ last_of f k found rs
  unfolding newest_records last_of
  last_of-newest_records k found [] = refl
  last_of-newest_records k found (r ∷ rs) = elim (Bool-cases (has_key (record_key r) rs)) [
    | inl again ↦
        rw (again, last_of-newest_records k found rs)
          (elim (Bool-cases (named_keyed.same (record_key r) k)) [
            | inl same ↦
                let at : record_key r ≡ k = (named_keyed.same_iff (record_key r) k).0 same in
                rw same (last_of-any k found (some (f r)) rs (rw at at again))
            | inr other ↦ rw other
          ])
    | inr last ↦ rw last (
        last_of-newest_records k (if named_keyed.same (record_key r) k then some (f r) else found)
          rs)
  ]

last_version-last_of :
    (k : NamedKey) (found : Option ℕ) (rs : List RawWalRecord)
    → last_version k found rs ≡ last_of (λ r. r.version) k found rs
unfolding last_version last_of
last_version-last_of k found [] = refl
last_version-last_of k found (r ∷ rs) =
    last_version-last_of k (if named_keyed.same (record_key r) k then some r.version else found) rs

pub last_version-newest_records :
    (k : NamedKey) (found : Option ℕ) (rs : List RawWalRecord)
    → last_version k found (newest_records rs) ≡ last_version k found rs
last_version-newest_records k found rs =
    rw (last_version-last_of, last_version-last_of k found rs)
      (last_of-newest_records (λ r. r.version) k found rs)
