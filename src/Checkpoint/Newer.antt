-- ===== src/Checkpoint/Newer.antt =====
-- The records of a log above an LSN (`replay_after` of crates/mfs-store/src/store/wal.rs).
use memory_first_store.Prelude.{
  ℕ, ◌≤◌, ◌≡◌, refl, Option, some, List, [], ◌∷◌, ◌++◌, arith, All, ltb, if◌then◌else◌, Bool-cases,
  inl, inr, lt→ltb, le→ltb,
}
use memory_first_store.Maps.{NamedKey, bytes_keyed, named_same}
use memory_first_store.Wal.{RawWalRecord}
use memory_first_store.Wal.Crash.{IsAscendingFrom}
use memory_first_store.Wal.Reopen.{record_key, last_lsn}
use memory_first_store.Store.{RawRecord}
use memory_first_store.Store.Applied.{raw_record, last_record}

-- The records above an LSN.
unfoldable pub newer : ℕ → List RawWalRecord → List RawWalRecord
newer lsn [] = []
newer lsn (r ∷ rs) = let rest = newer lsn rs in if ltb lsn r.lsn then r ∷ rest else rest

pub last_record_append :
    (k : NamedKey) (found : Option RawRecord) (rs more : List RawWalRecord)
    → last_record k found (rs ++ more) ≡ last_record k (last_record k found rs) more
unfolding last_record
last_record_append k found [] more = refl
last_record_append k found (r ∷ rs) more =
    last_record_append k (if named_same (record_key r) k then some (raw_record r) else found) rs
      more

pub All-newer {κ} :
    (P : RawWalRecord → Type κ) (lsn : ℕ) (rs : List RawWalRecord) → All P rs → All P (newer lsn rs)
unfolding newer
All-newer P lsn [] h = tt
All-newer P lsn (r ∷ rs) h = elim (Bool-cases (ltb lsn r.lsn)) [
  | inl above ↦ rw above (h.0, All-newer P lsn rs h.1)
  | inr below ↦ rw below (All-newer P lsn rs h.1)
]

newer-above :
    (lsn n : ℕ) (rs : List RawWalRecord) → lsn ≤ n → IsAscendingFrom n rs → newer lsn rs ≡ rs
unfolding newer
newer-above lsn n [] h a = refl
newer-above lsn n (r ∷ rs) h a =
    rw (lt→ltb lsn r.lsn (omega (arith, a.0)), newer-above lsn r.lsn rs (omega (arith, a.0)) a.1)

le-last_lsn : (n : ℕ) (rs : List RawWalRecord) → IsAscendingFrom n rs → n ≤ last_lsn n rs
unfolding last_lsn
le-last_lsn n [] a = omega arith
le-last_lsn n (r ∷ rs) a = omega (arith, a.0, le-last_lsn r.lsn rs a.1)

-- The records behind the last of the first ones.
pub newer-append :
    (n : ℕ) (rs more : List RawWalRecord)
    → IsAscendingFrom n (rs ++ more)
    → newer (last_lsn n rs) (rs ++ more) ≡ more
unfolding newer last_lsn
newer-append n [] more a = newer-above n n more (omega arith) a
newer-append n (r ∷ rs) more a =
    rw (le→ltb (last_lsn r.lsn rs) r.lsn (le-last_lsn r.lsn rs (ascending_front r.lsn rs more a.1)))
      (newer-append r.lsn rs more a.1)
  where
    ascending_front :
        (m : ℕ) (xs ys : List RawWalRecord) → IsAscendingFrom m (xs ++ ys) → IsAscendingFrom m xs
    ascending_front m [] ys h = tt
    ascending_front m (x ∷ xs) ys h = (h.0, ascending_front x.lsn xs ys h.1)
