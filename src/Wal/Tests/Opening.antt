-- ===== src/Wal/Tests/Opening.antt =====
-- The theorems on the writer of crates/mfs-store/src/store/wal.rs, at a file with a torn tail.
use memory_first_store.Prelude.{
  ℕ, ◌+◌, ◌<◌, ◌≡◌, refl, none, some, List, [], ◌∷◌, ◌++◌, arith, take,
}
use memory_first_store.Prelude.Fail.{ok}
use memory_first_store.Wal.{Operation, RawWalRecord}
use memory_first_store.Wal.Frames.{FitsFrame}
use memory_first_store.Wal.Crash.{whole_records}
use memory_first_store.Wal.Writer.{
  RawWalSegmentWriter, open_writer, append_put, append_delete, written,
}
use memory_first_store.Wal.Torn.{IsTorn}
use memory_first_store.Wal.Crash.{emit_all}
use memory_first_store.Wal.Reopen.{last_lsn, Represents, open_writer-Represents, open_writer-cut}
use memory_first_store.Wal.Append.{following, append_put-Represents, append_delete-Represents}
use memory_first_store.Wal.Tests.{program, counting, items, first, torn, torn-IsBytes, both_fit}

-- What opening the torn file gives.
abbrev torn_writer : RawWalSegmentWriter
torn_writer = record {
  file = take 48 torn;
  buffer = [];
  next_lsn = 2;
  record_versions = ((items, b'a' ∷ []), 1) ∷ [];
}

opens_torn : open_writer counting (some torn) ≡ ok torn_writer
unfolding program
opens_torn = refl

open_writer-Represents_example :
    (rs : List RawWalRecord) × (rest : List ℕ) × (torn ≡ torn_writer.file ++ rest)
    × (emit_all counting rs ≡ ok torn_writer.file)
    × IsTorn counting rest
    × Represents counting torn_writer rs
open_writer-Represents_example =
    open_writer-Represents counting torn torn_writer torn-IsBytes opens_torn

torn_writer-Represents : Represents counting torn_writer (first ∷ [])
unfolding program
torn_writer-Represents = record {
  holds = record {
    frames = refl;
    fits = (both_fit.0, tt);
    ascending = (omega arith, tt);
    next = refl;
  };
  versions = λ k. refl;
}

open_writer-cut_example :
    (w : RawWalSegmentWriter) × (open_writer counting (some (take 20 (written torn_writer))) ≡ ok w)
    × Represents counting w (whole_records 20 (first ∷ []))
open_writer-cut_example =
    open_writer-cut counting torn_writer (first ∷ []) 20 torn_writer-Represents.holds

put_fits : FitsFrame (following items Operation.put (b'a' ∷ []) (some (b'z' ∷ [])) (first ∷ []))
unfolding program
put_fits = record {
  record_fits = record {
    lsn = omega arith;
    version = omega arith;
    collection = omega arith;
    text = refl;
    named = refl;
    key = omega arith;
    value = omega arith;
  };
  payload_fits = omega arith;
}

delete_fits : FitsFrame (following items Operation.delete (b'a' ∷ []) none (first ∷ []))
unfolding program
delete_fits = record {
  record_fits = record {
    lsn = omega arith;
    version = omega arith;
    collection = omega arith;
    text = refl;
    named = refl;
    key = omega arith;
    value = tt;
  };
  payload_fits = omega arith;
}

room : last_lsn 0 (first ∷ []) < 0xffffffffffffffff
unfolding last_lsn
room = omega arith

append_put-Represents_example :
    let (w, lsn) = append_put counting items (b'a' ∷ []) (b'z' ∷ []) torn_writer in
    (lsn ≡ ok (last_lsn 0 (first ∷ []) + 1))
    × Represents counting w (
        first ∷ []
        ++ following items Operation.put (b'a' ∷ []) (some (b'z' ∷ [])) (first ∷ []) ∷ [])
append_put-Represents_example =
    append_put-Represents counting torn_writer (first ∷ []) torn_writer-Represents items (b'a' ∷ [])
      (b'z' ∷ []) put_fits room

append_delete-Represents_example :
    let (w, lsn) = append_delete counting items (b'a' ∷ []) torn_writer in
    (lsn ≡ ok (last_lsn 0 (first ∷ []) + 1))
    × Represents counting w
        (first ∷ [] ++ following items Operation.delete (b'a' ∷ []) none (first ∷ []) ∷ [])
append_delete-Represents_example =
    append_delete-Represents counting torn_writer (first ∷ []) torn_writer-Represents items
      (b'a' ∷ []) delete_fits room
