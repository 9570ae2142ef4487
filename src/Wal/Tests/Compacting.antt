-- ===== src/Wal/Tests/Compacting.antt =====
-- Compacting a log with a put and a delete of one key.
use memory_first_store.Prelude.{ℕ, ◌≡◌, refl, none, some, List, [], ◌∷◌, length, drop}
use memory_first_store.Prelude.Fail.{ok}
use memory_first_store.Maps.{NamedKey}
use memory_first_store.Wal.Crash.{emit_all}
use memory_first_store.Wal.Writer.{
  RawWalSegmentWriter, open_writer, written, append_record_exact, flush, sync_now,
}
use memory_first_store.Wal.Reopen.{Holds, Represents, last_lsn, last_version}
use memory_first_store.Wal.Compaction.{
  newest, insert_sorted, retained, record_at, append_each, last, retained_lsn, compact_raw_wal,
}
use memory_first_store.Wal.Compaction.Newest.{has_key, newest_records}
use memory_first_store.Wal.Compaction.Compact.{compact_raw_wal-Represents}
use memory_first_store.Wal.Tests.{
  program, counting, second, two_records, both_fit, both_ascend, both_written,
}

compaction : Unit {0}
unfolding program newest insert_sorted retained record_at append_each last retained_lsn
    compact_raw_wal append_record_exact flush sync_now has_key newest_records
compaction = tt

both_written-Holds : Holds counting both_written.0 two_records
unfolding program
both_written-Holds = record { frames = refl; fits = both_fit; ascending = both_ascend; next = refl }

compact_raw_wal-Represents_example :
    (file : List ℕ) × (w' : RawWalSegmentWriter) × (compact_raw_wal counting
        (some (written both_written.0))
      ≡ ok (
        record {
          records_before = 2;
          records_after = length (newest_records two_records);
          last_lsn = last_lsn 0 two_records;
        },
        some file,
      ))
    × (emit_all counting (newest_records two_records) ≡ ok file)
    × (open_writer counting (some file) ≡ ok w')
    × Represents counting w' (newest_records two_records)
    × (w'.next_lsn ≡ both_written.0.next_lsn)
    × ((k : NamedKey)
        → last_version k none (newest_records two_records) ≡ last_version k none two_records)
compact_raw_wal-Represents_example =
    compact_raw_wal-Represents counting both_written.0 two_records both_written-Holds

-- The delete alone is left.
compacts :
    (newest_records two_records ≡ second ∷ [])
    × (compact_raw_wal counting (some (written both_written.0))
        ≡ ok (
          record { records_before = 2; records_after = 1; last_lsn = 2 },
          some (drop 48 (written both_written.0)),
        ))
unfolding compaction
compacts = (refl, refl)
