-- ===== src/Store/Tests/Compacting.antt =====
-- Compacting the log of a store after one put.
use memory_first_store.Prelude.{◌≡◌, refl, some, [], ◌∷◌, arith, length, take}
use memory_first_store.Prelude.Fail.{ok}
use memory_first_store.Maps.{bytes_keyed, named_keyed}
use memory_first_store.Wal.Tests.{counting, items, torn, both_fit}
use memory_first_store.Wal.Reopen.{last_lsn}
use memory_first_store.Store.Raw.{default_options, no_preflight}
use memory_first_store.Store.Logged.{Logged}
use memory_first_store.Store.Writes.{write_raw-eq-ok}
use memory_first_store.Wal.Compaction.Newest.{newest_records}
use memory_first_store.Wal.Writer.{RawWalSegmentWriter}
use memory_first_store.Prelude.{◌∙◌}
use memory_first_store.Store.{StoreDurability}
use memory_first_store.Store.Durability.{compact_wal}
use memory_first_store.Store.Compacted.{compact_wal-Logged}
use memory_first_store.Store.Tests.{
  store_program, small_map, with_items, with_items-empty, key_a, value_xy, put_log, put_once, puts,
  acknowledged,
}

-- The store after the put, with its writer.
abbrev put_writer : RawWalSegmentWriter
put_writer = record { file = take 48 torn; buffer = []; next_lsn = 2; record_versions = [] }

put_once-Logged : Logged counting small_map put_once.0 put_log
unfolding store_program
put_once-Logged = record {
  writer = put_writer;
  opened = refl;
  holds = record {
    frames = refl;
    fits = (both_fit.0, tt);
    ascending = (omega arith, tt);
    next = refl;
  };
  entries = λ k.
      (write_raw-eq-ok counting small_map no_preflight with_items put_once.0 items key_a value_xy
          default_options acknowledged puts).1
        k
      ∙ rw (with_items-empty k);
}

put_once-wal : put_once.0.durability.wal ≡ some put_writer
unfolding store_program
put_once-wal = refl

put_once-wal_path : put_once.0.durability.wal_path ≡ some (b'w' ∷ [])
unfolding store_program
put_once-wal_path = refl

compact_wal-Logged_example :
    (d' : StoreDurability) × (compact_wal counting put_once.0.durability ≡ (
      d',
      ok (
          some (record {
            records_before = 1;
            records_after = length (newest_records put_log);
            last_lsn = last_lsn 0 put_log;
          })),
    ))
    × Logged counting small_map (record put_once.0 { durability = d' }) (newest_records put_log)
compact_wal-Logged_example =
    compact_wal-Logged counting small_map put_once.0 put_log put_writer (b'w' ∷ []) put_once-Logged
      put_once-wal put_once-wal_path
