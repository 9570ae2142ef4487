-- ===== src/Store/Tests/Syncing.antt =====
-- Appending without a sync, and then syncing.
use memory_first_store.Prelude.{◌≡◌, refl, false, some, [], take}
use memory_first_store.Prelude.Fail.{ok}
use memory_first_store.Wal.Tests.{counting, items, torn}
use memory_first_store.Wal.Writer.{RawWalSegmentWriter, written}
use memory_first_store.Store.{StoreDurability}
use memory_first_store.Store.Durability.{append_raw_wal, sync_wal}
use memory_first_store.Store.Synced.{Honest, append_raw_wal-Honest, sync_wal-Honest}
use memory_first_store.Store.Tests.{store_program, with_items, key_a, value_xy}

new-Honest : Honest with_items.durability
new-Honest = record { in_file = λ w h. cc; clean = λ w h k. cc }

abbrev appended : StoreDurability
appended = (append_raw_wal counting items key_a value_xy 1 false with_items.durability).0

append_raw_wal-Honest_example : Honest appended
append_raw_wal-Honest_example =
    append_raw_wal-Honest counting items key_a value_xy 1 false with_items.durability new-Honest

unsynced-Honest : Honest appended
unsynced-Honest =
    append_raw_wal-Honest counting items key_a value_xy 1 false with_items.durability new-Honest

-- Nothing has reached the file yet.
abbrev appended_writer : RawWalSegmentWriter
appended_writer = record { file = []; buffer = take 48 torn; next_lsn = 2; record_versions = [] }

appended-wal : appended.wal ≡ some appended_writer
unfolding store_program
appended-wal = refl

sync_wal-Honest_example :
    let (d', result) = sync_wal counting appended in
    (result ≡ ok tt)
    × (d'.file ≡ some (written appended_writer))
    × (d'.wal_dirty ≡ false)
    × Honest d'
sync_wal-Honest_example =
    sync_wal-Honest counting appended appended_writer unsynced-Honest appended-wal
