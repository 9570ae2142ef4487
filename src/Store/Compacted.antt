-- ===== src/Store/Compacted.antt =====
-- Compacting the log of a store (`compact_wal` of crates/mfs-store/src/store/raw.rs).
use mathlib.Core.Path.{subst}
use memory_first_store.Prelude.{
  ℕ, ◌≡◌, refl, ◌∙◌, sym, false, Option, none, some, List, [], ◌∷◌, arith, length, if◌then◌else◌,
}
use memory_first_store.Prelude.Fail.{ok}
use memory_first_store.Maps.{NamedKey, named_keyed}
use memory_first_store.Wal.{RawWalRecord, Crc}
use memory_first_store.Wal.Writer.{RawWalSegmentWriter, written, open_writer, flush, sync_now}
use memory_first_store.Wal.Reopen.{Holds, record_key, last_lsn}
use memory_first_store.Wal.Compaction.{RawWalCompactionStats, compact_raw_wal}
use memory_first_store.Wal.Compaction.Newest.{newest_records}
use memory_first_store.Wal.Compaction.Keeps.{last_of, last_of-newest_records}
use memory_first_store.Wal.Compaction.Compact.{compact_raw_wal-Represents}
use memory_first_store.Store.{RawRecord, MfsStore, StoreDurability}
use memory_first_store.Store.Table.{ConcurrentMap}
use memory_first_store.Store.Durability.{writer_of, with_writer, compact_wal}
use memory_first_store.Store.Applied.{last_record, raw_record}
use memory_first_store.Store.Logged.{Logged}

last_record-last_of :
    (k : NamedKey) (found : Option RawRecord) (rs : List RawWalRecord)
    → last_record k found rs ≡ last_of raw_record k found rs
unfolding last_record last_of
last_record-last_of k found [] = refl
last_record-last_of k found (r ∷ rs) =
    last_record-last_of k (if named_keyed.same (record_key r) k then some (raw_record r) else found)
      rs

last_record-newest_records :
    (k : NamedKey) (rs : List RawWalRecord)
    → last_record k none (newest_records rs) ≡ last_record k none rs
last_record-newest_records k rs =
    rw (last_record-last_of, last_record-last_of k none rs)
      (last_of-newest_records raw_record k none rs)

module _ (c : Crc) (t : ConcurrentMap RawRecord) where
  compact_wal-ok :
      (d : StoreDurability) (w w' : RawWalSegmentWriter) (path file : List ℕ)
      (stats : RawWalCompactionStats)
      → d.wal ≡ some w
      → d.wal_path ≡ some path
      → compact_raw_wal c (some (written w)) ≡ ok (stats, some file)
      → open_writer c (some file) ≡ ok w'
      → compact_wal c d ≡ (with_writer w' false d, ok (some stats))
  unfolding compact_wal sync_now flush
  compact_wal-ok d w w' path file stats in_use has_path compacted opened =
      rw (has_path, compact_wal, in_use, compacted, opened, has_path)

  -- Compacting the log of a store whose memory and log say the same, with a writer in use: it
  -- succeeds with the numbers of records before and after and the last LSN, memory and log still
  -- say the same, and the log holds just the records without a later record of their key.
  pub compact_wal-Logged :
      (s : MfsStore t.Table) (rs : List RawWalRecord) (w : RawWalSegmentWriter) (path : List ℕ)
      → Logged c t s rs
      → s.durability.wal ≡ some w
      → s.durability.wal_path ≡ some path
      → (d' : StoreDurability) × (compact_wal c s.durability ≡ (
        d',
        ok (
            some (record {
              records_before = length rs;
              records_after = length (newest_records rs);
              last_lsn = last_lsn 0 rs;
            })),
      ))
        × Logged c t (record s { durability = d' }) (newest_records rs)
  unfolding writer_of
  compact_wal-Logged s rs w path h in_use has_path =
      let same : h.writer ≡ w = ground (arith, rw in_use at h.opened) in
      let holds : Holds c w rs = subst (λ x. Holds c x rs) same h.holds in
      let (file, w', compacted, frames, opened, represents, _, _) =
        compact_raw_wal-Represents c w rs holds in
      let d' = with_writer w' false s.durability in
      (
        d',
        compact_wal-ok s.durability w w' path file _ in_use has_path compacted opened,
        record {
          writer = w';
          opened = refl;
          holds = represents.holds;
          entries = λ k. h.entries k ∙ sym (last_record-newest_records k rs);
        },
      )
