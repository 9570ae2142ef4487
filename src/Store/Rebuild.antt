-- ===== src/Store/Rebuild.antt =====
-- A store that is rebuilt from the log of another one.
use memory_first_store.Prelude.{
  ℕ, ◌⊎◌, inl, inr, ◌≡◌, ◌∙◌, ap, none, some, List, arith, length, take, All, take_of_length-le,
}
use memory_first_store.Prelude.Fail.{ok, err}
use memory_first_store.Errors.{StoreError}
use memory_first_store.Maps.{NamedKey}
use memory_first_store.Wal.{RawWalRecord, Crc}
use memory_first_store.Wal.Scan.{RawWalReplayStats, no_records}
use memory_first_store.Wal.Crash.{emit_all, whole_records, whole_records-all}
use memory_first_store.Wal.Writer.{written}
use memory_first_store.Wal.Whole.{length-emit_all}
use memory_first_store.Store.{RawRecord, MfsStore}
use memory_first_store.Store.Table.{ConcurrentMap}
use memory_first_store.Store.Replay.{replay_into}
use memory_first_store.Store.Entries.{entry}
use memory_first_store.Store.Recovery.{HasCollection, Stops, replay_into-cut}
use memory_first_store.Store.Logged.{Logged}

-- Replay the file of a store whose memory and log say the same, once it holds the frames of all
-- records, into a store that has the collections and no records: the replay succeeds, counts the
-- records, and the new store has exactly the records of the old one, with their versions; or it
-- fails with CollectionCapacityFull for the collection of one of the records, whose table, once the
-- records before it are applied, refuses its key.
pub replay_into-Logged :
    (c : Crc) (t : ConcurrentMap RawRecord) (s fresh : MfsStore t.Table) (rs : List RawWalRecord)
    (file : List ℕ)
    → Logged c t s rs
    → emit_all c rs ≡ ok file
    → All (HasCollection t fresh) rs
    → ((k : NamedKey) → entry t k fresh ≡ none)
    → ((s' : MfsStore t.Table) × (stats : RawWalReplayStats) × (replay_into t c (some file) fresh
          ≡ ok (s', stats))
        × ((k : NamedKey) → entry t k s' ≡ entry t k s)
        × (stats.records ≡ length rs))
      ⊎ ((e : StoreError) × (replay_into t c (some file) fresh ≡ err e)
          × Stops t (fresh, no_records.stats) rs e)
replay_into-Logged c t s fresh rs file h frames there empty =
    let n = length file in
    let all : whole_records n rs ≡ rs =
      whole_records-all n rs (omega (arith, length-emit_all c rs h.holds.fits frames)) in
    let same : written h.writer ≡ file = ground (arith, h.holds.frames, frames) in
    let whole : take n (written h.writer) ≡ file =
      ap (take n) same ∙ take_of_length-le n file (omega arith) in
    elim (replay_into-cut t c h.writer rs n fresh h.holds there) [
      | inl (s', stats, replayed, entries, count) ↦ inl (
        s',
        stats,
        rw whole at replayed,
        λ k. entries k ∙ rw (all, empty k, h.entries k),
        count ∙ ap length all,
      )
      | inr (e, failed, stops) ↦ inr (e, rw whole at failed, rw all at stops)
    ]
