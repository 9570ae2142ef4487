-- ===== src/Store/Tests.antt =====
-- The theorems on the raw store at a store with one collection.
mod Syncing
mod Compacting
use memory_first_store.Prelude.{
  ◌==◌, ℕ, ◌+◌, ◌<◌, ◌≡◌, refl, ◌⊎◌, inl, inr, true, false, Option, none, some, List, [], ◌∷◌, ◌++◌,
  arith, All, length, take, Bool-cases, if◌then◌else◌,
}
use memory_first_store.Prelude.Fail.{Result, ok, err, ◌>>=◌}
use memory_first_store.Errors.{StoreError}
use memory_first_store.Maps.{
  NamedKey, bytes_keyed, named_keyed, bytes_same, named_same, lookup, insert, lookup-insert,
  lookup-nil,
}
use memory_first_store.Maps.Distinct.{distinct, lookup-distinct, distinct-IsDistinct}
use memory_first_store.Wal.{RawWalRecord}
use memory_first_store.Wal.Tests.{program, counting, items, torn, both_fit}
use memory_first_store.Wal.Scan.{RawWalReplayStats, no_records}
use memory_first_store.Wal.Frames.{FitsFrame}
use memory_first_store.Wal.Crash.{emit_all, whole_records}
use memory_first_store.Wal.Writer.{
  written, append_put_versioned, append_delete_versioned, flush, sync_now,
}
use memory_first_store.Wal.Reopen.{last_lsn}
use memory_first_store.Store.{
  DurabilityMode, WriteOptions, WriteAcknowledgement, WriteResult, RawRecord, MfsStore,
  MfsStoreConfig, effective_durability, ack_lsn,
}
use memory_first_store.Store.Table.{bounded_map, ConcurrentMap, InsertOutcome, is_some}
use memory_first_store.Store.Durability.{
  new_durability, writer_of, append_value, append_raw_wal, acknowledge_write,
}
use memory_first_store.Store.Collection.{
  insert_replay_record_locked, collection_with_capacity, admit, write_with_hooks, next_version,
  version_of, next_count, read_result, get,
}
use memory_first_store.Store.Raw.{
  is_wal_mode, validate_store_config, open_memory, create_raw_collection, raw_collection, write_raw,
  put_raw, get_raw, default_options, no_preflight,
}
use memory_first_store.Store.Replay.{
  replay_into, replay_record, apply_raw_record, ensure_raw_collection, replayed_value,
  apply_raw_replay_record,
}
use memory_first_store.Store.Entries.{entry}
use memory_first_store.Store.Applied.{last_record}
use memory_first_store.Store.Recovery.{HasCollection, Stops, replay_into-cut}
use memory_first_store.Store.Logged.{Logged, logged_record, write_raw-Logged}
use memory_first_store.Store.Appended.{ack_of, syncs}
use memory_first_store.Store.Writes.{write_raw-eq-ok, write_raw-eq-err, write_raw-conflict}
use memory_first_store.Wal.Compaction.Newest.{newest_records}
use memory_first_store.Wal.Writer.{RawWalSegmentWriter}
use memory_first_store.Prelude.{◌∙◌}
use memory_first_store.Store.{StoreDurability}
use memory_first_store.Store.Durability.{compact_wal}
use memory_first_store.Store.Compacted.{compact_wal-Logged}
use memory_first_store.Store.Rebuild.{replay_into-Logged}

-- Tables that take as many keys as their capacity.
abbrev pub small_map : ConcurrentMap RawRecord
small_map = bounded_map RawRecord

unfoldable pub store_program : Unit {0}
unfolding program new_durability collection_with_capacity validate_store_config is_wal_mode
    open_memory create_raw_collection effective_durability ack_lsn writer_of append_value
    append_raw_wal acknowledge_write append_put_versioned append_delete_versioned flush sync_now
    admit write_with_hooks next_count raw_collection write_raw put_raw read_result get get_raw
    last_record replay_into replay_record apply_raw_record ensure_raw_collection replayed_value
    apply_raw_replay_record insert_replay_record_locked
store_program = tt

abbrev pub config : MfsStoreConfig
config = record {
  max_collections = 4;
  raw_initial_capacity = 8;
  durability = DurabilityMode.wal_sync;
  wal_path = some (b'w' ∷ []);
}

abbrev pub with_items : MfsStore small_map.Table
with_items = record {
  config = config;
  durability = record { wal_path = some (b'w' ∷ []); wal = none; wal_dirty = false; file = none };
  collections = (items, record { records = (8, []); record_count = 0 }) ∷ [];
  next_collection_id = 2;
}

opens_store :
    (do s ← open_memory small_map config none; create_raw_collection small_map items s)
    ≡ ok (with_items, 1)
unfolding store_program
opens_store = refl

pub with_items-empty : (k : NamedKey) → entry small_map k with_items ≡ none
unfolding lookup
with_items-empty k = elim (Bool-cases (bytes_same items k.0)) [
  | inl here ↦ rw here
  | inr other ↦ rw other
]

pub with_items-Logged : Logged counting small_map with_items []
unfolding store_program
with_items-Logged = record {
  writer = record { file = []; buffer = []; next_lsn = 1; record_versions = [] };
  opened = refl;
  holds = record { frames = refl; fits = tt; ascending = tt; next = refl };
  entries = with_items-empty;
}

abbrev pub key_a : List ℕ
key_a = b'a' ∷ []

abbrev pub value_xy : Option (List ℕ)
value_xy = some (b'x' ∷ b'y' ∷ [])

pub put_fits : FitsFrame (logged_record counting small_map items key_a value_xy [])
unfolding store_program
put_fits = both_fit.0

has_items :
    lookup items with_items.collections ≡ some (record { records = (8, []); record_count = 0 })
unfolding store_program
has_items = refl

below : last_lsn 0 [] < 0xffffffffffffffff
unfolding last_lsn
below = omega arith

abbrev pub Put : Type 0
Put =
    (s' : MfsStore small_map.Table) × (write_raw small_map counting items key_a value_xy
        default_options no_preflight with_items
      ≡ (
        s',
        ok (record {
          version = next_version (version_of (last_record (items, key_a) none []));
          lsn = some (last_lsn 0 [] + 1);
          acknowledgement =
              ack_of (effective_durability default_options DurabilityMode.wal_sync)
                (last_lsn 0 [] + 1);
        }),
      ))
    × Logged counting small_map s'
        ([] ++ logged_record counting small_map items key_a value_xy [] ∷ [])
    × ((syncs (effective_durability default_options DurabilityMode.wal_sync) ≡ false)
        ⊎ ((file : List ℕ) × (s'.durability.file ≡ some file)
            × (emit_all counting
                  ([] ++ logged_record counting small_map items key_a value_xy [] ∷ [])
                ≡ ok file)))

pub in_mode : is_wal_mode (effective_durability default_options DurabilityMode.wal_sync) ≡ true
unfolding store_program
in_mode = refl

has_room_a : small_map.can_insert_or_replace key_a (8, []) ≡ true
unfolding lookup
has_room_a = refl

write_raw-Logged_example : Put
write_raw-Logged_example =
    write_raw-Logged counting small_map with_items [] items key_a value_xy default_options
      (record { records = (8, []); record_count = 0 }) with_items-Logged has_items refl has_room_a
      in_mode put_fits below

pub put : Put
put =
    write_raw-Logged counting small_map with_items [] items key_a value_xy default_options
      (record { records = (8, []); record_count = 0 }) with_items-Logged has_items refl has_room_a
      in_mode put_fits below

abbrev pub put_log : List RawWalRecord
put_log = [] ++ logged_record counting small_map items key_a value_xy [] ∷ []

pub put_frames : emit_all counting put_log ≡ ok (take 48 torn)
unfolding store_program
put_frames = refl

pub put_collections : All (HasCollection small_map with_items) put_log
unfolding store_program
put_collections = (refl, tt)

-- The store after the put, and its log replayed into a store without records.
replay_into-Logged_example :
    ((s' : MfsStore small_map.Table) × (stats : RawWalReplayStats) × (replay_into small_map counting
          (some (take 48 torn))
          with_items
        ≡ ok (s', stats))
      × ((k : NamedKey) → entry small_map k s' ≡ entry small_map k put.0)
      × (stats.records ≡ 1))
    ⊎ ((e : StoreError) × (replay_into small_map counting (some (take 48 torn)) with_items ≡ err e)
        × Stops small_map (with_items, no_records.stats) put_log e)
replay_into-Logged_example =
    replay_into-Logged counting small_map put.0 with_items put_log (take 48 torn) put.2 put_frames
      put_collections with_items-empty

-- The same log, cut in its frame.
replay_into-cut_example :
    let file = take 30 (written put.2.writer) in
    ((s' : MfsStore small_map.Table) × (stats : RawWalReplayStats) × (replay_into small_map counting
          (some file)
          with_items
        ≡ ok (s', stats))
      × ((key : NamedKey)
          → entry small_map key s'
            ≡ last_record key (entry small_map key with_items) (whole_records 30 put_log))
      × (stats.records ≡ length (whole_records 30 put_log)))
    ⊎ ((e : StoreError) × (replay_into small_map counting (some file) with_items ≡ err e)
        × Stops small_map (with_items, no_records.stats) (whole_records 30 put_log) e)
replay_into-cut_example =
    replay_into-cut small_map counting put.2.writer put_log 30 with_items put.2.holds
      put_collections

-- Replay the log into a table with room, and into one without.
abbrev outcome_at : ℕ → Result StoreError ℕ
outcome_at capacity = do
  (after, stats) ← replay_into small_map counting (some (take 48 torn)) (record with_items {
    collections = (items, record { records = (capacity, []); record_count = 0 }) ∷ [];
  })
  ok stats.records

replays : outcome_at 1 ≡ ok 1
unfolding store_program
replays = refl

replays_full : outcome_at 0 ≡ err (StoreError.collection_capacity_full items)
unfolding store_program
replays_full = refl

abbrev pub acknowledged : WriteResult
acknowledged = record {
  version = 1;
  lsn = some 1;
  acknowledgement = WriteAcknowledgement.wal_synced 1;
}

-- What the put gives.
abbrev pub put_once : MfsStore small_map.Table × Result StoreError WriteResult
put_once = write_raw small_map counting items key_a value_xy default_options no_preflight with_items

pub puts : put_once ≡ (put_once.0, ok acknowledged)
unfolding store_program
puts = refl

gets :
    get_raw small_map items key_a put_once.0
    ≡ ok (some (record { value = b'x' ∷ b'y' ∷ []; version = 1 }))
unfolding store_program
gets = refl

write_raw-eq-ok_example :
    (1 ≡ next_version (version_of (entry small_map (items, key_a) with_items)))
    × ((k : NamedKey)
        → entry small_map k put_once.0 ≡ (
            if named_same (items, key_a) k
            then some (record { value = value_xy; version = 1 })
            else entry small_map k with_items))
write_raw-eq-ok_example =
    write_raw-eq-ok counting small_map no_preflight with_items put_once.0 items key_a value_xy
      default_options acknowledged puts

abbrev expecting : WriteOptions
expecting = record default_options { expected_version = some 7 }

-- A put that expects a version that the key does not have.
abbrev refused : MfsStore small_map.Table × Result StoreError WriteResult
refused = write_raw small_map counting items key_a value_xy expecting no_preflight with_items

refuses : refused ≡ (refused.0, err (StoreError.conflict items key_a 7 0))
unfolding store_program
refuses = refl

write_raw-eq-err_example :
    entry small_map (items, key_a) refused.0 ≡ entry small_map (items, key_a) with_items
write_raw-eq-err_example =
    write_raw-eq-err counting small_map no_preflight with_items refused.0 items key_a value_xy
      expecting (StoreError.conflict items key_a 7 0) refuses (items, key_a)

there : is_some (lookup items with_items.collections) ≡ true
unfolding store_program
there = refl

differs : (7 == version_of (entry small_map (items, key_a) with_items)) ≡ false
unfolding store_program
differs = refl

write_raw-conflict_example :
    let (s', result) =
      write_raw small_map counting items key_a value_xy expecting no_preflight with_items in
    (result
      ≡ err (
          StoreError.conflict items key_a 7
            (version_of (entry small_map (items, key_a) with_items))))
    × (s'.durability ≡ with_items.durability)
    × ((k : NamedKey) → entry small_map k s' ≡ entry small_map k with_items)
write_raw-conflict_example =
    write_raw-conflict counting small_map no_preflight with_items items key_a value_xy expecting 7
      there refl differs
