-- ===== src/Checkpoint/Tests.antt =====
-- The theorems on checkpoints at a store with one collection and one record.
use mathlib.Core.Path.{subst}
use memory_first_store.Prelude.{
  ℕ, ◌⊎◌, ◌+◌, ◌<◌, ◌≤◌, ◌≡◌, refl, sym, ap, true, none, some, List, [], ◌∷◌, ◌++◌, arith, length,
  take, All,
}
use memory_first_store.Prelude.Fail.{ok, err}
use memory_first_store.Errors.{StoreError, CheckpointCorruptionKind}
use memory_first_store.Maps.{NamedKey, bytes_keyed, bytes_same, lookup}
use memory_first_store.Maps.Distinct.{IsDistinct, distinct}
use memory_first_store.Maps.Sorting.{place, sort_by}
use memory_first_store.Bytes.Ordered.{lex}
use memory_first_store.Wal.{RawWalRecord}
use memory_first_store.Wal.Frames.{FitsFrame}
use memory_first_store.Wal.Crash.{emit_all, whole_records}
use memory_first_store.Wal.Writer.{written}
use memory_first_store.Wal.Reopen.{last_lsn}
use memory_first_store.Wal.Tests.{
  counting, items, two_records, both_fit, both_ascend, both_written, torn,
}
use memory_first_store.Store.{MfsStore, effective_durability}
use memory_first_store.Store.Table.{is_some}
use memory_first_store.Store.Entries.{entry}
use memory_first_store.Store.Applied.{last_record}
use memory_first_store.Store.Recovery.{HasCollection}
use memory_first_store.Store.Logged.{Logged, logged_record, write_raw-Logged}
use memory_first_store.Store.Raw.{default_options, is_wal_mode, validate_store_config}
use memory_first_store.Store.Tests.{small_map, store_program, config, put, put_once, put_log, key_a}
use memory_first_store.Checkpoint.{RawStoreSnapshot, RawCheckpointMetadata, DecodedRawCheckpoint}
use memory_first_store.Checkpoint.Encode.{
  collection_metadata, total_records, metadata_for_snapshot, write_word, write_len_prefixed,
  encode_value, encode_record, encode_all, encode_collection, encode_payload, checkpoint_body,
  checkpoint_file, encode_checkpoint,
}
use memory_first_store.Checkpoint.Decode.{decode_checkpoint, malformed}
use memory_first_store.Checkpoint.Failures.{IsCorruption, decode_checkpoint-eq-err}
use memory_first_store.Checkpoint.Fits.{FitsSnapshot, payload_size}
use memory_first_store.Checkpoint.Payload.{FitsNumbers, written_metadata}
use memory_first_store.Checkpoint.File.{decode_checkpoint-encode_checkpoint, decode_checkpoint-cut}
use memory_first_store.Checkpoint.Snapshot.{snapshot_records, raw_snapshot, from_raw_snapshot}
use memory_first_store.Checkpoint.Loaded.{Overflows, from_raw_snapshot-raw_snapshot}
use memory_first_store.Checkpoint.Directory.{
  Directory, RawRecovery, raw_checkpoint_extension, Best, latest, write_raw_checkpoint_to_dir,
  recover_raw_checkpoint_then_wal,
}
use memory_first_store.Bytes.Utf8.{is_utf8}
use memory_first_store.Checkpoint.Latest.{latest-newest, readable, FoundIn, Covers}
use memory_first_store.Checkpoint.Newer.{newer}
use memory_first_store.Checkpoint.Recovery.{
  RecoveryFails, recover_raw_checkpoint_then_wal-cut, recover_raw_checkpoint_then_wal-Logged,
}

unfoldable checkpoint_program : Unit {0}
unfolding store_program distinct place sort_by lex collection_metadata total_records
    metadata_for_snapshot write_word write_len_prefixed encode_value encode_record encode_all
    encode_collection encode_payload checkpoint_body checkpoint_file encode_checkpoint
    snapshot_records raw_snapshot
checkpoint_program = tt

-- The store after a put of `xy` under `a`.
abbrev store : MfsStore small_map.Table
store = put_once.0

abbrev snapshot : RawStoreSnapshot
snapshot = record {
  collections =
      record {
        name = items;
        records = record { key = key_a; value = some (b'x' ∷ b'y' ∷ []); version = 1 } ∷ [];
      }
      ∷ [];
}

takes_snapshot : raw_snapshot small_map store ≡ snapshot
unfolding checkpoint_program
takes_snapshot = refl

snapshot-FitsSnapshot : FitsSnapshot snapshot
unfolding is_utf8
snapshot-FitsSnapshot = (
  (
    record {
      name = omega arith;
      text = refl;
      named = refl;
      records = (
        record {
          above = omega arith;
          version = omega arith;
          key = omega arith;
          value = omega arith;
        },
        tt,
      );
    },
    tt,
  ),
  omega arith,
)

config-FitsNumbers : (lsn : ℕ) → lsn ≤ 9 → FitsNumbers config lsn
config-FitsNumbers lsn h = (omega arith, omega arith, omega arith)

decode_checkpoint-encode_checkpoint_example :
    (bs : List ℕ) × (encode_checkpoint counting (written_metadata config 1 snapshot) snapshot
      ≡ ok bs)
    × (length bs ≡ 18 + payload_size snapshot)
    × (decode_checkpoint (b'p' ∷ []) counting bs
        ≡ ok (record { metadata = written_metadata config 1 snapshot; snapshot = snapshot }))
decode_checkpoint-encode_checkpoint_example =
    decode_checkpoint-encode_checkpoint counting config 1 snapshot snapshot-FitsSnapshot
      (config-FitsNumbers 1 (omega arith)) (b'p' ∷ [])

-- All but the last of the 88 bytes.
decode_checkpoint-cut_example :
    (bs : List ℕ) × (encode_checkpoint counting (written_metadata config 1 snapshot) snapshot
      ≡ ok bs)
    × (decode_checkpoint (b'p' ∷ []) counting (take 87 bs) ≡ err (malformed (b'p' ∷ [])))
decode_checkpoint-cut_example =
    decode_checkpoint-cut counting config 1 snapshot snapshot-FitsSnapshot
      (config-FitsNumbers 1 (omega arith)) (b'p' ∷ []) 87 (omega arith)

-- Nothing but the header of a log's frame.
abbrev foreign : List ℕ
foreign = take 20 torn

is_foreign :
    decode_checkpoint (b'p' ∷ []) counting foreign
    ≡ err (StoreError.checkpoint_corruption (b'p' ∷ []) CheckpointCorruptionKind.bad_magic)
unfolding store_program decode_checkpoint
is_foreign = refl

decode_checkpoint-eq-err_example :
    IsCorruption
      (b'p' ∷ [])
      (StoreError.checkpoint_corruption (b'p' ∷ []) CheckpointCorruptionKind.bad_magic)
decode_checkpoint-eq-err_example =
    decode_checkpoint-eq-err (b'p' ∷ []) counting foreign
      (StoreError.checkpoint_corruption (b'p' ∷ []) CheckpointCorruptionKind.bad_magic) is_foreign

store-Logged : Logged counting small_map store put_log
store-Logged = subst (λ r. Logged counting small_map r put_log) (sym (ap (λ r. r.0) put.1)) put.2

has_store_items : is_some (lookup items store.collections) ≡ true
unfolding store_program
has_store_items = refl

store-IsDistinct : IsDistinct store.collections
unfolding store_program
store-IsDistinct = (refl, tt)

store_fits : FitsSnapshot (raw_snapshot small_map store)
store_fits = subst FitsSnapshot (sym takes_snapshot) snapshot-FitsSnapshot

few_collections : length store.collections ≤ 4
unfolding store_program
few_collections = omega arith

store-FitsNumbers : (lsn : ℕ) → lsn ≤ 9 → FitsNumbers store.config lsn
unfolding store_program
store-FitsNumbers lsn h = (omega arith, omega arith, omega arith)

config_valid : validate_store_config config ≡ ok tt
unfolding store_program
config_valid = refl

from_raw_snapshot-raw_snapshot_example :
    let taken = raw_snapshot small_map store in
    ((s' : MfsStore small_map.Table) × (from_raw_snapshot small_map config taken none ≡ ok s')
      × ((k : NamedKey) → entry small_map k s' ≡ entry small_map k store)
      × ((name : List ℕ)
          → is_some (lookup name s'.collections) ≡ is_some (lookup name store.collections)))
    ⊎ ((e : StoreError) × (from_raw_snapshot small_map config taken none ≡ err e)
        × Overflows small_map config taken.collections e)
from_raw_snapshot-raw_snapshot_example =
    from_raw_snapshot-raw_snapshot small_map config store none config_valid few_collections
      store-IsDistinct

-- A foreign file beside a name that is not one of a checkpoint.
abbrev files : Directory
files = (b'a' ∷ b'.' ∷ raw_checkpoint_extension, foreign) ∷ (b'b' ∷ [], foreign) ∷ []

latest-newest_example :
    (best : Best) × (latest counting files none ≡ ok best)
    × All (λ f. Covers best (readable counting f)) files
    × ((x : List ℕ × DecodedRawCheckpoint) → best ≡ some x → FoundIn counting files x)
latest-newest_example = latest-newest counting files

-- The frames of a put and a delete.
abbrev two_frames : List ℕ
two_frames = written both_written.0

there : All (HasCollection small_map store) two_records
there = (has_store_items, (has_store_items, tt))

both_framed : emit_all counting two_records ≡ ok two_frames
unfolding store_program
both_framed = refl

recover_raw_checkpoint_then_wal-cut_example :
    let file = take 60 two_frames in
    let kept = newer 1 (whole_records 60 two_records) in
    (dir' : Directory) × (metadata : RawCheckpointMetadata) × (write_raw_checkpoint_to_dir counting
        small_map none store 1
      ≡ ok (dir', metadata))
    × (((r : RawRecovery small_map.Table) × (recover_raw_checkpoint_then_wal counting small_map
              (some dir')
              (some file)
              config
            ≡ ok r)
          × ((key : NamedKey)
              → entry small_map key r.engine ≡ last_record key (entry small_map key store) kept)
          × (r.wal.records ≡ length kept))
        ⊎ ((e : StoreError) × (recover_raw_checkpoint_then_wal counting small_map
                (some dir')
                (some file)
                config
              ≡ err e)
            × RecoveryFails counting small_map config store (some file) kept e))
recover_raw_checkpoint_then_wal-cut_example =
    recover_raw_checkpoint_then_wal-cut counting small_map store 1 none config two_records 60
      two_frames store-IsDistinct store_fits (store-FitsNumbers 1 (omega arith)) tt config_valid
      few_collections both_framed both_fit both_ascend there

abbrev deletion : RawWalRecord
deletion = logged_record counting small_map items key_a none put_log

abbrev stored : small_map.Table
stored = (8, (key_a, record { value = some (b'x' ∷ b'y' ∷ []); version = 1 }) ∷ [])

has_col : lookup items store.collections ≡ some (record { records = stored; record_count = 1 })
unfolding store_program
has_col = refl

has_room_a : small_map.can_insert_or_replace key_a stored ≡ true
unfolding lookup bytes_same
has_room_a = refl

deletion-FitsFrame : FitsFrame deletion
unfolding store_program
deletion-FitsFrame = both_fit.1.0

below_max : last_lsn 0 put_log < 0xffffffffffffffff
unfolding store_program
below_max = omega arith

in_store_mode : is_wal_mode (effective_durability default_options store.config.durability) ≡ true
unfolding store_program
in_store_mode = refl

deleted-Logged :
    (s' : MfsStore small_map.Table) × Logged counting small_map s' (put_log ++ deletion ∷ [])
deleted-Logged =
    let after =
      write_raw-Logged counting small_map store put_log items key_a none default_options
        (record { records = stored; record_count = 1 }) store-Logged has_col refl has_room_a
        in_store_mode deletion-FitsFrame below_max in
    (after.0, after.2)

all_framed : emit_all counting (put_log ++ deletion ∷ []) ≡ ok two_frames
unfolding store_program
all_framed = refl

has_all : All (HasCollection small_map store) (put_log ++ deletion ∷ [])
unfolding store_program
has_all = (refl, (refl, tt))

lsn_one : last_lsn 0 put_log ≡ 1
unfolding store_program
lsn_one = refl

-- A checkpoint after the put, and recovery after a deletion.
recover_raw_checkpoint_then_wal-Logged_example :
    let file = some two_frames in
    (dir' : Directory) × (metadata : RawCheckpointMetadata) × (write_raw_checkpoint_to_dir counting
        small_map none store
        (last_lsn 0 put_log)
      ≡ ok (dir', metadata))
    × (((r : RawRecovery small_map.Table) × (recover_raw_checkpoint_then_wal counting small_map
              (some dir')
              file
              config
            ≡ ok r)
          × ((key : NamedKey) → entry small_map key r.engine ≡ entry small_map key deleted-Logged.0)
          × (r.wal.records ≡ 1))
        ⊎ ((e : StoreError) × (recover_raw_checkpoint_then_wal counting small_map
                (some dir')
                file
                config
              ≡ err e)
            × RecoveryFails counting small_map config store file (deletion ∷ []) e))
recover_raw_checkpoint_then_wal-Logged_example =
    recover_raw_checkpoint_then_wal-Logged counting small_map store deleted-Logged.0 none config
      put_log (deletion ∷ []) two_frames store-Logged deleted-Logged.1 all_framed store-IsDistinct
      store_fits (store-FitsNumbers (last_lsn 0 put_log) (omega (arith, lsn_one))) tt config_valid
      few_collections has_all
