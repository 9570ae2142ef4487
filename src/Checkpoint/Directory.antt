-- ===== src/Checkpoint/Directory.antt =====
-- The checkpoints of a directory: writing one, loading the latest, and recovery from it and the log
-- (crates/mfs-store/src/store/checkpoint.rs).
-- A directory is a list of file names and contents, in the order in which it is read; a path is the
-- name of a file in it. Reading and writing files is assumed not to fail.
use memory_first_store.Prelude.{
  ℕ, zero, suc, ◌+◌, ◌/◌, ◌%◌, Bool, true, false, not, Option, none, some, List, [], ◌∷◌, ◌++◌, ltb,
  ◌==◌, if◌then◌else◌,
}
use memory_first_store.Prelude.Fail.{Result, ok, err, ◌>>=◌}
use memory_first_store.Errors.{StoreError}
use memory_first_store.Maps.{bytes_keyed, bytes_same, insert}
use memory_first_store.Wal.{Crc}
use memory_first_store.Wal.Scan.{RawWalReplayStats}
use memory_first_store.Store.{RawRecord, MfsStore, MfsStoreConfig}
use memory_first_store.Store.Table.{ConcurrentMap}
use memory_first_store.Store.Raw.{open_memory}
use memory_first_store.Store.Replay.{replay_after}
use memory_first_store.Checkpoint.{RawCheckpointMetadata, DecodedRawCheckpoint}
use memory_first_store.Checkpoint.Encode.{metadata_for_snapshot, encode_checkpoint}
use memory_first_store.Checkpoint.Decode.{decode_checkpoint}
use memory_first_store.Checkpoint.Snapshot.{raw_snapshot, from_raw_snapshot}

abbrev pub Directory : Type 0
Directory = List (List ℕ × List ℕ)

-- `mfschkp`
abbrev pub raw_checkpoint_extension : List ℕ
raw_checkpoint_extension = b'm' ∷ b'f' ∷ b's' ∷ b'c' ∷ b'h' ∷ b'k' ∷ b'p' ∷ []

-- The lowest `n` decimal digits.
unfoldable pub decimal : ℕ → ℕ → List ℕ
decimal zero w = []
decimal (suc n) w = decimal n (w / 10) ++ (b'0' + w % 10) ∷ []

-- The file's name: `raw-{:020}.mfschkp`. A `u64` has twenty digits at most.
unfoldable pub raw_checkpoint_path : ℕ → List ℕ
raw_checkpoint_path lsn =
    (b'r' ∷ b'a' ∷ b'w' ∷ b'-' ∷ []) ++ (decimal 20 lsn ++ (b'.' ∷ raw_checkpoint_extension))

-- A name around its last dot.
unfoldable pub split_last_dot : List ℕ → Option (List ℕ × List ℕ)
split_last_dot [] = none
split_last_dot (b ∷ bs) = elim (split_last_dot bs) [
  | some (front, behind) ↦ some (b ∷ front, behind)
  | none ↦ if b == b'.' then some ([], bs) else none
]

-- `Path::extension` of a file's name: a dot in front of everything does not count.
unfoldable pub extension : List ℕ → Option (List ℕ)
extension name = elim (split_last_dot name) [
  | none ↦ none
  | some ([], behind) ↦ none
  | some (b ∷ front, behind) ↦ some behind
]

unfoldable pub is_raw_checkpoint_file : List ℕ → Bool
is_raw_checkpoint_file name = elim (extension name) [
  | none ↦ false
  | some behind ↦ bytes_same behind raw_checkpoint_extension
]

pub record RawCheckpointSource : Type 0 where
  pub path : List ℕ
  pub metadata : RawCheckpointMetadata

pub record RawCheckpointLoad (M : Type 0) : Type 0 where
  pub path : List ℕ
  pub metadata : RawCheckpointMetadata
  pub engine : MfsStore M

pub record RawRecovery (M : Type 0) : Type 0 where
  pub engine : MfsStore M
  pub checkpoint : Option RawCheckpointSource
  pub wal : RawWalReplayStats

abbrev pub Best : Type 0
Best = Option (List ℕ × DecodedRawCheckpoint)

-- `is_none_or`: nothing so far, or something older.
unfoldable pub replaces : DecodedRawCheckpoint → Best → Bool
replaces decoded none = true
replaces decoded (some (name, current)) =
    ltb current.metadata.checkpoint_lsn decoded.metadata.checkpoint_lsn

-- A directory that is not there is made.
abbrev pub existing : Option Directory → Directory
existing none = []
existing (some dir) = dir

module _ (c : Crc) where
  -- One round of the loop over the directory.
  unfoldable pub consider : List ℕ × List ℕ → Best → Result StoreError Best
  consider (name, bytes) best =
      if not (is_raw_checkpoint_file name) then ok best else elim (decode_checkpoint name c bytes) [
        | ok decoded ↦ ok (if replaces decoded best then some (name, decoded) else best)
        | err (StoreError.checkpoint_corruption path kind) ↦ ok best
        | err e ↦ err e
      ]

  unfoldable pub latest : Directory → Best → Result StoreError Best
  latest [] best = ok best
  latest (entry ∷ entries) best = do next ← consider entry best; latest entries next

  module _ (t : ConcurrentMap RawRecord) where
    -- The temporary file, its sync and its renaming are one step: the name then holds the bytes.
    unfoldable pub write_raw_checkpoint :
        List ℕ
        → MfsStore t.Table
        → ℕ
        → Directory
        → Result StoreError (Directory × RawCheckpointMetadata)
    write_raw_checkpoint path engine checkpoint_lsn dir =
        let snapshot = raw_snapshot t engine in
        let metadata = metadata_for_snapshot engine.config checkpoint_lsn snapshot in
        do bytes ← encode_checkpoint c metadata snapshot; ok (insert path bytes dir, metadata)

    unfoldable pub write_raw_checkpoint_to_dir :
        Option Directory
        → MfsStore t.Table
        → ℕ
        → Result StoreError (Directory × RawCheckpointMetadata)
    write_raw_checkpoint_to_dir dir engine checkpoint_lsn =
        write_raw_checkpoint (raw_checkpoint_path checkpoint_lsn) engine checkpoint_lsn
          (existing dir)

    -- `file` is what the file at the path of the log holds.
    unfoldable pub load_latest_raw_checkpoint :
        Option Directory
        → MfsStoreConfig
        → Option (List ℕ)
        → Result StoreError (Option (RawCheckpointLoad t.Table))
    load_latest_raw_checkpoint none config file = ok none
    load_latest_raw_checkpoint (some dir) config file = do
      best ← latest dir none
      elim best [
        | none ↦ ok none
        | some (path, decoded) ↦ do
          engine ← from_raw_snapshot t config decoded.snapshot file
          ok (some (record { path = path; metadata = decoded.metadata; engine = engine }))
      ]

    unfoldable pub recover_raw_checkpoint_then_wal :
        Option Directory
        → Option (List ℕ)
        → MfsStoreConfig
        → Result StoreError (RawRecovery t.Table)
    recover_raw_checkpoint_then_wal dir file config = do
      loaded ← load_latest_raw_checkpoint dir config file
      elim loaded [
        | some load ↦ do
          (engine, wal) ← replay_after t c file load.engine load.metadata.checkpoint_lsn
          ok (record {
            engine = engine;
            checkpoint = some (record { path = load.path; metadata = load.metadata });
            wal = wal;
          })
        | none ↦ do
          empty ← open_memory t config file
          (engine, wal) ← replay_after t c file empty 0
          ok (record { engine = engine; checkpoint = none; wal = wal })
      ]
