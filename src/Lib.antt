-- ===== src/Lib.antt =====
-- The log, the checkpoints, the values, the raw store, the S3-FIFO cache with its frequency
-- sketch, and the dense lane of memory-first-store, a Rust library of in-memory stores with
-- write-behind durability.
--
-- A raw store keeps collections of keys and versioned values in memory and appends every
-- change to a write-ahead log, a file of frames: a magic number, a length, a payload and a
-- CRC-32C. After a crash the log is scanned up to a torn tail, the tail is cut off, and the
-- records are replayed, into an empty store or into one that was loaded from the latest
-- readable checkpoint of a directory. Values of the typed interface are encoded to bytes by a
-- codec of their own. A count-min sketch with aging estimates how often keys are used, for the
-- admission to a cache. A dense lane is an array of counters, each with a dirty flag for its
-- write-behind.
--
--   * Prelude and its modules: names of the library, Boolean tests, list lemmas, two's
--     complement, the error monad.
--   * Bytes: little-endian words, reading behind a cursor, the loops of the codecs, UTF-8,
--     ordered maps, bit operations.
--   * Value: crates/mfs-store/src/value.rs. Value (types, tag), Value.Encode (encode_value),
--     Value.Decode (decode_value and its readers); Value.Fits and Value.RoundTrip hold the
--     theorems.
--   * Errors: crates/mfs-store/src/store/error.rs, the errors that the modelled parts return.
--   * Maps: HashMap of the standard library. Maps.Distinct: one entry for a key; Maps.Sorting:
--     sort_by.
--   * Checkpoint: crates/mfs-store/src/store/checkpoint.rs, with the snapshots of raw.rs.
--     Checkpoint (types, constants), Checkpoint.Encode (metadata_for_snapshot,
--     encode_checkpoint), Checkpoint.Decode (decode_checkpoint), Checkpoint.Snapshot
--     (raw_snapshot, from_raw_snapshot), Checkpoint.Directory (write_raw_checkpoint_to_dir,
--     load_latest_raw_checkpoint, recover_raw_checkpoint_then_wal). Checkpoint.Fits, Fields,
--     Loops, Payload and File are about the codec, Failures about its errors, Restored,
--     Loading and Loaded about snapshots, Latest about the choice of a checkpoint, Newer and
--     Recovery about recovery.
--   * TinyLfu: crates/mfs-core/src/tiny_lfu.rs. TinyLfu (types, constructors),
--     TinyLfu.Counters (the three layouts), TinyLfu.Sketch (TinyLfu and DoorKeeper).
--     TinyLfu.Nibbles and Values are about the counters, Bounds about indexes, Counts about
--     estimates, Valid and Setup about the invariant.
--   * S3Fifo: crates/mfs-core/src/s3fifo.rs. S3Fifo (types), S3Fifo.Frequency
--     (FrequencySketch), S3Fifo.Evict (evict_to_capacity and what it calls), S3Fifo.Operations
--     (Shard::new, insert, get, remove), S3Fifo.Config (S3FifoConfig), S3Fifo.Cache
--     (S3FifoCache). S3Fifo.Weight, Fits and Steps are about one eviction, Rounds and Loops
--     about evict_to_capacity, Counted, Valid, Kept and Setup about one shard, Calls and
--     Sessions about the cache.
--   * Lane: DenseU64Lane of crates/mfs-core/src/lib.rs. Lane (the operations), Lane.Flush
--     (collecting and cleaning), Lane.Adds (the steps of several threads on one word).
--   * Store: crates/mfs-store/src/store/raw.rs with types.rs, semantics.rs and config.rs.
--     Store (types), Store.Table (what is used of ConcurrentMap), Store.Durability
--     (StoreDurability), Store.Collection (RawCollection), Store.Raw (MfsStore: open_memory,
--     create_raw_collection, put_raw, compare_put_raw, delete_raw, get_raw; write_raw stands
--     for put_raw_with_hooks and delete_raw_with_hooks), Store.Replay (apply_raw_record,
--     replay_into, replay_after of wal.rs). Store.Entries, Store.Applied, Store.Recovery and
--     Store.Rebuild are about replay, Store.Appended and Store.Logged about writes that go to
--     the log, Store.Writes about writes in any mode, Store.Compacted about compact_wal,
--     Store.Synced about sync_wal and wal_dirty.
--   * Wal: crates/mfs-store/src/store/wal.rs. Wal (records, constants), Wal.Encode
--     (encode_payload, emit_encoded), Wal.Decode (decode_payload), Wal.Scan
--     (scan_records_with_offsets, read_records), Wal.Writer (RawWalSegmentWriter). Wal.Codec
--     and Wal.Canonical are about payloads, Wal.Frames about one frame, Wal.Crash about a
--     segment cut at any byte, Wal.Accepted, Wal.Recovery and Wal.Torn about arbitrary bytes,
--     Wal.Reopen, Wal.Append and Wal.Whole about the writer. Wal.Compaction (compact_raw_wal)
--     has Newest, Keeps and Compact for its proofs.
--
-- State is passed explicitly: a file is the list of its bytes, a writer is a record with the
-- file, the bytes that its BufWriter holds, the next LSN and the versions. A cursor into a
-- slice is the list of the bytes behind it. Errors are values of a result type; a panic is
-- none. The numbers are natural numbers, with the wrap-around or saturation of u64 and u32
-- written out.
--
-- The loop of the scan runs on fuel: one round for each byte of the file and one more, which
-- is enough since a record has twelve bytes at least; StoreError.stuck stands for running out,
-- and for an index out of range in the compaction; it is no Rust value. The loops of
-- evict_to_capacity run on fuel: two rounds more than the residents, their references and the
-- cold ones together, which every round but one reduces; the loop that halves the number of
-- shards, on that number.
--
-- The crate crc32c is a parameter (Wal.Crc): two functions that return a u32. Nothing else is
-- assumed of it. The hasher of the S3-FIFO cache and the number of threads of the machine are
-- arguments.
--
-- The table of records of a collection, ConcurrentMap of crates/mfs-core, is an interface with
-- laws (Store.Table.ConcurrentMap): what an insert stores is read back unless the table has no
-- room for the key, and then nothing changes; its iteration visits every entry once. A bounded
-- association list has it. The hook preflight of a write is a parameter; after_success is left
-- out, since it writes only to what its caller passes in. An addition that overflows wraps
-- around, as in a release build.
--
-- Not modelled: I/O errors, the file system below a file's bytes (sync_data, rename, the order
-- in which a directory is read), locks, and threads but for Lane.Adds; the variants of the
-- cache that measure times; the order in which a hash map is iterated; the texts of errors;
-- the parts of the repository outside the files above.
pub mod Prelude
pub mod Bytes
pub mod Value
pub mod Errors
pub mod Maps
pub mod Wal
pub mod Store
pub mod Checkpoint
pub mod TinyLfu
pub mod S3Fifo
pub mod Lane
