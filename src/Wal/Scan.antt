-- ===== src/Wal/Scan.antt =====
-- `scan_records_with_offsets` of crates/mfs-store/src/store/wal.rs, over the bytes of a segment.
-- Reading the file is assumed not to fail; a file that is not there is `none`.
use memory_first_store.Prelude.{
  ℕ, zero, suc, ◌≡◌, true, false, ◌+◌, not, Option, none, some, List, [], ◌∷◌, ◌++◌, length, take,
  drop, ltb, leb, ◌==◌, if◌then◌else◌,
}
use memory_first_store.Prelude.Fail.{Result, ok, err, ◌>>=◌}
use memory_first_store.Bytes.Words.{of_le_bytes}
use memory_first_store.Errors.{StoreError, WalCorruptionKind}
use memory_first_store.Wal.{
  RawWalRecord, Crc, raw_wal_record_magic, raw_wal_max_payload_bytes, header_len, checksum_len,
}
use memory_first_store.Wal.Encode.{corrupt, checksum}
use memory_first_store.Wal.Decode.{decode_payload}

pub record RawWalReplayStats : Type 0 where
  pub records : ℕ
  pub last_lsn : ℕ

pub record RawWalScan : Type 0 where
  pub stats : RawWalReplayStats
  pub last_good_offset : ℕ

abbrev pub no_records : RawWalScan
no_records = record { stats = record { records = 0; last_lsn = 0 }; last_good_offset = 0 }

-- What the loop finds at its offset: the end of what can be read, or a record and the bytes
-- behind it.
pub data Found : Type 0 where
  finished : Found
  found : RawWalRecord → ℕ → List ℕ → Found

-- The callback of `read_records`.
abbrev pub collect : List RawWalRecord → RawWalRecord → Result StoreError (List RawWalRecord)
collect records r = ok (records ++ r ∷ [])

module _ (c : Crc) where
  -- One round up to `decode_payload`. The list is the file from `record_start` on, so
  -- `total_len - record_start` is its length.
  unfoldable pub next_record : ℕ → List ℕ → Result StoreError Found
  next_record record_start bs =
      if ltb (length bs) header_len
      then ok finished
      else let payload_len = of_le_bytes (take 4 (drop 4 bs)) in
        let record_len = header_len + payload_len + checksum_len in
        let payload = take payload_len (drop 8 bs) in
        let stored_crc = of_le_bytes (take 4 (drop payload_len (drop 8 bs))) in
        if not (of_le_bytes (take 4 bs) == raw_wal_record_magic)
        then err (corrupt record_start WalCorruptionKind.bad_magic)
        else if ltb (length bs) record_len
        then ok finished
        else if ltb raw_wal_max_payload_bytes payload_len
        then err (corrupt record_start WalCorruptionKind.payload_too_large)
        else if not (checksum c payload == stored_crc)
        then (if record_len == length bs
            then ok finished
            else err (corrupt record_start WalCorruptionKind.checksum_mismatch))
        else do
          r ← decode_payload record_start payload
          ok (found r record_len (drop record_len bs))

  module _ {ℓ} {S : Type ℓ} (on_record : S → RawWalRecord → Result StoreError S) where
    -- The loop. `none` means that the fuel ran out.
    unfoldable pub scan_loop :
        ℕ → ℕ → RawWalScan → S → List ℕ → Option (Result StoreError (RawWalScan × S))
    scan_loop zero record_start scan s bs = none
    scan_loop (suc fuel) record_start scan s bs = elim (next_record record_start bs) [
      | err e ↦ some (err e)
      | ok finished ↦ some (ok (scan, s))
      | ok (found r record_len rest) ↦
          let record_end = record_start + record_len in
          let scan' : RawWalScan = record {
            stats = record { records = scan.stats.records + 1; last_lsn = r.lsn };
            last_good_offset = record_end;
          } in
          elim (leb r.lsn scan.stats.last_lsn) [
            | true ↦ some (err (corrupt record_start WalCorruptionKind.non_monotonic_lsn))
            | false ↦ elim (on_record s r) [
              | err e ↦ some (err e)
              | ok s' ↦ scan_loop fuel record_end scan' s' rest
            ]
          ]
    ]

    module _ (fuel record_start : ℕ) (scan : RawWalScan) (s : S) (bs : List ℕ) where
      pub scan_loop-finished :
          next_record record_start bs ≡ ok finished
          → scan_loop (suc fuel) record_start scan s bs ≡ some (ok (scan, s))
      unfolding scan_loop
      scan_loop-finished e = rw (e, scan_loop)

      module _ {r : RawWalRecord} {len : ℕ} {rest : List ℕ}
          (here : next_record record_start bs ≡ ok (found r len rest))
          (above : leb r.lsn scan.stats.last_lsn ≡ false) where
        pub scan_loop-failed :
            {e : StoreError}
            → on_record s r ≡ err e
            → scan_loop (suc fuel) record_start scan s bs ≡ some (err e)
        unfolding scan_loop
        scan_loop-failed failed = rw (here, scan_loop, above, failed)

        pub scan_loop-found :
            {s' : S}
            → on_record s r ≡ ok s'
            → scan_loop (suc fuel) record_start scan s bs
              ≡ scan_loop fuel
                  (record_start + len)
                  (record {
                    stats = record { records = scan.stats.records + 1; last_lsn = r.lsn };
                    last_good_offset = record_start + len;
                  })
                  s'
                  rest
        unfolding scan_loop
        scan_loop-found passed = rw (here, scan_loop, above, passed)

    or_stuck : Option (Result StoreError (RawWalScan × S)) → Result StoreError (RawWalScan × S)
    or_stuck none = err StoreError.stuck
    or_stuck (some r) = r

    -- Every round takes twelve bytes at least, so a round for each byte is enough.
    unfoldable pub scan_records_with_offsets :
        S → Option (List ℕ) → Result StoreError (RawWalScan × S)
    unfolding or_stuck
    scan_records_with_offsets s none = ok (no_records, s)
    scan_records_with_offsets s (some bs) = or_stuck (scan_loop (suc (length bs)) 0 no_records s bs)

  unfoldable pub read_records : Option (List ℕ) → Result StoreError (List RawWalRecord)
  read_records file = do (scan, records) ← scan_records_with_offsets collect [] file; ok records
