-- ===== src/Wal/Tests.antt =====
-- Runs of the log, and the theorems of crates/mfs-store/src/store/wal.rs at concrete records.
mod Opening
mod Compacting
use memory_first_store.Prelude.{
  Bool, ltb, ◌&&◌, ℕ, ◌+◌, ◌%◌, ◌^◌, ◌<◌, ◌≤◌, ◌≡◌, refl, true, none, some, List, [], ◌∷◌, ◌++◌,
  arith, length, take, drop, All, All-take, All-drop,
}
use memory_first_store.Prelude.Fail.{Result, ok, ◌>>=◌}
use memory_first_store.Errors.{StoreError}
use memory_first_store.Maps.{bytes_same, named_same, lookup, insert, remove}
use memory_first_store.Bytes.Words.{IsByte, IsBytes, le_bytes, of_le_bytes}
use memory_first_store.Bytes.Readers.{split_exact}
use memory_first_store.Bytes.Utf8.{is_utf8}
use memory_first_store.Wal.{Operation, RawWalRecord, Crc}
use memory_first_store.Wal.Encode.{
  validate_field_len, write_len_prefixed, validate_value, encode_op_value, encode_payload, checksum,
  frame, emit_encoded,
}
use memory_first_store.Wal.Decode.{
  read_exact, read_u8, read_word, read_bytes, decode_op, decode_op_value, decode_payload,
}
use memory_first_store.Wal.Codec.{FitsRecord, payload_length, decode_payload-encode_payload}
use memory_first_store.Wal.Canonical.{encode_payload-decode_payload}
use memory_first_store.Wal.Scan.{
  RawWalScan, no_records, next_record, scan_loop, scan_records_with_offsets, read_records, collect,
}
use memory_first_store.Wal.Frames.{FitsFrame}
use memory_first_store.Wal.Crash.{
  emit_all, IsAscendingFrom, whole_records, call_each, scan_after, scan_records_with_offsets-cut,
  read_records-cut,
}
use memory_first_store.Wal.Recovery.{
  scan_records_with_offsets-accepts, scan_records_with_offsets_total,
}
use memory_first_store.Wal.Writer.{
  RawWalSegmentWriter, see, append_state_for_path, next_record_version, open_writer, append_record,
  append_put, append_delete, written,
}
use memory_first_store.Wal.Reopen.{
  last_lsn, last_version, Represents, open_writer-Represents, open_writer-cut,
}

unfoldable pub program : Unit {0}
unfolding lookup insert remove le_bytes of_le_bytes split_exact is_utf8 validate_field_len
    write_len_prefixed validate_value encode_op_value encode_payload checksum frame emit_encoded
    read_exact read_u8 read_word read_bytes decode_op decode_op_value decode_payload next_record
    scan_loop scan_records_with_offsets read_records see append_state_for_path open_writer
    append_record next_record_version bytes_same named_same append_put append_delete emit_all
    whole_records call_each scan_after last_lsn last_version
program = tt

-- A checksum in the place of `crc32c`: the number of bytes.
abbrev pub counting : Crc
counting = record {
  crc32c = λ bs. length bs % 2 ^ 32;
  crc32c_append = λ crc bs. (crc + length bs) % 2 ^ 32;
  crc32c_u32 = λ bs. omega arith;
  crc32c_append_u32 = λ crc bs. omega arith;
}

abbrev pub items : List ℕ
items = b'i' ∷ b't' ∷ []

abbrev pub first : RawWalRecord
first = record {
  lsn = 1;
  version = 1;
  collection = items;
  op = Operation.put;
  key = b'a' ∷ [];
  value = some (b'x' ∷ b'y' ∷ []);
}

abbrev pub second : RawWalRecord
second = record first { lsn = 2; version = 2; op = Operation.delete; value = none }

first-FitsRecord : FitsRecord first
unfolding is_utf8
first-FitsRecord = record {
  lsn = omega arith;
  version = omega arith;
  collection = omega arith;
  text = refl;
  named = refl;
  key = omega arith;
  value = omega arith;
}

second-FitsRecord : FitsRecord second
unfolding is_utf8
second-FitsRecord = record {
  lsn = omega arith;
  version = omega arith;
  collection = omega arith;
  text = refl;
  named = refl;
  key = omega arith;
  value = tt;
}

abbrev pub two_records : List RawWalRecord
two_records = first ∷ second ∷ []

pub both_fit : All FitsFrame two_records
both_fit = (
  record { record_fits = first-FitsRecord; payload_fits = omega arith },
  (record { record_fits = second-FitsRecord; payload_fits = omega arith }, tt),
)

pub both_ascend : IsAscendingFrom 0 two_records
both_ascend = (omega arith, (omega arith, tt))

abbrev empty_writer : RawWalSegmentWriter
empty_writer = record { file = []; buffer = []; next_lsn = 1; record_versions = [] }

opens : open_writer counting none ≡ ok empty_writer
unfolding program
opens = refl

-- The writer after both records: the delete has the LSN and the version that follow the put's.
abbrev pub both_written : RawWalSegmentWriter × Result StoreError ℕ
both_written =
    append_delete counting items (b'a' ∷ [])
      (append_put counting items (b'a' ∷ []) (b'x' ∷ b'y' ∷ []) empty_writer).0

writes_both :
    (both_written.1 ≡ ok 2) × (emit_all counting two_records ≡ ok (written both_written.0))
unfolding program
writes_both = (refl, refl)

reads_both : read_records counting (some (written both_written.0)) ≡ ok two_records
unfolding program
reads_both = refl

-- Forty-nine bytes are the frame of the first record, which is 48 long, and one byte more.
read_records-cut_example :
    (file : List ℕ) × (emit_all counting two_records ≡ ok file)
    × (read_records counting (some (take 49 file)) ≡ ok (whole_records 49 two_records))
read_records-cut_example = read_records-cut counting two_records 49 both_fit both_ascend

cut_keeps_one : whole_records 49 two_records ≡ first ∷ []
unfolding program
cut_keeps_one = refl

scan_records_with_offsets-cut_example :
    (file : List ℕ) × (emit_all counting two_records ≡ ok file)
    × (scan_records_with_offsets counting collect [] (some (take 60 file)) ≡ (do
      s' ← call_each collect [] (whole_records 60 two_records)
      ok (scan_after 0 no_records (whole_records 60 two_records), s')))
scan_records_with_offsets-cut_example =
    scan_records_with_offsets-cut counting collect two_records 60 [] both_fit both_ascend

decode_payload-encode_payload_example :
    (payload : List ℕ) × (encode_payload first ≡ ok payload)
    × (length payload ≡ payload_length first)
    × ((offset : ℕ) → decode_payload offset payload ≡ ok first)
decode_payload-encode_payload_example = decode_payload-encode_payload first first-FitsRecord

-- The frame of the first record with two bytes of a next one behind it.
abbrev pub torn : List ℕ
torn =
    77 ∷ 70 ∷ 83 ∷ 87 ∷ 36 ∷ 0 ∷ 0 ∷ 0 ∷ 2 ∷ 0 ∷ 1 ∷ 0 ∷ 0 ∷ 0 ∷ 0 ∷ 0 ∷ 0 ∷ 0 ∷ 1 ∷ 0 ∷ 0 ∷ 0 ∷ 0
    ∷ 0 ∷ 0 ∷ 0 ∷ 2 ∷ 0 ∷ 0 ∷ 0 ∷ 105 ∷ 116 ∷ 1 ∷ 1 ∷ 0 ∷ 0 ∷ 0 ∷ 97 ∷ 2 ∷ 0 ∷ 0 ∷ 0 ∷ 120 ∷ 121
    ∷ 44 ∷ 0 ∷ 0 ∷ 0 ∷ 77 ∷ 70 ∷ []

are_bytes : List ℕ → Bool
are_bytes [] = true
are_bytes (b ∷ bs) = ltb b 256 && are_bytes bs

are_bytes-IsBytes : (bs : List ℕ) → are_bytes bs ≡ true → IsBytes bs
unfolding are_bytes
are_bytes-IsBytes [] h = tt
are_bytes-IsBytes (b ∷ bs) h = (ground arith, are_bytes-IsBytes bs (ground arith))

pub torn-IsBytes : IsBytes torn
unfolding are_bytes
torn-IsBytes = are_bytes-IsBytes torn refl

scan_torn :
    scan_records_with_offsets counting collect [] (some torn)
    ≡ ok
        (record { stats = record { records = 1; last_lsn = 1 }; last_good_offset = 48 }, first ∷ [])
unfolding program
scan_torn = refl

scan_records_with_offsets-accepts_example :
    (rs : List RawWalRecord) × (emit_all counting rs ≡ ok (take 48 torn))
    × (48 ≤ length torn)
    × All FitsFrame rs
    × IsAscendingFrom 0 rs
    × (call_each collect [] rs ≡ ok (first ∷ []))
    × (scan_after 0 no_records rs
        ≡ record { stats = record { records = 1; last_lsn = 1 }; last_good_offset = 48 })
scan_records_with_offsets-accepts_example =
    scan_records_with_offsets-accepts counting collect [] (first ∷ []) torn
      (record { stats = record { records = 1; last_lsn = 1 }; last_good_offset = 48 }) torn-IsBytes
      scan_torn

scan_records_with_offsets_total_example :
    (r : Result StoreError (RawWalScan × List RawWalRecord)) × (scan_loop counting collect 51 0
        no_records [] torn
      ≡ some r)
    × (scan_records_with_offsets counting collect [] (some torn) ≡ r)
scan_records_with_offsets_total_example = scan_records_with_offsets_total counting collect [] torn

abbrev first_payload : List ℕ
first_payload = take 36 (drop 8 torn)

decodes : decode_payload 0 first_payload ≡ ok first
unfolding program
decodes = refl

encode_payload-decode_payload_example : FitsRecord first × (encode_payload first ≡ ok first_payload)
encode_payload-decode_payload_example =
    encode_payload-decode_payload 0 first_payload first
      (All-take IsByte 36 (drop 8 torn) (All-drop IsByte 8 torn torn-IsBytes)) decodes
