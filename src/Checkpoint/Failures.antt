-- ===== src/Checkpoint/Failures.antt =====
-- Reading a checkpoint fails only with an error that calls it corrupt
-- (crates/mfs-store/src/store/checkpoint.rs).
use mathlib.Core.Path.{subst}
use memory_first_store.Bytes.Words.{of_le_bytes}
use memory_first_store.Prelude.{
  take, drop, ◌+◌, ℕ, zero, suc, ◌≡◌, refl, Bool, true, false, not, List, [], ◌∷◌, arith, ltb, ◌==◌,
  length, Bool-cases, inl, inr,
}
use memory_first_store.Prelude.Fail.{Result, ok, err, fail_if, ◌>>=◌, ◌>>◌}
use memory_first_store.Bytes.Readers.{split_exact}
use memory_first_store.Bytes.Loops.{read_into}
use memory_first_store.Errors.{StoreError, CheckpointCorruptionKind}
use memory_first_store.Wal.{Crc}
use memory_first_store.Checkpoint.{
  DecodedRawCheckpoint, raw_checkpoint_magic, raw_checkpoint_format_version,
  max_checkpoint_payload_bytes, record_tombstone, record_value,
}
use memory_first_store.Checkpoint.Encode.{checkpoint_corrupt}
use memory_first_store.Checkpoint.Decode.{
  Collections, no_collections, push, read_u8, read_word, read_usize_from_u64, read_bytes,
  validate_count, read_value, read_record, read_collection, read_collections, decode_payload,
  decode_checkpoint,
}

-- An error that says which checkpoint is corrupt, and how.
abbrev pub IsCorruption : List ℕ → StoreError → Type 0
IsCorruption path e = (kind : CheckpointCorruptionKind) × (e ≡ checkpoint_corrupt path kind)

-- A result that is no error, or such an error.
data FailsAsCorrupt {ℓ} (path : List ℕ) {A : Type ℓ} : Result StoreError A → Type ℓ where
  fails :
      (kind : CheckpointCorruptionKind) → FailsAsCorrupt path (err (checkpoint_corrupt path kind))
  passes : (a : A) → FailsAsCorrupt path (ok a)

module _ (path : List ℕ) where
  bind-FailsAsCorrupt {ℓ κ} :
      {A : Type ℓ} {B : Type κ} (m : Result StoreError A) (next : A → Result StoreError B)
      → FailsAsCorrupt path m
      → ((a : A) → FailsAsCorrupt path (next a))
      → FailsAsCorrupt path (m >>= next)
  bind-FailsAsCorrupt _ next (fails kind) k = fails kind
  bind-FailsAsCorrupt _ next (passes a) k = k a

  fail_if-FailsAsCorrupt {ℓ} :
      {B : Type ℓ} (b : Bool) (kind : CheckpointCorruptionKind) (next : Result StoreError B)
      → FailsAsCorrupt path next
      → FailsAsCorrupt path (fail_if b (checkpoint_corrupt path kind) >> next)
  fail_if-FailsAsCorrupt true kind next h = fails kind
  fail_if-FailsAsCorrupt false kind next h = h

  split_exact-FailsAsCorrupt :
      (n : ℕ) (bs : List ℕ)
      → FailsAsCorrupt path
          (split_exact (checkpoint_corrupt path CheckpointCorruptionKind.malformed_checkpoint) n bs)
  unfolding split_exact
  split_exact-FailsAsCorrupt n bs = elim (Bool-cases (ltb (length bs) n)) [
    | inl short ↦ rw short (fails CheckpointCorruptionKind.malformed_checkpoint)
    | inr long ↦ rw long (passes _)
  ]

  read_word-FailsAsCorrupt : (n : ℕ) (bs : List ℕ) → FailsAsCorrupt path (read_word path n bs)
  unfolding read_word
  read_word-FailsAsCorrupt n bs =
      bind-FailsAsCorrupt (split_exact _ n bs) _ (split_exact-FailsAsCorrupt n bs) λ x. (passes _)

  read_usize_from_u64-FailsAsCorrupt :
      (bs : List ℕ) → FailsAsCorrupt path (read_usize_from_u64 path bs)
  unfolding read_usize_from_u64
  read_usize_from_u64-FailsAsCorrupt bs =
      bind-FailsAsCorrupt (read_word path 8 bs) _ (read_word-FailsAsCorrupt 8 bs)
        λ x. fail_if-FailsAsCorrupt _ CheckpointCorruptionKind.field_too_large _ (passes _)

  read_bytes-FailsAsCorrupt : (bs : List ℕ) → FailsAsCorrupt path (read_bytes path bs)
  unfolding read_bytes
  read_bytes-FailsAsCorrupt bs =
      bind-FailsAsCorrupt (read_word path 4 bs) _ (read_word-FailsAsCorrupt 4 bs) λ x.
        fail_if-FailsAsCorrupt _ CheckpointCorruptionKind.field_too_large _
          (split_exact-FailsAsCorrupt x.0 x.1)

  read_u8-FailsAsCorrupt : (bs : List ℕ) → FailsAsCorrupt path (read_u8 path bs)
  unfolding read_u8
  read_u8-FailsAsCorrupt [] = (fails CheckpointCorruptionKind.malformed_checkpoint)
  read_u8-FailsAsCorrupt (b ∷ bs) = (passes _)

  read_value-FailsAsCorrupt :
      (marker : ℕ) (bs : List ℕ) → FailsAsCorrupt path (read_value path marker bs)
  unfolding read_value
  read_value-FailsAsCorrupt marker bs = elim (Bool-cases (marker == record_tombstone)) [
    | inl deleted ↦ rw deleted (passes _)
    | inr other ↦ rw other (elim (Bool-cases (marker == record_value)) [
      | inl value ↦ rw value (
          bind-FailsAsCorrupt (read_bytes path bs) _ (read_bytes-FailsAsCorrupt bs) λ x. (passes _))
      | inr neither ↦ rw neither (fails CheckpointCorruptionKind.malformed_checkpoint)
    ])
  ]

  read_record-FailsAsCorrupt : (bs : List ℕ) → FailsAsCorrupt path (read_record path bs)
  unfolding read_record
  read_record-FailsAsCorrupt bs =
      bind-FailsAsCorrupt (read_word path 8 bs) _ (read_word-FailsAsCorrupt 8 bs) λ version.
        fail_if-FailsAsCorrupt _ CheckpointCorruptionKind.malformed_checkpoint _ (
          bind-FailsAsCorrupt (read_bytes path version.1) _ (read_bytes-FailsAsCorrupt version.1)
            λ key.
              bind-FailsAsCorrupt (read_u8 path key.1) _ (read_u8-FailsAsCorrupt key.1) λ marker.
                bind-FailsAsCorrupt (read_value path marker.0 marker.1) _
                  (read_value-FailsAsCorrupt marker.0 marker.1) λ value. (passes _))

  read_into-FailsAsCorrupt {ℓ κ} :
      {A : Type ℓ} {C : Type κ} (n : ℕ) (read : List ℕ → Result StoreError (A × List ℕ))
      (step : C → A → C) (acc : C) (bs : List ℕ)
      → ((more : List ℕ) → FailsAsCorrupt path (read more))
      → FailsAsCorrupt path (read_into n read step acc bs)
  unfolding read_into
  read_into-FailsAsCorrupt zero read step acc bs h = (passes _)
  read_into-FailsAsCorrupt (suc n) read step acc bs h =
      bind-FailsAsCorrupt (read bs) _ (h bs)
        λ x. read_into-FailsAsCorrupt n read step (step acc x.0) x.1 h

  read_collection-FailsAsCorrupt :
      (record_count : ℕ) (so_far : Collections) (bs : List ℕ)
      → FailsAsCorrupt path (read_collection path record_count so_far bs)
  unfolding read_collection validate_count
  read_collection-FailsAsCorrupt record_count so_far bs =
      let malformed = CheckpointCorruptionKind.malformed_checkpoint in
      bind-FailsAsCorrupt (read_bytes path bs) _ (read_bytes-FailsAsCorrupt bs) λ name.
        fail_if-FailsAsCorrupt _ malformed _ (
          fail_if-FailsAsCorrupt _ malformed _ (
            bind-FailsAsCorrupt (read_usize_from_u64 path name.1) _
              (read_usize_from_u64-FailsAsCorrupt name.1)
              λ count. fail_if-FailsAsCorrupt _ malformed _ (
                fail_if-FailsAsCorrupt _ malformed _ (
                  bind-FailsAsCorrupt (read_into count.0 (read_record path) push [] count.1) _
                    (read_into-FailsAsCorrupt count.0 (read_record path) push [] count.1
                      read_record-FailsAsCorrupt)
                    λ records. (passes _)))))

  read_collections-FailsAsCorrupt :
      (record_count n : ℕ) (so_far : Collections) (bs : List ℕ)
      → FailsAsCorrupt path (read_collections path record_count n so_far bs)
  unfolding read_collections
  read_collections-FailsAsCorrupt record_count zero so_far bs = (passes _)
  read_collections-FailsAsCorrupt record_count (suc n) so_far bs =
      bind-FailsAsCorrupt (read_collection path record_count so_far bs) _
        (read_collection-FailsAsCorrupt record_count so_far bs)
        λ x. read_collections-FailsAsCorrupt record_count n x.0 x.1

  decode_payload-FailsAsCorrupt :
      (version : ℕ) (payload : List ℕ) → FailsAsCorrupt path (decode_payload path version payload)
  unfolding decode_payload validate_count
  decode_payload-FailsAsCorrupt version payload =
      let malformed = CheckpointCorruptionKind.malformed_checkpoint in
      bind-FailsAsCorrupt (read_word path 8 payload) _ (read_word-FailsAsCorrupt 8 payload) λ lsn.
        bind-FailsAsCorrupt (read_usize_from_u64 path lsn.1) _
          (read_usize_from_u64-FailsAsCorrupt lsn.1)
          λ most.
            bind-FailsAsCorrupt (read_usize_from_u64 path most.1) _
              (read_usize_from_u64-FailsAsCorrupt most.1)
              λ capacity.
                bind-FailsAsCorrupt (read_word path 4 capacity.1) _
                  (read_word-FailsAsCorrupt 4 capacity.1)
                  λ count.
                    bind-FailsAsCorrupt (read_usize_from_u64 path count.1) _
                      (read_usize_from_u64-FailsAsCorrupt count.1)
                      λ total. fail_if-FailsAsCorrupt _ malformed _ (
                        fail_if-FailsAsCorrupt _ malformed _ (
                          bind-FailsAsCorrupt
                            (read_collections path total.0 count.0 no_collections total.1) _
                            (read_collections-FailsAsCorrupt total.0 count.0 no_collections total.1)
                            λ all. fail_if-FailsAsCorrupt _ malformed _ (passes _)))

  decode_checkpoint-FailsAsCorrupt :
      (c : Crc) (bs : List ℕ) → FailsAsCorrupt path (decode_checkpoint path c bs)
  unfolding decode_checkpoint
  decode_checkpoint-FailsAsCorrupt c bs =
      let payload_len = of_le_bytes (take 8 (drop 6 bs)) in
      fail_if-FailsAsCorrupt (ltb (length bs) 18) CheckpointCorruptionKind.malformed_checkpoint _ (
        fail_if-FailsAsCorrupt (not (of_le_bytes (take 4 bs) == raw_checkpoint_magic))
          CheckpointCorruptionKind.bad_magic _
          (fail_if-FailsAsCorrupt
            (not (of_le_bytes (take 2 (drop 4 bs)) == raw_checkpoint_format_version))
            CheckpointCorruptionKind.unknown_format_version _
            (fail_if-FailsAsCorrupt (ltb max_checkpoint_payload_bytes payload_len)
              CheckpointCorruptionKind.payload_too_large _
              (fail_if-FailsAsCorrupt (not (length bs == 14 + payload_len + 4))
                CheckpointCorruptionKind.malformed_checkpoint _
                (fail_if-FailsAsCorrupt
                  (not (
                    c.crc32c (take (14 + payload_len) bs)
                    == of_le_bytes (take 4 (drop (14 + payload_len) bs))))
                  CheckpointCorruptionKind.checksum_mismatch _
                  (decode_payload-FailsAsCorrupt (of_le_bytes (take 2 (drop 4 bs)))
                    (take payload_len (drop 14 bs))))))))

  -- Whatever bytes a file holds, reading it as a checkpoint fails only with an error that calls
  -- this file corrupt, the one error that the search for the latest checkpoint passes over.
  pub decode_checkpoint-eq-err :
      (c : Crc) (bs : List ℕ) (e : StoreError)
      → decode_checkpoint path c bs ≡ err e
      → IsCorruption path e
  decode_checkpoint-eq-err c bs e h =
      inverted (subst (FailsAsCorrupt path) h (decode_checkpoint-FailsAsCorrupt c bs)) refl
    where
      inverted :
          {r : Result StoreError DecodedRawCheckpoint}
          → FailsAsCorrupt path r
          → r ≡ err e
          → IsCorruption path e
      inverted (fails kind) h = (kind, ground (arith, h))
      inverted (passes a) h = cc
