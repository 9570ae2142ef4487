-- ===== src/Wal/Canonical.antt =====
-- The payload of a record that `decode_payload` accepts is the one that `encode_payload` writes for
-- it (crates/mfs-store/src/store/wal.rs).
use mathlib.Core.Path.{subst}
use memory_first_store.Prelude.{
  ℕ, ◌^◌, ◌<◌, ◌≡◌, refl, sym, ◌∙◌, ap, false, not, Option, none, some, List, [], ◌∷◌, ◌++◌, arith,
  ltb→le, append_assoc, append-nil, ◌==◌,
}
use memory_first_store.Prelude.Fail.{ok, >>=-eq-ok, fail_if-eq-ok, >>=-elim, fail_if-elim}
use memory_first_store.Bytes.Words.{
  IsBytes, IsBytes-append, le_bytes, of_le_bytes, of_le_bytes-lt, le_bytes-of_le_bytes,
}
use memory_first_store.Bytes.Readers.{split_exact-eq-ok}
use memory_first_store.Bytes.Utf8.{is_utf8}
use memory_first_store.Wal.{
  Operation, RawWalRecord, op_code, raw_wal_format_version, raw_wal_max_field_bytes,
}
use memory_first_store.Errors.{WalCorruptionKind}
use memory_first_store.Wal.Encode.{
  corrupt, validate_value, write_len_prefixed, encode_op_value, encode_payload,
}
use memory_first_store.Wal.Decode.{
  is_empty, read_exact, read_u8, read_word, read_bytes, decode_op, decode_op_value, decode_payload,
  malformed,
}
use memory_first_store.Wal.Codec.{validate_field_len-ok, FitsFieldLen, FitsOp, FitsRecord}

value_valid :
    (op : Operation) (value : Option (List ℕ)) → FitsOp op value → validate_value value ≡ ok tt
unfolding validate_value
value_valid Operation.put (some value) h = validate_field_len-ok value h
value_valid Operation.put none h = refl
value_valid Operation.delete none h = refl
value_valid Operation.delete (some value) h = absurd h

-- The payload of a record whose value field holds some bytes.
abbrev payload_bytes : RawWalRecord → List ℕ → List ℕ
payload_bytes r bs =
    le_bytes 2 raw_wal_format_version
    ++ (le_bytes 8 r.lsn
        ++ (le_bytes 8 r.version
            ++ (write_len_prefixed r.collection
                ++ (op_code r.op ∷ (write_len_prefixed r.key ++ write_len_prefixed bs)))))

encode_payload-bytes :
    (r : RawWalRecord) (bs : List ℕ)
    → FitsRecord r
    → encode_op_value r.op r.value ≡ ok (write_len_prefixed bs)
    → encode_payload r ≡ ok (payload_bytes r bs)
unfolding encode_payload
encode_payload-bytes r bs h e = rw (
  validate_field_len-ok r.collection h.collection,
  validate_field_len-ok r.key h.key,
  value_valid r.op r.value h.value,
  e,
)

module _ (offset : ℕ) where
  read_word-eq-ok :
      (n : ℕ) (bs : List ℕ) {w : ℕ} {rest : List ℕ}
      → IsBytes bs
      → read_word offset n bs ≡ ok (w, rest)
      → (bs ≡ le_bytes n w ++ rest) × (w < 256 ^ n) × IsBytes rest
  unfolding read_word read_exact
  read_word-eq-ok n bs {w} {rest} h e =
      let (p, got, back) = >>=-eq-ok (read_exact offset n bs) _ e in
      let (split, size) = split_exact-eq-ok (malformed offset) n bs got in
      let (left, right) = IsBytes-append p.0 p.1 (rw split at h) in
      let word : of_le_bytes p.0 ≡ w = ground (arith, back) in
      let tail : p.1 ≡ rest = ground (arith, back) in
      (
        split ∙ rw (← word, ← tail, ← size, le_bytes-of_le_bytes p.0 left),
        rw (← word, ← size) (of_le_bytes-lt p.0 left),
        rw tail at right,
      )

  read_bytes-eq-ok :
      (bs : List ℕ) {xs rest : List ℕ}
      → IsBytes bs
      → read_bytes offset bs ≡ ok (xs, rest)
      → (bs ≡ write_len_prefixed xs ++ rest) × FitsFieldLen xs × IsBytes rest
  unfolding read_bytes write_len_prefixed
  read_bytes-eq-ok bs {xs} {rest} h e =
      let (p, got, back) = >>=-eq-ok (read_word offset 4 bs) _ e in
      let (front, small, bytes) = read_word-eq-ok 4 bs h got in
      let (low, split) = fail_if-eq-ok _ _ _ back in
      let (e', size) = split_exact-eq-ok (malformed offset) p.0 p.1 split in
      (
        front ∙ rw (e', ← size, append_assoc),
        rw size (ltb→le raw_wal_max_field_bytes p.0 low),
        (IsBytes-append xs rest (rw e' at bytes)).1,
      )

  read_u8-eq-ok :
      (bs : List ℕ) {b : ℕ} {rest : List ℕ}
      → IsBytes bs
      → read_u8 offset bs ≡ ok (b, rest)
      → (bs ≡ b ∷ rest) × IsBytes rest
  unfolding read_u8
  read_u8-eq-ok [] h e = cc
  read_u8-eq-ok (x ∷ xs) {b} {rest} h e =
      let tail : xs ≡ rest = ground (arith, e) in (ground (arith, e), rw tail at h.1)

  decode_op-eq-ok : (code : ℕ) {op : Operation} → decode_op offset code ≡ ok op → code ≡ op_code op
  unfolding decode_op
  decode_op-eq-ok code h = ground arith

  decode_op_value-eq-ok :
      (op : Operation) (bs : List ℕ) {value : Option (List ℕ)}
      → FitsFieldLen bs
      → decode_op_value offset op bs ≡ ok value
      → (encode_op_value op value ≡ ok (write_len_prefixed bs)) × FitsOp op value
  unfolding decode_op_value encode_op_value write_len_prefixed
  decode_op_value-eq-ok Operation.put bs {value = none} fits h = cc
  decode_op_value-eq-ok Operation.put bs {value = some x} fits h =
      let e : bs ≡ x = ground (arith, h) in (rw e, rw e at fits)
  decode_op_value-eq-ok Operation.delete [] {value = none} fits h = (rw append-nil, tt)
  decode_op_value-eq-ok Operation.delete [] {value = some x} fits h = cc
  decode_op_value-eq-ok Operation.delete (b ∷ bs) fits h = cc

  is_empty-eq-true : (bs : List ℕ) → not (is_empty bs) ≡ false → bs ≡ []
  is_empty-eq-true [] h = refl
  is_empty-eq-true (b ∷ bs) h = cc

  -- A payload of bytes that `decode_payload` accepts holds a record that fits, and it is the payload
  -- that `encode_payload` writes for that record: there is one encoding for a record.
  pub encode_payload-decode_payload :
      (payload : List ℕ) (r : RawWalRecord)
      → IsBytes payload
      → decode_payload offset payload ≡ ok r
      → FitsRecord r × (encode_payload r ≡ ok payload)
  unfolding decode_payload encode_payload
  encode_payload-decode_payload payload r h e =
      >>=-elim (read_word offset 2 payload) _ e λ p1 g1 e1.
        fail_if-elim (not (p1.0 == raw_wal_format_version))
          (corrupt offset WalCorruptionKind.unknown_format_version) _ e1
          λ format e2. >>=-elim (read_word offset 8 p1.1) _ e2 λ p2 g2 e3.
            >>=-elim (read_word offset 8 p2.1) _ e3 λ p3 g3 e4.
              >>=-elim (read_bytes offset p3.1) _ e4 λ p4 g4 e5.
                fail_if-elim (not (is_utf8 p4.0)) (malformed offset) _ e5 λ text e6.
                  fail_if-elim (is_empty p4.0) (malformed offset) _ e6 λ named e7.
                    >>=-elim (read_u8 offset p4.1) _ e7 λ p5 g5 e8.
                      >>=-elim (decode_op offset p5.0) _ e8 λ op g6 e9.
                        >>=-elim (read_bytes offset p5.1) _ e9 λ p7 g7 e10.
                          >>=-elim (read_bytes offset p7.1) _ e10 λ p8 g8 e11.
                            >>=-elim (decode_op_value offset op p8.0) _ e11 λ value g9 e12.
                              fail_if-elim (not (is_empty p8.1)) (malformed offset) _ e12
                                λ done e13.
                                  let (s1, w1, h1) = read_word-eq-ok 2 payload h g1 in
                                  let (s2, w2, h2) = read_word-eq-ok 8 p1.1 h1 g2 in
                                  let (s3, w3, h3) = read_word-eq-ok 8 p2.1 h2 g3 in
                                  let (s4, f4, h4) = read_bytes-eq-ok p3.1 h3 g4 in
                                  let (s5, h5) = read_u8-eq-ok p4.1 h4 g5 in
                                  let (s7, f7, h7) = read_bytes-eq-ok p5.1 h5 g7 in
                                  let (s8, f8, h8) = read_bytes-eq-ok p7.1 h7 g8 in
                                  let (ev, fv) = decode_op_value-eq-ok op p8.0 f8 g9 in
                                  let r' : RawWalRecord = record {
                                    lsn = p2.0;
                                    version = p3.0;
                                    collection = p4.0;
                                    op = op;
                                    key = p7.0;
                                    value = value;
                                  } in
                                  let fits : FitsRecord r' = record {
                                    lsn = omega (arith, w2);
                                    version = omega (arith, w3);
                                    collection = f4;
                                    text = ground (arith, text);
                                    named = named;
                                    key = f7;
                                    value = fv;
                                  } in
                                  let end = is_empty-eq-true p8.1 done in
                                  let two : p1.0 ≡ 2 = ground (arith, format) in
                                  let bytes : payload ≡ payload_bytes r' p8.0 =
                                    s1
                                    ∙ rw (
                                      two,
                                      s2,
                                      s3,
                                      s4,
                                      s5,
                                      decode_op-eq-ok p5.0 g6,
                                      s7,
                                      s8,
                                      end,
                                      append-nil,
                                    ) in
                                  let same : r' ≡ r = ground (arith, e13) in
                                  let both : FitsRecord r' × (encode_payload r' ≡ ok payload) = (
                                    fits,
                                    encode_payload-bytes r' p8.0 fits ev ∙ ap ok (sym bytes),
                                  ) in
                                  subst (λ x. FitsRecord x × (encode_payload x ≡ ok payload)) same
                                    both
