-- ===== src/Value/Tests.antt =====
-- The tests of crates/mfs-store/src/value.rs, and the theorems at concrete values.
use memory_first_store.Prelude.{
  ℕ, ◌≡◌, refl, some, List, [], ◌∷◌, ◌++◌, arith, length, leb, if◌then◌else◌,
}
use memory_first_store.Prelude.Fail.{ok, err}
use memory_first_store.Prelude.Int.{negsuc}
use memory_first_store.Bytes.Words.{le_bytes, of_le_bytes}
use memory_first_store.Bytes.Readers.{split_exact}
use memory_first_store.Bytes.Loops.{encode_each, read_into}
use Prim.Native.Nat.{Ordering}
use memory_first_store.Bytes.Ordered.{lex, insert}
use memory_first_store.Bytes.Utf8.{is_utf8}
use memory_first_store.Value.{MfsValue, tag, tag_byte, max_encoded_value_bytes}
use memory_first_store.Value.Encode.{
  encode_len, encode_bytes, encode_field, encode_items, encode_content, encode_value,
}
use memory_first_store.Value.Decode.{
  DecodeError, read_u8, read_exact, read_len, read_count, read_bytes, read_field, read_string,
  read_items, read_content, at_end, decode_value,
}
use memory_first_store.Value.RoundTrip.{decode_value-encode_value, decode_value-trailing}

program : Unit {0}
unfolding lex insert le_bytes of_le_bytes split_exact encode_each read_into is_utf8 tag tag_byte
    encode_len encode_bytes encode_field encode_items encode_content encode_value read_u8 read_exact
    read_len read_count read_bytes read_field read_string read_items read_content at_end
    decode_value
program = tt

-- `decoder_rejects_malformed_payloads`
rejects :
    (decode_value [] ≡ err DecodeError.tag_truncated)
    × (decode_value (255 ∷ []) ≡ err DecodeError.unknown_tag)
    × (decode_value (1 ∷ 10 ∷ 0 ∷ 0 ∷ 0 ∷ b'a' ∷ []) ≡ err DecodeError.bytes_truncated)
    × (decode_value (1 ∷ 1 ∷ 0 ∷ 0 ∷ 0 ∷ 0xff ∷ []) ≡ err DecodeError.invalid_utf8)
unfolding program
rejects = (refl, refl, refl, refl)

-- `decoder_rejects_oversized_lengths_before_allocating`
rejects_lengths :
    (decode_value (3 ∷ 255 ∷ 255 ∷ 255 ∷ 255 ∷ []) ≡ err DecodeError.item_limit)
    × (decode_value (0 ∷ 255 ∷ 255 ∷ 255 ∷ 255 ∷ []) ≡ err DecodeError.byte_field_limit)
unfolding program
rejects_lengths = (refl, refl)

abbrev person : MfsValue
person = MfsValue.hash ((b'i' ∷ b'd' ∷ [], 7 ∷ []) ∷ (b'n' ∷ [], b'A' ∷ b'd' ∷ b'a' ∷ []) ∷ [])

before : lex (b'i' ∷ b'd' ∷ []) (b'n' ∷ []) ≡ Ordering.lt
unfolding lex
before = refl

decode_value-encode_value_example :
    (bs : List ℕ) × (encode_value person ≡ some bs)
    × (decode_value bs ≡ (
        if leb (length bs) max_encoded_value_bytes
        then ok person
        else err DecodeError.payload_limit))
decode_value-encode_value_example = decode_value-encode_value person (
  (omega arith, ((omega arith, omega arith), ((omega arith, omega arith), tt))),
  ((before, tt), (tt, tt)),
)

decode_value-trailing_example :
    (bs : List ℕ) × (encode_value (MfsValue.integer (negsuc 41)) ≡ some bs)
    × (decode_value (bs ++ 0 ∷ [])
        ≡ err (
            if leb (length (bs ++ 0 ∷ [])) max_encoded_value_bytes
            then DecodeError.trailing_bytes
            else DecodeError.payload_limit))
decode_value-trailing_example =
    decode_value-trailing (MfsValue.integer (negsuc 41)) 0 [] (omega arith)
