-- ===== src/Bytes/Utf8.antt =====
-- `String::from_utf8`: the well-formed byte sequences of UTF-8, as the standard library accepts
-- them (no overlong forms, no surrogates, nothing above U+10FFFF). A `String` is its bytes.
use memory_first_store.Prelude.{
  ℕ, zero, suc, ◌≡◌, Bool, true, false, ◌&&◌, List, [], ◌∷◌, leb, ltb, if◌then◌else◌, Option, none,
  some, refl,
}

-- What has to follow: `more` further bytes, the next of them in a range.
pub record Pending : Type 0 where
  pub more : ℕ
  pub low : ℕ
  pub high : ℕ

abbrev pub fresh : Pending
fresh = record { more = 0; low = 0; high = 0 }

abbrev awaiting : ℕ → ℕ → ℕ → Option Pending
awaiting more low high = some (record { more = more; low = low; high = high })

-- The first byte of a character fixes its length and the range of the second byte.
first_byte : ℕ → Option Pending
first_byte b =
    if ltb b 0x80
    then some fresh
    else if ltb b 0xc2
    then none
    else if leb b 0xdf
    then awaiting 1 0x80 0xbf
    else if leb b 0xe0
    then awaiting 2 0xa0 0xbf
    else if leb b 0xec
    then awaiting 2 0x80 0xbf
    else if leb b 0xed
    then awaiting 2 0x80 0x9f
    else if leb b 0xef
    then awaiting 2 0x80 0xbf
    else if leb b 0xf0
    then awaiting 3 0x90 0xbf
    else if leb b 0xf3
    then awaiting 3 0x80 0xbf
    else if leb b 0xf4
    then awaiting 3 0x80 0x8f
    else none

later_byte : Pending → ℕ → ℕ → Option Pending
later_byte p zero b = first_byte b
later_byte p (suc m) b = if leb p.low b && leb b p.high then awaiting m 0x80 0xbf else none

utf8_step : Pending → ℕ → Option Pending
utf8_step p b = later_byte p p.more b

utf8_from : Option Pending → List ℕ → Bool
utf8_from none bs = false
utf8_from (some p) [] = leb p.more 0
utf8_from (some p) (b ∷ bs) = utf8_from (utf8_step p b) bs

unfoldable pub is_utf8 : List ℕ → Bool
unfolding first_byte later_byte utf8_step utf8_from
is_utf8 bs = utf8_from (some fresh) bs

is_utf8_runs :
    (is_utf8 (b'h' ∷ 0xc3 ∷ 0xa9 ∷ []) ≡ true)
    × (is_utf8 (0xff ∷ []) ≡ false)
    × (is_utf8 (0xe0 ∷ 0x80 ∷ 0x80 ∷ []) ≡ false)
    × (is_utf8 (0xed ∷ 0xa0 ∷ 0x80 ∷ []) ≡ false)
unfolding is_utf8
is_utf8_runs = (refl, refl, refl, refl)
