-- ===== src/TinyLfu/Counters.antt =====
-- The three layouts of the counters (crates/mfs-core/src/tiny_lfu.rs).
use Prim.Native.Nat.{bit_and, bit_or, bit_xor}
use memory_first_store.Prelude.{
  ℕ, ◌+◌, ◌*◌, ◌/◌, ◌^◌, Bool, true, false, Option, some, map, max, ltb, ◌==◌, get_elem?, set,
  if◌then◌else◌,
}
use memory_first_store.Prelude.Fail.Panic.{◌>>=◌}
use memory_first_store.TinyLfu.{
  Packed4BitCounters, DualSketchCounters, TinyLfuCounters, u8_counters, packed_counters,
  dual_counters, u8_max,
}

-- `index & 1 == 0`
unfoldable pub is_even : ℕ → Bool
is_even index = bit_and index 1 == 0

-- One of the two counters of a byte: the low one or the high one.
unfoldable pub nibble : Bool → ℕ → ℕ
nibble true byte = bit_and byte 0x0F
nibble false byte = byte / 2 ^ 4

-- What `Packed4BitCounters::saturating_increment` does to a byte.
unfoldable pub bump_nibble : Bool → ℕ → ℕ
bump_nibble low value =
    let shift = if low then 0 else 4 in
    let mask = 0x0F * 2 ^ shift in
    let current = bit_and value mask / 2 ^ shift in
    if current == 15
    then value
    else bit_or (bit_and value (bit_xor mask 0xFF)) ((current + 1) * 2 ^ shift)

-- What `Packed4BitCounters::age` does to a byte.
unfoldable pub age_byte : ℕ → ℕ
age_byte value =
    let low = bit_and value 0x0F / 2 in let high = value / 2 ^ 4 / 2 * 2 ^ 4 in bit_or low high

-- The free function `saturating_increment`.
unfoldable pub saturating_increment : ℕ → ℕ
saturating_increment current = if ltb current u8_max then current + 1 else current

unfoldable pub load_packed : Packed4BitCounters → ℕ → Option ℕ
load_packed bytes index = do byte ← get_elem? bytes (index / 2); some (nibble (is_even index) byte)

unfoldable pub increment_packed : Packed4BitCounters → ℕ → Option Packed4BitCounters
increment_packed bytes index = do
  byte ← get_elem? bytes (index / 2)
  some (set bytes (index / 2) (bump_nibble (is_even index) byte))

unfoldable pub age_packed : Packed4BitCounters → Packed4BitCounters
age_packed bytes = map age_byte bytes

unfoldable pub load_dual : DualSketchCounters → ℕ → Option ℕ
load_dual d index = do
  a_val ← load_packed d.a index
  b_val ← load_packed d.b index
  some (max a_val b_val)

unfoldable pub increment_dual : DualSketchCounters → ℕ → Option DualSketchCounters
increment_dual d index =
    if d.active_is_a
    then (do a ← increment_packed d.a index; some (record d { a = a }))
    else (do b ← increment_packed d.b index; some (record d { b = b }))

-- The sketch that was not active ages, and becomes the active one.
unfoldable pub age_dual : DualSketchCounters → DualSketchCounters
age_dual d =
    if d.active_is_a
    then record d { b = age_packed d.b; active_is_a = false }
    else record d { a = age_packed d.a; active_is_a = true }

unfoldable pub load : TinyLfuCounters → ℕ → Option ℕ
load (u8_counters counters) index = get_elem? counters index
load (packed_counters counters) index = load_packed counters index
load (dual_counters counters) index = load_dual counters index

unfoldable pub increment_counter : TinyLfuCounters → ℕ → Option TinyLfuCounters
increment_counter (u8_counters counters) index = do
  counter ← get_elem? counters index
  some (u8_counters (set counters index (saturating_increment counter)))
increment_counter (packed_counters counters) index = do
  after ← increment_packed counters index
  some (packed_counters after)
increment_counter (dual_counters counters) index = do
  after ← increment_dual counters index
  some (dual_counters after)

-- `value >> 1` for the 8-bit counters.
unfoldable pub age_counters : TinyLfuCounters → TinyLfuCounters
age_counters (u8_counters counters) = u8_counters (map (λ value. value / 2) counters)
age_counters (packed_counters counters) = packed_counters (age_packed counters)
age_counters (dual_counters counters) = dual_counters (age_dual counters)
