-- ===== src/TinyLfu.antt =====
-- `TinyLfu`, the frequency estimator of crates/mfs-core/src/tiny_lfu.rs: its types and its setup.
-- The atomics are plain numbers: an operation runs from its beginning to its end. `none` is the
-- panic of an index out of bounds.
pub mod Counters
pub mod Sketch
pub mod Nibbles
pub mod Values
pub mod Bounds
pub mod Counts
pub mod Valid
pub mod Setup
mod Tests
use memory_first_store.Prelude.{
  ℕ, zero, suc, ◌+◌, ◌-◌, ◌*◌, ◌/◌, ◌^◌, Bool, true, false, Option, none, some, List, min, max, leb,
  replicate, if◌then◌else◌,
}

-- `DEPTH`
abbrev pub depth : ℕ
depth = 4

abbrev pub usize_max : ℕ
usize_max = 2 ^ 64 - 1

abbrev pub u8_max : ℕ
u8_max = 255

pub data TinyLfuCounterKind : Type 0 where
  u8 packed_4bit two_counter : TinyLfuCounterKind

-- `Packed4BitCounters`: two counters to a byte.
abbrev pub Packed4BitCounters : Type 0
Packed4BitCounters = List ℕ

pub record DualSketchCounters : Type 0 where
  pub a : Packed4BitCounters
  pub b : Packed4BitCounters
  pub active_is_a : Bool

pub data TinyLfuCounters : Type 0 where
  u8_counters : List ℕ → TinyLfuCounters
  packed_counters : Packed4BitCounters → TinyLfuCounters
  dual_counters : DualSketchCounters → TinyLfuCounters

pub record DoorKeeper : Type 0 where
  pub mask : ℕ
  pub bits : List ℕ

pub record TinyLfu : Type 0 where
  pub width : ℕ
  pub mask : ℕ
  pub sample_size : ℕ
  pub samples : ℕ
  pub counters : TinyLfuCounters
  pub doorkeeper : Option DoorKeeper

-- The least power of two from `p` on that is at least `n`, with so many doublings to go.
unfoldable pub power_from : ℕ → ℕ → ℕ → ℕ
power_from zero p n = 0
power_from (suc more) p n = let next = power_from more (p * 2) n in if leb n p then p else next

-- `usize::next_power_of_two`: 0 if it would be 2 ^ 64, as in a release build.
unfoldable pub next_power_of_two : ℕ → ℕ
next_power_of_two n = power_from 64 1 n

abbrev pub saturating_mul : ℕ → ℕ → ℕ
saturating_mul a b = min (a * b) usize_max

-- `div_ceil(2)`
unfoldable pub new_packed : ℕ → Packed4BitCounters
new_packed counter_len = replicate ((counter_len + 1) / 2) 0

unfoldable pub new_counters : TinyLfuCounterKind → ℕ → TinyLfuCounters
new_counters TinyLfuCounterKind.u8 len = u8_counters (replicate len 0)
new_counters TinyLfuCounterKind.packed_4bit len = packed_counters (new_packed len)
new_counters TinyLfuCounterKind.two_counter len =
    dual_counters (record { a = new_packed len; b = new_packed len; active_is_a = true })

unfoldable pub door_keeper_with_capacity : ℕ → DoorKeeper
door_keeper_with_capacity width =
    let bit_count = max (next_power_of_two (saturating_mul (max width 8) 8)) 64 in
    record { mask = bit_count - 1; bits = replicate (bit_count / 8) 0 }

unfoldable pub with_options : ℕ → ℕ → ℕ → TinyLfuCounterKind → Bool → TinyLfu
with_options capacity min_width sample_size counter_kind doorkeeper_enabled =
    let width =
      max (max (next_power_of_two (saturating_mul (max capacity 16) 4)) 64)
        (next_power_of_two (max min_width 1)) in
    record {
      width = width;
      mask = width - 1;
      sample_size = max sample_size 1;
      samples = 0;
      counters = new_counters counter_kind (saturating_mul width depth);
      doorkeeper = if doorkeeper_enabled then some (door_keeper_with_capacity width) else none;
    }

unfoldable pub with_capacity : ℕ → TinyLfu
with_capacity capacity =
    with_options capacity 64 (max (saturating_mul (max capacity 1) 8) 64) TinyLfuCounterKind.u8
      false

-- The sample size of the constructors that take a floor.
abbrev pub floored_sample_size : ℕ → ℕ → ℕ
floored_sample_size capacity sample_size_floor =
    max (max (saturating_mul (max capacity 1) 8) 64) sample_size_floor

unfoldable pub with_capacity_and_floor : ℕ → ℕ → ℕ → TinyLfu
with_capacity_and_floor capacity min_width sample_size_floor =
    with_options capacity min_width (floored_sample_size capacity sample_size_floor)
      TinyLfuCounterKind.u8 false

unfoldable pub with_packed_4bit : ℕ → ℕ → ℕ → TinyLfu
with_packed_4bit capacity min_width sample_size_floor =
    with_options capacity min_width (floored_sample_size capacity sample_size_floor)
      TinyLfuCounterKind.packed_4bit false

unfoldable pub with_doorkeeper : ℕ → ℕ → ℕ → TinyLfu
with_doorkeeper capacity min_width sample_size_floor =
    with_options capacity min_width (floored_sample_size capacity sample_size_floor)
      TinyLfuCounterKind.u8 true

unfoldable pub with_two_counter_decay : ℕ → ℕ → ℕ → TinyLfu
with_two_counter_decay capacity min_width sample_size_floor =
    with_options capacity min_width (floored_sample_size capacity sample_size_floor)
      TinyLfuCounterKind.two_counter false
