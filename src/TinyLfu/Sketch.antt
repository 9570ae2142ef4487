-- ===== src/TinyLfu/Sketch.antt =====
-- The operations of `TinyLfu` and its `DoorKeeper` (crates/mfs-core/src/tiny_lfu.rs).
use Prim.Native.Nat.{bit_and, bit_or, bit_xor}
use memory_first_store.Prelude.{
  ℕ, zero, suc, ◌+◌, ◌*◌, ◌/◌, ◌%◌, ◌^◌, Bool, true, false, ◌&&◌, not, Option, none, some, map, min,
  leb, ◌==◌, get_elem?, set, if◌then◌else◌,
}
use memory_first_store.Prelude.Fail.Panic.{◌>>=◌}
use memory_first_store.TinyLfu.{DoorKeeper, TinyLfu, depth, u8_max}
use memory_first_store.TinyLfu.Counters.{load, increment_counter, age_counters}

-- On `u64`, with wrapping products.
unfoldable pub mix_tiny_lfu_hash : ℕ → ℕ → ℕ
mix_tiny_lfu_hash hash row =
    let mixed = bit_xor hash (row * 0x9E37_79B9_7F4A_7C15 % 2 ^ 64) in
    let folded = bit_xor mixed (mixed / 2 ^ 33) in
    let multiplied = folded * 0xC2B2_AE3D_27D4_EB4F % 2 ^ 64 in
    bit_xor multiplied (multiplied / 2 ^ 29)

-- `for row in row..row + n`
unfoldable pub for_rows {ℓ} : {S : Type ℓ} → (S → ℕ → Option S) → ℕ → ℕ → S → Option S
for_rows round zero row s = some s
for_rows round (suc n) row s = do s' ← round s row; for_rows round n (row + 1) s'

unfoldable pub door_index : DoorKeeper → ℕ → ℕ → ℕ
door_index d hash row = bit_and (mix_tiny_lfu_hash hash row) d.mask

-- `1_u8 << (bit & 7)`
unfoldable pub bit_mask : ℕ → ℕ
bit_mask bit = 2 ^ bit_and bit 7

-- Whether the bit was set before.
unfoldable pub set_bit : ℕ → DoorKeeper → Option (Bool × DoorKeeper)
set_bit bit d = do
  byte ← get_elem? d.bits (bit / 8)
  some (
    not (bit_and byte (bit_mask bit) == 0),
    record d { bits = set d.bits (bit / 8) (bit_or byte (bit_mask bit)) },
  )

abbrev pub check_row : ℕ → Bool × DoorKeeper → ℕ → Option (Bool × DoorKeeper)
check_row hash (all_present, d) row = do
  (present, d') ← set_bit (door_index d hash row) d
  some (all_present && present, d')

unfoldable pub check_and_set : ℕ → DoorKeeper → Option (Bool × DoorKeeper)
check_and_set hash d = for_rows (check_row hash) depth 0 (true, d)

unfoldable pub clear : DoorKeeper → DoorKeeper
clear d = record d { bits = map (λ byte. 0) d.bits }

unfoldable pub index : TinyLfu → ℕ → ℕ → ℕ
index t hash row = row * t.width + bit_and (mix_tiny_lfu_hash hash row) t.mask

abbrev pub least_of : TinyLfu → ℕ → ℕ → ℕ → Option ℕ
least_of t hash least row = do
  counter ← load t.counters (index t hash row)
  some (min least counter)

unfoldable pub estimate : TinyLfu → ℕ → Option ℕ
estimate t hash = for_rows (least_of t hash) depth 0 u8_max

abbrev pub age_door_keeper : Option DoorKeeper → Option DoorKeeper
age_door_keeper none = none
age_door_keeper (some d) = some (clear d)

unfoldable pub age : TinyLfu → TinyLfu
age t = record t { counters = age_counters t.counters; doorkeeper = age_door_keeper t.doorkeeper }

-- Without other threads the exchange of the count for 0 succeeds.
unfoldable pub record_sample : TinyLfu → TinyLfu
record_sample t =
    let samples = (t.samples + 1) % 2 ^ 64 in
    if leb t.sample_size samples
    then age (record t { samples = 0 })
    else record t { samples = samples }

abbrev pub bump_row : ℕ → TinyLfu → ℕ → Option TinyLfu
bump_row hash t row = do
  counters ← increment_counter t.counters (index t hash row)
  some (record t { counters = counters })

unfoldable pub admit_door : Option DoorKeeper → TinyLfu → ℕ → Option (Bool × TinyLfu)
admit_door none t hash = some (true, t)
admit_door (some d) t hash = do
  (all_present, d') ← check_and_set hash d
  some (all_present, record t { doorkeeper = some d' })

-- Whether the hash is counted: not if the doorkeeper sees it for the first time.
unfoldable pub admit : TinyLfu → ℕ → Option (Bool × TinyLfu)
admit t hash = admit_door t.doorkeeper t hash

unfoldable pub count : Bool → TinyLfu → ℕ → Option TinyLfu
count false t hash = some t
count true t hash = for_rows (bump_row hash) depth 0 t

unfoldable pub increment : TinyLfu → ℕ → Option (TinyLfu × ℕ)
increment t hash = do
  (known, admitted) ← admit t hash
  counted ← count known admitted hash
  let after = record_sample counted
  least ← estimate after hash
  some (after, least)
