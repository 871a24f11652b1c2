-- ===== src/StickDeadzone.antt =====
-- The dead zone of the sticks: m61/dualsense_hidp_probe/m61_stick_deadzone.c. Its axes are bytes, so
-- none of its sums and products leaves 32 bits.
pub mod Root
pub mod Centre
mod Tests
use ds5dongle.Prelude.{
  ℕ, zero, suc, ◌+◌, ◌-◌, ◌*◌, ◌/◌, ◌^◌, Bool, true, false, ◌||◌, Option, none, some, ltb, leb,
  ◌==◌, if◌then◌else◌, u32, uint32_max,
}
use ds5dongle.Prelude.Int.{ℤ, pos, negsuc, neg, abs, scale, is_negative, sub_ℕ}

-- The first loop of `isqrt_u32`: `bit` above `value` is shifted down, at most so often.
unfoldable pub shrink : ℕ → ℕ → ℕ → ℕ
shrink zero bit value = bit
shrink (suc fuel) bit value =
    let rest = shrink fuel (bit / 4) value in if ltb value bit then rest else bit

-- The second loop: at most so many bits.
unfoldable pub root : ℕ → ℕ → ℕ → ℕ → ℕ
root zero bit value result = result
root (suc fuel) bit value result =
    let fits = leb (result + bit) value in
    let v = if fits then value - (result + bit) else value in
    let r = if fits then result / 2 + bit else result / 2 in
    let rest = root fuel (bit / 4) v r in if bit == 0 then result else rest

-- `isqrt_u32`: 2^30 is shifted to 0 in sixteen rounds.
unfoldable pub isqrt_u32 : ℕ → ℕ
unfolding shrink root
isqrt_u32 value = root 16 (shrink 16 (2 ^ 30) value) value 0

-- `div_round_signed`, for a denominator that is positive: cut towards zero, as C's division is.
abbrev pub div_round_signed : ℤ → ℕ → ℤ
div_round_signed (pos n) d = pos ((n + d / 2) / d)
div_round_signed (negsuc n) d = neg ((suc n + d / 2) / d)

-- `(uint8_t)(clamp_axis(value) + 128)`
abbrev pub clamped_byte : ℤ → ℕ
clamped_byte (pos n) = if ltb 127 n then 255 else n + 128
clamped_byte (negsuc n) = if ltb 127 n then 0 else 127 - n

-- `limit`
abbrev pub limit_of : ℤ → ℕ
limit_of d = if is_negative d then 128 else 127

-- `max_magnitude`: how far the stick can move in its direction.
unfoldable pub max_magnitude : ℤ → ℤ → ℕ → ℕ
max_magnitude dx dy magnitude =
    let by_x = if abs dx == 0 then uint32_max else magnitude * limit_of dx / abs dx in
    let by_y = if abs dy == 0 then uint32_max else magnitude * limit_of dy / abs dy in
    if ltb by_y by_x then by_y else by_x

abbrev pub centre : ℕ × ℕ
centre = (128, 128)

-- The last part: the magnitude behind the dead zone is stretched to its whole range.
unfoldable pub rescale : ℤ → ℤ → ℕ → ℕ → ℕ → ℕ × ℕ
rescale dx dy magnitude deadzone max =
    let out = (magnitude - deadzone) * max / (max - deadzone) in
    (
      clamped_byte (div_round_signed (scale dx out) magnitude),
      clamped_byte (div_round_signed (scale dy out) magnitude),
    )

abbrev pub deadzone_of : ℕ → ℕ
deadzone_of percent = ((if ltb 30 percent then 30 else percent) * 128 + 50) / 100

-- `m61_stick_deadzone_apply`, for pointers that are not NULL: the two axes behind it.
unfoldable pub apply : ℕ → ℕ → ℕ → ℕ × ℕ
apply x y percent =
    let dx = sub_ℕ x 128 in
    let dy = sub_ℕ y 128 in
    let magnitude = isqrt_u32 (abs dx * abs dx + abs dy * abs dy) in
    let deadzone = deadzone_of percent in
    let max = max_magnitude dx dy magnitude in
    if percent == 0
    then (x, y)
    else if leb magnitude deadzone || (magnitude == 0)
    then centre
    else if leb max deadzone
    then centre
    else rescale dx dy magnitude deadzone max
