-- ===== src/Gamepad/Input.antt =====
-- The input report that the host reads: `make_payload_from_state` of m61_usb_gamepad.c.
pub mod Echo
mod Tests
use ds5dongle.Prelude.{
  ℕ, ◌+◌, ◌^◌, Bool, List, [], ◌∷◌, set, leb, if◌then◌else◌, bit_and, bit_or, has_bits,
}
use ds5dongle.Parser.{
  State, button_square, button_cross, button_circle, button_triangle, button_l1, button_r1,
  button_l2, button_r2, button_create, button_options, button_l3, button_r3, button_ps,
  button_touchpad, button_mute,
}
use ds5dongle.StickDeadzone

-- `ds5_idle_payload`
abbrev pub idle_payload : List ℕ
idle_payload =
    0x7f ∷ 0x7d ∷ 0x7f ∷ 0x7e ∷ 0 ∷ 0 ∷ 0xa7 ∷ 0x08 ∷ 0 ∷ 0 ∷ 0 ∷ 0x52 ∷ 0x43 ∷ 0x30 ∷ 0x41 ∷ 0x01
    ∷ 0 ∷ 0x0e ∷ 0 ∷ 0xef ∷ 0xff ∷ 0x03 ∷ 0x03 ∷ 0x7b ∷ 0x1b ∷ 0x18 ∷ 0xf0 ∷ 0xcc ∷ 0x9c ∷ 0x60 ∷ 0
    ∷ 0xfc ∷ 0x80 ∷ 0 ∷ 0 ∷ 0 ∷ 0x80 ∷ 0 ∷ 0 ∷ 0 ∷ 0 ∷ 0x09 ∷ 0x09 ∷ 0 ∷ 0 ∷ 0 ∷ 0 ∷ 0 ∷ 0xa7 ∷ 0xad
    ∷ 0x60 ∷ 0 ∷ 0x29 ∷ 0x18 ∷ 0 ∷ 0x53 ∷ 0x9f ∷ 0x28 ∷ 0x35 ∷ 0xa5 ∷ 0xa8 ∷ 0x0c ∷ 0x8b ∷ []

-- `set_button_bit`
unfoldable pub set_button_bit : ℕ → ℕ → ℕ → ℕ → ℕ
set_button_bit value bit buttons mask = if has_bits buttons mask then bit_or value bit else value

-- The payload bytes 7, 8 and 9.
pub dpad_byte : State → ℕ
dpad_byte s =
    let dpad = if leb s.dpad 8 then bit_and s.dpad 0x0f else 0x08 in
    let v0 = set_button_bit dpad 0x10 s.buttons button_square in
    let v1 = set_button_bit v0 0x20 s.buttons button_cross in
    let v2 = set_button_bit v1 0x40 s.buttons button_circle in
    set_button_bit v2 0x80 s.buttons button_triangle

pub shoulder_byte : State → ℕ
shoulder_byte s =
    let v0 = set_button_bit 0 0x01 s.buttons button_l1 in
    let v1 = set_button_bit v0 0x02 s.buttons button_r1 in
    let v2 = set_button_bit v1 0x04 s.buttons button_l2 in
    let v3 = set_button_bit v2 0x08 s.buttons button_r2 in
    let v4 = set_button_bit v3 0x10 s.buttons button_create in
    let v5 = set_button_bit v4 0x20 s.buttons button_options in
    let v6 = set_button_bit v5 0x40 s.buttons button_l3 in
    set_button_bit v6 0x80 s.buttons button_r3

pub system_byte : State → ℕ
system_byte s =
    let v0 = set_button_bit 0 0x01 s.buttons button_ps in
    let v1 = set_button_bit v0 0x02 s.buttons button_touchpad in
    set_button_bit v1 0x04 s.buttons button_mute

-- `make_payload_from_state`, with the dead zones of the two sticks in percent.
unfoldable pub make_payload_from_state : State → ℕ → ℕ → List ℕ
make_payload_from_state s left_percent right_percent =
    let left = StickDeadzone.apply s.left_x s.left_y left_percent in
    let right = StickDeadzone.apply s.right_x s.right_y right_percent in
    let p1 = set (set idle_payload 0 left.0) 1 left.1 in
    let p3 = set (set p1 2 right.0) 3 right.1 in
    let p5 = set (set p3 4 s.l2) 5 s.r2 in
    set (set (set p5 7 (dpad_byte s)) 8 (shoulder_byte s)) 9 (system_byte s)
