-- ===== src/Gamepad/Input/Echo.antt =====
-- The report for the host, read by the parser of dualsense_parser.c.
use ds5dongle.Prelude.{
  ℕ, ◌+◌, ◌*◌, ◌/◌, ◌%◌, ◌^◌, ◌≤◌, ◌<◌, Bool, true, false, ◌∷◌, get_or, some, leb, has_bits,
  if◌then◌else◌, bit_or, bit_and, from_bool, has_bits-digit, or_fields, and_fifteen, ◌≡◌, refl, sym,
  ap, ◌∙◌, arith,
}
use ds5dongle.Parser.{
  State, Bytes, ParseResult, parse_report, find_frame, parse_framed, basic_state, all_buttons,
  main_buttons, extra_buttons,
}
use ds5dongle.Parser.Buttons.{main_buttons-digits, extra_buttons-digits}
use ds5dongle.StickDeadzone
use ds5dongle.Gamepad.Input.{
  set_button_bit, dpad_byte, shoulder_byte, system_byte, make_payload_from_state,
}

-- A bit above those that the byte has.
push :
    (b n buttons j k : ℕ)
    → b ≡ n
    → n < 2 ^ j
    → set_button_bit b (2 ^ j) buttons (2 ^ k) ≡ n + buttons / 2 ^ k % 2 * 2 ^ j
unfolding set_button_bit
push b n buttons j k e small = rw e (at_bit (has_bits buttons (2 ^ k)) (has_bits-digit buttons k))
  where
    at_bit :
        (t : Bool)
        → from_bool t ≡ buttons / 2 ^ k % 2
        → (if t then bit_or n (2 ^ j) else n) ≡ n + buttons / 2 ^ k % 2 * 2 ^ j
    at_bit true d = rw (sym d) (ap (bit_or n) (omega arith) ∙ or_fields j 1 n small)
    at_bit false d = rw (sym d) (omega arith)

dpad_byte-digits : (s : State) → s.dpad ≤ 8 → dpad_byte s ≡ s.dpad + 16 * (s.buttons % 16)
unfolding dpad_byte
dpad_byte-digits s h =
    let e = push _ s.dpad s.buttons 4 0 low (omega arith) in
    let e1 = push _ _ s.buttons 5 1 e (omega arith) in
    let e2 = push _ _ s.buttons 6 2 e1 (omega arith) in
    let e3 = push _ _ s.buttons 7 3 e2 (omega arith) in omega (arith, e3)
  where
    low : (if leb s.dpad 8 then bit_and s.dpad 0x0f else 0x08) ≡ s.dpad
    low = ground (arith, and_fifteen s.dpad)

shoulder_byte-digits : (s : State) → shoulder_byte s ≡ s.buttons / 16 % 256
unfolding shoulder_byte
shoulder_byte-digits s =
    let e0 = push 0 0 s.buttons 0 4 refl (omega arith) in
    let e1 = push _ _ s.buttons 1 5 e0 (omega arith) in
    let e2 = push _ _ s.buttons 2 6 e1 (omega arith) in
    let e3 = push _ _ s.buttons 3 7 e2 (omega arith) in
    let e4 = push _ _ s.buttons 4 8 e3 (omega arith) in
    let e5 = push _ _ s.buttons 5 9 e4 (omega arith) in
    let e6 = push _ _ s.buttons 6 10 e5 (omega arith) in
    let e7 = push _ _ s.buttons 7 11 e6 (omega arith) in omega (arith, e7)

system_byte-digits : (s : State) → system_byte s ≡ s.buttons / 4096 % 8
unfolding system_byte
system_byte-digits s =
    let e0 = push 0 0 s.buttons 0 12 refl (omega arith) in
    let e1 = push _ _ s.buttons 1 13 e0 (omega arith) in
    let e2 = push _ _ s.buttons 2 14 e1 (omega arith) in omega (arith, e2)

-- The bytes of the report as the host reads them.
abbrev pub report : State → ℕ → ℕ → Bytes
report s left right i = get_or (0x01 ∷ make_payload_from_state s left right) i 0

-- What an answer of the parser must hold to show the same to a player.
abbrev pub Echoed : State → ℕ → ℕ → Bool × State × ParseResult → Type 0
Echoed s left right out =
    (out.0 ≡ true)
    × ((out.1.left_x, out.1.left_y) ≡ StickDeadzone.apply s.left_x s.left_y left)
    × ((out.1.right_x, out.1.right_y) ≡ StickDeadzone.apply s.right_x s.right_y right)
    × (out.1.l2 ≡ s.l2)
    × (out.1.r2 ≡ s.r2)
    × (out.1.dpad ≡ s.dpad)
    × (out.1.buttons ≡ s.buttons)

buttons_again :
    (s : State)
    → s.dpad ≤ 8
    → s.buttons < 2 ^ 15
    → extra_buttons (system_byte s) (main_buttons (dpad_byte s) (shoulder_byte s)) ≡ s.buttons
buttons_again s h g =
    let main =
      main_buttons-digits (dpad_byte s) (shoulder_byte s) (omega (arith, dpad_byte-digits s h))
        (omega (arith, shoulder_byte-digits s)) in
    extra_buttons-digits (system_byte s) _ (omega (arith, system_byte-digits s))
      (omega (arith, main, dpad_byte-digits s h, shoulder_byte-digits s))
    ∙ omega (arith, main, dpad_byte-digits s h, shoulder_byte-digits s, system_byte-digits s)

-- The report 0x01 that is sent to the host for a state whose pad is a direction or at rest, and whose
-- buttons are the fifteen that exist, is parsed again with that pad, the same buttons and triggers, and
-- the two sticks behind their dead zones.
pub make_payload-parse :
    (s old : State) (left right : ℕ)
    → s.dpad ≤ 8
    → s.buttons < 2 ^ 15
    → Echoed s left right (parse_report (some (report s left right)) 64 old)
unfolding parse_report find_frame parse_framed basic_state all_buttons make_payload_from_state
make_payload-parse s old left right h g = (
  refl,
  refl,
  refl,
  refl,
  refl,
  and_fifteen (dpad_byte s) ∙ omega (arith, dpad_byte-digits s h),
  buttons_again s h g,
)
