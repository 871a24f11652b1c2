-- ===== src/Parser.antt =====
-- The input reports of m61/dualsense_hidp_probe/dualsense_parser.{h,c}. The bytes that a pointer leads
-- to are a function of the index, so that a read behind the length of a report reads what is there.
pub mod Buttons
pub mod Bounds
pub mod Framing
mod Tests
use ds5dongle.Prelude.{
  ℕ, ◌+◌, ◌-◌, ◌*◌, ◌/◌, ◌^◌, Bool, true, false, ◌&&◌, ◌||◌, not, Option, none, some, ltb, leb,
  ◌==◌, if◌then◌else◌, bit_and, bit_or, has_bits,
}
use ds5dongle.Prelude.Int.{ℤ, pos, negsuc, signed16}

-- `dualsense_report_kind_t`
pub data ReportKind : Type 0 where
  unknown : ReportKind
  input : ReportKind
  mic_audio : ReportKind

-- `dualsense_state_t`
pub record State : Type 0 where
  pub report_id : ℕ
  pub sequence : ℕ
  pub is_full_report : Bool
  pub has_motion : Bool
  pub has_battery : Bool
  pub left_x : ℕ
  pub left_y : ℕ
  pub right_x : ℕ
  pub right_y : ℕ
  pub l2 : ℕ
  pub r2 : ℕ
  pub dpad : ℕ
  pub buttons : ℕ
  pub gyro_x : ℤ
  pub gyro_y : ℤ
  pub gyro_z : ℤ
  pub accel_x : ℤ
  pub accel_y : ℤ
  pub accel_z : ℤ
  pub sensor_timestamp : ℕ
  pub temperature : ℤ
  pub battery_percent : ℕ
  pub power_state : ℕ
  pub headphones : Bool
  pub mic_present : Bool
  pub mic_muted : Bool
  pub usb_data : Bool
  pub usb_power : Bool

-- `dualsense_parse_result_t`
pub record ParseResult : Type 0 where
  pub kind : ReportKind
  pub report_id : ℕ
  pub payload_offset : ℕ
  pub payload_len : ℕ

abbrev pub Bytes : Type 0
Bytes = ℕ → ℕ

abbrev pub hidp_input : ℕ
hidp_input = 0xa1

abbrev pub input_report_id : ℕ
input_report_id = 0x31

abbrev pub min_payload_len : ℕ
min_payload_len = 55

abbrev pub basic_input_report_id : ℕ
basic_input_report_id = 0x01

abbrev pub basic_payload_len : ℕ
basic_payload_len = 9

-- `DS5_BUTTON_...`
abbrev pub button_square : ℕ
button_square = 2 ^ 0

abbrev pub button_cross : ℕ
button_cross = 2 ^ 1

abbrev pub button_circle : ℕ
button_circle = 2 ^ 2

abbrev pub button_triangle : ℕ
button_triangle = 2 ^ 3

abbrev pub button_l1 : ℕ
button_l1 = 2 ^ 4

abbrev pub button_r1 : ℕ
button_r1 = 2 ^ 5

abbrev pub button_l2 : ℕ
button_l2 = 2 ^ 6

abbrev pub button_r2 : ℕ
button_r2 = 2 ^ 7

abbrev pub button_create : ℕ
button_create = 2 ^ 8

abbrev pub button_options : ℕ
button_options = 2 ^ 9

abbrev pub button_l3 : ℕ
button_l3 = 2 ^ 10

abbrev pub button_r3 : ℕ
button_r3 = 2 ^ 11

abbrev pub button_ps : ℕ
button_ps = 2 ^ 12

abbrev pub button_touchpad : ℕ
button_touchpad = 2 ^ 13

abbrev pub button_mute : ℕ
button_mute = 2 ^ 14

-- `read_i16_le` and `read_u32_le` at an index.
unfoldable pub read_i16_le : Bytes → ℕ → ℤ
read_i16_le p i = signed16 (bit_or (p i) (p (i + 1) * 2 ^ 8))

unfoldable pub read_u32_le : Bytes → ℕ → ℕ
read_u32_le p i =
    bit_or (bit_or (bit_or (p i) (p (i + 1) * 2 ^ 8)) (p (i + 2) * 2 ^ 16)) (p (i + 3) * 2 ^ 24)

-- `(int8_t) x`
abbrev pub signed8 : ℕ → ℤ
signed8 w = if ltb w (2 ^ 7) then pos w else negsuc (2 ^ 8 - w - 1)

-- `set_button`
unfoldable pub set_button : ℕ → ℕ → ℕ → ℕ → ℕ
set_button buttons value bit mask = if has_bits value bit then bit_or buttons mask else buttons

-- The buttons of the payload bytes 7 and 8.
unfoldable pub main_buttons : ℕ → ℕ → ℕ
main_buttons p7 p8 =
    let b0 = set_button 0 p7 0x10 button_square in
    let b1 = set_button b0 p7 0x20 button_cross in
    let b2 = set_button b1 p7 0x40 button_circle in
    let b3 = set_button b2 p7 0x80 button_triangle in
    let b4 = set_button b3 p8 0x01 button_l1 in
    let b5 = set_button b4 p8 0x02 button_r1 in
    let b6 = set_button b5 p8 0x04 button_l2 in
    let b7 = set_button b6 p8 0x08 button_r2 in
    let b8 = set_button b7 p8 0x10 button_create in
    let b9 = set_button b8 p8 0x20 button_options in
    let b10 = set_button b9 p8 0x40 button_l3 in set_button b10 p8 0x80 button_r3

-- Those of the payload byte 9.
unfoldable pub extra_buttons : ℕ → ℕ → ℕ
extra_buttons p9 buttons =
    let b0 = set_button buttons p9 0x01 button_ps in
    let b1 = set_button b0 p9 0x02 button_touchpad in set_button b1 p9 0x04 button_mute

unfoldable pub all_buttons : Bytes → ℕ → ℕ
all_buttons p payload_len =
    let buttons = main_buttons (p 7) (p 8) in
    if ltb 9 payload_len then extra_buttons (p 9) buttons else buttons

-- What the first bytes say of a report: where its payload is, or that it holds audio.
pub record Frame : Type 0 where
  pub report_id : ℕ
  pub sequence : ℕ
  pub payload_offset : ℕ
  pub is_full_report : Bool
  pub is_mic_audio : Bool

abbrev pub full_frame : ℕ → ℕ → ℕ → Frame
full_frame id sequence offset = record {
  report_id = id;
  sequence = sequence;
  payload_offset = offset;
  is_full_report = true;
  is_mic_audio = has_bits sequence 0x02;
}

abbrev pub basic_frame : ℕ → ℕ → Frame
basic_frame id offset = record {
  report_id = id;
  sequence = 0;
  payload_offset = offset;
  is_full_report = false;
  is_mic_audio = false;
}

abbrev pub raw_frame : Frame
raw_frame = record {
  report_id = input_report_id;
  sequence = 0;
  payload_offset = 0;
  is_full_report = true;
  is_mic_audio = false;
}

-- The chain of tests of `dualsense_parse_report`.
unfoldable pub find_frame : Bytes → ℕ → Option Frame
find_frame p len =
    if leb 3 len && p 0 == hidp_input && p 1 == input_report_id
    then some (full_frame (p 1) (p 2) 3)
    else if leb 2 len && p 0 == input_report_id
    then some (full_frame (p 0) (p 1) 2)
    else if leb (2 + basic_payload_len) len && p 0 == hidp_input && p 1 == basic_input_report_id
    then some (basic_frame (p 1) 2)
    else if leb (1 + basic_payload_len) len && p 0 == basic_input_report_id
    then some (basic_frame (p 0) 1)
    else if leb min_payload_len len
    then some raw_frame
    else none

abbrev pub no_result : ParseResult
no_result = record { kind = ReportKind.unknown; report_id = 0; payload_offset = 0; payload_len = 0 }

abbrev pub result_of : ReportKind → Frame → ℕ → ParseResult
result_of kind f len = record {
  kind = kind;
  report_id = f.report_id;
  payload_offset = f.payload_offset;
  payload_len = len - f.payload_offset;
}

-- The state after `memset(state, 0, sizeof(*state))`.
abbrev pub zero_state : State
zero_state = record {
  report_id = 0;
  sequence = 0;
  is_full_report = false;
  has_motion = false;
  has_battery = false;
  left_x = 0;
  left_y = 0;
  right_x = 0;
  right_y = 0;
  l2 = 0;
  r2 = 0;
  dpad = 0;
  buttons = 0;
  gyro_x = pos 0;
  gyro_y = pos 0;
  gyro_z = pos 0;
  accel_x = pos 0;
  accel_y = pos 0;
  accel_z = pos 0;
  sensor_timestamp = 0;
  temperature = pos 0;
  battery_percent = 0;
  power_state = 0;
  headphones = false;
  mic_present = false;
  mic_muted = false;
  usb_data = false;
  usb_power = false;
}

-- The part of the state that every report has.
unfoldable pub basic_state : Frame → Bytes → ℕ → State
basic_state f p payload_len = record zero_state {
  report_id = f.report_id;
  sequence = f.sequence;
  is_full_report = f.is_full_report;
  has_motion = f.is_full_report;
  has_battery = f.is_full_report;
  left_x = p 0;
  left_y = p 1;
  right_x = p 2;
  right_y = p 3;
  l2 = p 4;
  r2 = p 5;
  dpad = bit_and (p 7) 0x0f;
  buttons = all_buttons p payload_len;
}

-- The part that a full report adds.
unfoldable pub full_state : State → Bytes → State
full_state s p = record s {
  gyro_x = read_i16_le p 15;
  gyro_z = read_i16_le p 17;
  gyro_y = read_i16_le p 19;
  accel_x = read_i16_le p 21;
  accel_y = read_i16_le p 23;
  accel_z = read_i16_le p 25;
  sensor_timestamp = read_u32_le p 27;
  temperature = signed8 (p 31);
  battery_percent = bit_and (p 52) 0x0f;
  power_state = p 52 / 2 ^ 4;
  headphones = has_bits (p 53) 0x01;
  mic_present = has_bits (p 53) 0x02;
  mic_muted = has_bits (p 53) 0x04;
  usb_data = has_bits (p 53) 0x08;
  usb_power = has_bits (p 53) 0x10;
}

-- The rest of `dualsense_parse_report`, once the frame is known.
unfoldable pub parse_framed : Frame → Bytes → ℕ → State → Bool × State × ParseResult
parse_framed f bytes len state =
    let payload_len = len - f.payload_offset in
    let p : Bytes = λ i. bytes (f.payload_offset + i) in
    if f.is_mic_audio
    then (false, state, result_of ReportKind.mic_audio f len)
    else if ltb len f.payload_offset
        || f.is_full_report && ltb payload_len min_payload_len
        || not f.is_full_report && ltb payload_len basic_payload_len
    then (false, state, no_result)
    else let basic = basic_state f p payload_len in
      (
        true,
        if f.is_full_report then full_state basic p else basic,
        result_of ReportKind.input f len,
      )

-- `dualsense_parse_report`: the answer, the state, which is kept where the answer is false, and the
-- result, for which the callers pass a pointer.
unfoldable pub parse_report : Option Bytes → ℕ → State → Bool × State × ParseResult
parse_report none len state = (false, state, no_result)
parse_report (some bytes) len state =
    if len == 0 then (false, state, no_result) else elim (find_frame bytes len) [
      | none ↦ (false, state, no_result)
      | some f ↦ parse_framed f bytes len state
    ]

-- `dualsense_user_input_active`
unfoldable pub user_input_active : Option State → Bool
user_input_active none = false
user_input_active (some s) =
    ltb s.left_x 96
    || ltb 160 s.left_x
    || ltb s.left_y 96
    || ltb 160 s.left_y
    || ltb s.right_x 96
    || ltb 160 s.right_x
    || ltb s.right_y 96
    || ltb 160 s.right_y
    || ltb 8 s.l2
    || ltb 8 s.r2
    || not (s.dpad == 8)
    || not (s.buttons == 0)
