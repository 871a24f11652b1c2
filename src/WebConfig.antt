-- ===== src/WebConfig.antt =====
-- The WebHID configuration of m61/dualsense_hidp_probe/m61_web_config.{h,c}: its record, what makes
-- it valid, and the bytes that words are stored as.
pub mod Codec
pub mod Persistent
pub mod Telemetry
pub mod Report
pub mod Runtime
pub mod Guarded
pub mod Untorn
pub mod RoundTrip
pub mod Stored
pub mod Migration
mod Tests
mod RuntimeTests
use ds5dongle.Prelude.{
  ℕ, ◌+◌, ◌-◌, ◌*◌, ◌/◌, ◌%◌, ◌^◌, Bool, true, false, ◌&&◌, not, List, [], ◌∷◌, ltb, leb, ◌==◌,
  if◌then◌else◌, bit_or, bit_xor, bit_and, byte_of, get_or, u32, uint32_max, zero, suc,
}

-- `m61_web_config_t`
pub record Config : Type 0 where
  pub capabilities : ℕ
  pub microphone_enabled : Bool
  pub speaker_enabled : Bool
  pub auto_reconnect_enabled : Bool
  pub status_led_enabled : Bool
  pub speaker_route : ℕ
  pub cpu_governor : ℕ
  pub cpu_profile : ℕ
  pub manual_cpu_mhz : ℕ
  pub haptics_gain_q8 : ℕ
  pub idle_timeout_minutes : ℕ
  pub power_off_on_usb_suspend : Bool
  pub left_stick_deadzone_percent : ℕ
  pub right_stick_deadzone_percent : ℕ
  pub usb_polling_rate_mode : ℕ
  pub status_led_brightness_percent : ℕ
  pub audio_buffer_length : ℕ

abbrev pub feature_payload_size : ℕ
feature_payload_size = 63

abbrev pub schema_version : ℕ
schema_version = 5

abbrev pub body_size : ℕ
body_size = 23

abbrev pub record_version : ℕ
record_version = 5

abbrev pub record_size : ℕ
record_size = 33

abbrev pub brightness_default : ℕ
brightness_default = 12

abbrev pub buffer_length_default : ℕ
buffer_length_default = 48

abbrev pub poll_500_hz : ℕ
poll_500_hz = 2

-- "M61C" and "M61W"
abbrev pub web_magic : List ℕ
web_magic = b'M' ∷ b'6' ∷ b'1' ∷ b'C' ∷ []

abbrev pub persistent_magic : List ℕ
persistent_magic = b'M' ∷ b'6' ∷ b'1' ∷ b'W' ∷ []

-- The config after `memset(config, 0, ...)`.
abbrev pub zero_config : Config
zero_config = record {
  capabilities = 0;
  microphone_enabled = false;
  speaker_enabled = false;
  auto_reconnect_enabled = false;
  status_led_enabled = false;
  speaker_route = 0;
  cpu_governor = 0;
  cpu_profile = 0;
  manual_cpu_mhz = 0;
  haptics_gain_q8 = 0;
  idle_timeout_minutes = 0;
  power_off_on_usb_suspend = false;
  left_stick_deadzone_percent = 0;
  right_stick_deadzone_percent = 0;
  usb_polling_rate_mode = 0;
  status_led_brightness_percent = 0;
  audio_buffer_length = 0;
}

-- `m61_web_config_defaults`: the capabilities are the fifteen bits, joined.
unfoldable pub defaults : Config
defaults = record zero_config {
  capabilities = 0x7fff;
  speaker_enabled = true;
  auto_reconnect_enabled = true;
  status_led_enabled = true;
  manual_cpu_mhz = 320;
  haptics_gain_q8 = 0x100;
  status_led_brightness_percent = brightness_default;
  audio_buffer_length = buffer_length_default;
}

abbrev between : ℕ → ℕ → ℕ → Bool
between lo hi x = not (ltb x lo) && not (ltb hi x)

-- `m61_web_config_valid`, of a config that is not NULL.
unfoldable pub is_valid : Config → Bool
is_valid c =
    not (ltb 2 c.speaker_route)
    && not (ltb 1 c.cpu_governor)
    && not (ltb 3 c.cpu_profile)
    && between 320 400 c.manual_cpu_mhz
    && between 0x100 0x200 c.haptics_gain_q8
    && not (ltb 60 c.idle_timeout_minutes)
    && not (ltb 30 c.left_stick_deadzone_percent)
    && not (ltb 30 c.right_stick_deadzone_percent)
    && not (ltb poll_500_hz c.usb_polling_rate_mode)
    && between 1 100 c.status_led_brightness_percent
    && between 16 127 c.audio_buffer_length

-- `get_u16_le`: the bytes do not overlap, so `|` is a sum.
abbrev pub get_u16_le : List ℕ → ℕ → ℕ
get_u16_le input i = get_or input i 0 + 2 ^ 8 * get_or input (i + 1) 0

-- `get_u32_le`, as a sum for the same reason.
abbrev pub get_u32_le : List ℕ → ℕ → ℕ
get_u32_le input i =
    get_or input i 0
    + 2 ^ 8 * get_or input (i + 1) 0
    + 2 ^ 16 * get_or input (i + 2) 0
    + 2 ^ 24 * get_or input (i + 3) 0

-- `put_u16_le` in front of what follows.
abbrev pub put_u16_le : ℕ → List ℕ → List ℕ
put_u16_le x rest = byte_of 0 x ∷ byte_of 1 x ∷ rest

-- `put_u32_le` in front of what follows.
abbrev pub put_u32_le : ℕ → List ℕ → List ℕ
put_u32_le x rest = byte_of 0 x ∷ byte_of 1 x ∷ byte_of 2 x ∷ byte_of 3 x ∷ rest

-- `if (b) flags |= mask`
abbrev pub set_flag : Bool → ℕ → ℕ → ℕ
set_flag true mask flags = bit_or flags mask
set_flag false mask flags = flags

-- One bit of `crc32_ieee`.
unfoldable pub crc_bit : ℕ → ℕ
crc_bit crc = let mask = u32 (2 ^ 32 - bit_and crc 1) in bit_xor (crc / 2) (bit_and 0xedb88320 mask)

unfoldable pub crc_bits : ℕ → ℕ → ℕ
unfolding crc_bit
crc_bits zero crc = crc
crc_bits (suc n) crc = crc_bits n (crc_bit crc)

-- The loop over the first `len` bytes.
unfoldable pub crc_loop : ℕ → List ℕ → ℕ → ℕ
unfolding crc_bits
crc_loop zero input crc = crc
crc_loop (suc len) [] crc = crc
crc_loop (suc len) (x ∷ xs) crc = crc_loop len xs (crc_bits 8 (bit_xor crc x))

-- `crc32_ieee`
unfoldable pub crc32_ieee : List ℕ → ℕ → ℕ
unfolding crc_loop
crc32_ieee input len = uint32_max - crc_loop len input uint32_max
