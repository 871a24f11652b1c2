-- ===== src/WebConfig/Tests.antt =====
-- Runs of the configuration's codecs.
use ds5dongle.Prelude.{
  ℕ, zero, suc, Bool, ltb, ◌&&◌, ◌⊎◌, ◌≢◌, ◌≤◌, ◌-◌, ◌≡◌, ◌<◌, ◌^◌, List, [], ◌∷◌, ◌++◌, true,
  false, some, ok, refl, arith, length, get_or,
}
use ds5dongle.Prelude.Int.{negsuc}
use ds5dongle.WebConfig.{Config, defaults, is_valid, crc32_ieee, get_u32_le, body_size, record_size}
use ds5dongle.WebConfig.Codec.{body, encode, decode, payload, command_encode, fields}
use ds5dongle.WebConfig.RoundTrip.{decode-encode}
use ds5dongle.WebConfig.Migration.{IsBytes, decode-migrated}
use ds5dongle.WebConfig.Persistent.{sealed, persistent_encode, persistent_decode, expected_size}
use ds5dongle.WebConfig.Stored.{persistent_decode-persistent_encode, persistent_decode_sound}
use ds5dongle.WebConfig.Telemetry.{Telemetry, report, telemetry_encode}
use ds5dongle.WebConfig.Report.{InRange, FlagsRead, WordsRead, telemetry_encode-read}

-- The check value of the CRC-32.
crc_check :
    crc32_ieee (b'1' ∷ b'2' ∷ b'3' ∷ b'4' ∷ b'5' ∷ b'6' ∷ b'7' ∷ b'8' ∷ b'9' ∷ []) 9 ≡ 0xcbf43926
unfolding crc32_ieee
crc_check = refl

abbrev chosen : Config
chosen = record defaults {
  microphone_enabled = true;
  idle_timeout_minutes = 15;
  usb_polling_rate_mode = 1;
}

chosen_encodes : encode (some chosen) (some 23) ≡ ok (body chosen)
unfolding encode defaults is_valid body
chosen_encodes = refl

decode-encode_example : decode (some (body chosen ++ 0 ∷ [])) 24 ≡ (ok body_size, some chosen)
unfolding defaults
decode-encode_example =
    decode-encode chosen (some 23) (body chosen) (0 ∷ []) 24 (omega arith) (omega arith)
      chosen_encodes

applied : command_encode 1 (some chosen) (some 64) ≡ ok (payload 1 (body chosen))
unfolding command_encode encode defaults is_valid body
applied = refl

-- A body of version 4 that asks for 1000 Hz.
abbrev old : List ℕ
old =
    b'M' ∷ b'6' ∷ b'1' ∷ b'C' ∷ 4 ∷ 21 ∷ 0xff ∷ 0x7f ∷ 6 ∷ 0 ∷ 0 ∷ 0 ∷ 0x40 ∷ 1 ∷ 0 ∷ 1 ∷ 10 ∷ 0 ∷ 5
    ∷ 5 ∷ 3 ∷ []

abbrev migrated : Config
migrated = record defaults {
  status_led_enabled = false;
  idle_timeout_minutes = 10;
  left_stick_deadzone_percent = 5;
  right_stick_deadzone_percent = 5;
  usb_polling_rate_mode = 2;
}

old_decodes : decode (some old) 21 ≡ (ok 21, some migrated)
unfolding decode defaults is_valid fields
old_decodes = refl

decode-migrated_example :
    ((2 ≤ 4) ⊎ ((migrated.idle_timeout_minutes ≡ 0) × (migrated.power_off_on_usb_suspend ≡ false)))
    × ((3 ≤ 4)
        ⊎ ((migrated.left_stick_deadzone_percent ≡ 0)
            × (migrated.right_stick_deadzone_percent ≡ 0)))
    × ((4 ≤ 4) ⊎ (migrated.usb_polling_rate_mode ≡ 0))
    × ((4 < 4) ⊎ (get_or old 20 0 ≢ 3) ⊎ (migrated.usb_polling_rate_mode ≡ 2))
    × ((5 ≤ 4)
        ⊎ ((migrated.status_led_brightness_percent ≡ defaults.status_led_brightness_percent)
            × (migrated.audio_buffer_length ≡ defaults.audio_buffer_length)))
decode-migrated_example = decode-migrated old 21 old_decodes

abbrev all_bytes : List ℕ → Bool
all_bytes [] = true
all_bytes (x ∷ xs) = ltb x (2 ^ 8) && all_bytes xs

all_bytes-IsBytes : (xs : List ℕ) → all_bytes xs ≡ true → IsBytes xs
all_bytes-IsBytes [] h i = omega arith
all_bytes-IsBytes (x ∷ xs) h zero = ground (arith, h)
all_bytes-IsBytes (x ∷ xs) h (suc i) = all_bytes-IsBytes xs (ground (arith, h)) i

chosen_stored : persistent_encode (some chosen) (some 40) ≡ ok (sealed (body chosen))
unfolding persistent_encode encode defaults is_valid
chosen_stored = refl

persistent_decode-persistent_encode_example :
    (length (sealed (body chosen)) ≡ record_size)
    × (persistent_decode (some (sealed (body chosen))) record_size ≡ (ok record_size, some chosen))
unfolding defaults
persistent_decode-persistent_encode_example =
    persistent_decode-persistent_encode chosen (some 40) (sealed (body chosen)) (omega arith)
      chosen_stored

persistent_decode_sound_example :
    (record_size ≡ record_size)
    × (is_valid chosen ≡ true)
    × (crc32_ieee (sealed (body chosen)) (record_size - 4)
        ≡ get_u32_le (sealed (body chosen)) (record_size - 4))
    × (expected_size (get_or (sealed (body chosen)) 4 0) (get_or (sealed (body chosen)) 5 0)
        ≡ some record_size)
persistent_decode_sound_example =
    persistent_decode_sound (sealed (body chosen)) record_size
      persistent_decode-persistent_encode_example.1

abbrev live : Telemetry
live = record {
  rssi_valid = true;
  rssi = negsuc 59;
  speaker_active = true;
  microphone_active = false;
  bluetooth_connected = true;
  usb_configured = true;
  headphones_connected = false;
  speaker_stereo = true;
  current_cpu_mhz = 320;
  requested_cpu_mhz = 400;
  pairing_active = false;
  discovery_active = false;
  saved_controller = true;
  config_loaded = true;
  usb_suspended = false;
  last_management_command = 3;
  last_management_error = negsuc 4;
  management_sequence = 70000;
  usb_input_dropped = 1;
  host_report_dropped = 2;
  audio_ingress_dropped = 3;
  haptics_queue_dropped = 4;
  speaker_errors = 5;
  microphone_errors = 6;
  feature_get_queue_depth = 1;
  feature_set_queue_depth = 2;
  haptics_queue_depth = 3;
  speaker_queue_depth = 4;
}

live-InRange : InRange live
live-InRange = record {
  current_cpu_mhz = omega arith;
  requested_cpu_mhz = omega arith;
  last_management_error = omega arith;
  management_sequence = omega arith;
  usb_input_dropped = omega arith;
  host_report_dropped = omega arith;
  audio_ingress_dropped = omega arith;
  haptics_queue_dropped = omega arith;
  speaker_errors = omega arith;
  microphone_errors = omega arith;
}

live_encodes : telemetry_encode (some live) (some 44) ≡ ok (report live)
unfolding telemetry_encode report
live_encodes = refl

telemetry_encode-read_example :
    (some 44 ≡ some (length (report live)))
    × FlagsRead (report live) live
    × WordsRead (report live) live
telemetry_encode-read_example =
    telemetry_encode-read live (some 44) (report live) live-InRange live_encodes
