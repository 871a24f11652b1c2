-- ===== src/WebConfig/Codec.antt =====
-- The configuration as bytes: m61_web_config_encode, m61_web_config_decode and
-- m61_web_command_encode of m61_web_config.c.
use ds5dongle.Prelude.{
  ℕ, ◌-◌, Bool, ◌&&◌, ◌||◌, not, List, [], ◌∷◌, ◌++◌, Option, none, some, ltb, ◌==◌, if◌then◌else◌,
  get_or, has_bits, Result, ok, err, replicate, length,
}
use ds5dongle.WebConfig.{
  Config, zero_config, is_valid, get_u16_le, put_u16_le, set_flag, body_size, schema_version,
  brightness_default, buffer_length_default, poll_500_hz, feature_payload_size,
}

-- The byte of the four flags.
abbrev pub flags_of : Config → ℕ
flags_of c = set_flag c.status_led_enabled 8 (
    set_flag c.auto_reconnect_enabled 4
      (set_flag c.speaker_enabled 2 (set_flag c.microphone_enabled 1 0)))

-- The 23 bytes that `encode` writes.
unfoldable pub body : Config → List ℕ
body c =
    b'M'
    ∷ b'6'
    ∷ b'1'
    ∷ b'C'
    ∷ schema_version
    ∷ body_size
    ∷ put_u16_le c.capabilities (
        flags_of c
        ∷ c.speaker_route
        ∷ c.cpu_governor
        ∷ c.cpu_profile
        ∷ put_u16_le c.manual_cpu_mhz (
            put_u16_le c.haptics_gain_q8 (
              c.idle_timeout_minutes
              ∷ (if c.power_off_on_usb_suspend then 1 else 0)
              ∷ c.left_stick_deadzone_percent
              ∷ c.right_stick_deadzone_percent
              ∷ c.usb_polling_rate_mode
              ∷ c.status_led_brightness_percent
              ∷ c.audio_buffer_length
              ∷ [])))

-- `m61_web_config_encode`: the bytes written from `output` on. A config that is NULL is `none`, and
-- so is the size of an output that is NULL.
unfoldable pub encode : Option Config → Option ℕ → Result (List ℕ)
unfolding body
encode none size = err 1
encode (some c) none = err 1
encode (some c) (some size) = if not (is_valid c) || ltb size body_size then err 1 else ok (body c)

-- `memcmp(input, magic, 4) == 0`
abbrev pub has_magic : ℕ → ℕ → ℕ → ℕ → List ℕ → Bool
has_magic a b c d input =
    (get_or input 0 0 == a)
    && (get_or input 1 0 == b)
    && (get_or input 2 0 == c)
    && (get_or input 3 0 == d)

-- The size of the body in each version of the schema.
abbrev pub size_of_version : ℕ → Option ℕ
size_of_version version =
    if version == 1
    then some 16
    else if version == 2
    then some 18
    else if version == 3
    then some 20
    else if version == 4
    then some 21
    else if version == schema_version
    then some body_size
    else none

-- The fields that a version has, over those of `zero_config` and the two defaults.
unfoldable pub fields_v1 : List ℕ → Config
fields_v1 input =
    let flags = get_or input 8 0 in
    record zero_config {
      status_led_brightness_percent = brightness_default;
      audio_buffer_length = buffer_length_default;
      capabilities = get_u16_le input 6;
      microphone_enabled = has_bits flags 1;
      speaker_enabled = has_bits flags 2;
      auto_reconnect_enabled = has_bits flags 4;
      status_led_enabled = has_bits flags 8;
      speaker_route = get_or input 9 0;
      cpu_governor = get_or input 10 0;
      cpu_profile = get_or input 11 0;
      manual_cpu_mhz = get_u16_le input 12;
      haptics_gain_q8 = get_u16_le input 14;
    }

unfoldable pub fields_v2 : ℕ → List ℕ → Config → Config
fields_v2 version input c = if ltb version 2 then c else (record c {
  idle_timeout_minutes = get_or input 16 0;
  power_off_on_usb_suspend = has_bits (get_or input 17 0) 1;
})

unfoldable pub fields_v3 : ℕ → List ℕ → Config → Config
fields_v3 version input c = if ltb version 3 then c else (record c {
  left_stick_deadzone_percent = get_or input 18 0;
  right_stick_deadzone_percent = get_or input 19 0;
})

-- The experimental 1000 Hz of version 4 becomes 500 Hz.
unfoldable pub fields_v4 : ℕ → List ℕ → Config → Config
fields_v4 version input c = if ltb version 4 then c else (record c {
  usb_polling_rate_mode = if get_or input 20 0 == 3 then poll_500_hz else get_or input 20 0;
})

unfoldable pub fields_v5 : ℕ → List ℕ → Config → Config
fields_v5 version input c = if ltb version schema_version then c else (record c {
  status_led_brightness_percent = get_or input 21 0;
  audio_buffer_length = get_or input 22 0;
})

unfoldable pub fields : ℕ → List ℕ → Config
unfolding fields_v1 fields_v2 fields_v3 fields_v4 fields_v5
fields version input =
    fields_v5 version input (
      fields_v4 version input (fields_v3 version input (fields_v2 version input (fields_v1 input))))

-- The answer of `decode`, and the config if it was written: it is written also where it is then
-- found to be invalid.
abbrev pub Decoded : Type 0
Decoded = Result ℕ × Option Config

unfoldable pub decode_fields : ℕ → ℕ → List ℕ → Decoded
unfolding fields
decode_fields version size input =
    let c = fields version input in if is_valid c then (ok size, some c) else (err 4, some c)

unfoldable pub decode_version : Option ℕ → ℕ → List ℕ → ℕ → Decoded
unfolding decode_fields
decode_version none version input input_size = (err 3, none)
decode_version (some size) version input input_size =
    if not (get_or input 5 0 == size) || ltb input_size size
    then (err 1, none)
    else decode_fields version size input

-- `m61_web_config_decode`: an input that is NULL is `none`.
unfoldable pub decode : Option (List ℕ) → ℕ → Decoded
unfolding decode_version
decode none input_size = (err 1, none)
decode (some input) input_size =
    if ltb input_size 16
    then (err 1, none)
    else if not (has_magic b'M' b'6' b'1' b'C' input)
    then (err 2, none)
    else decode_version (size_of_version (get_or input 4 0)) (get_or input 4 0) input input_size

abbrev command_apply : ℕ
command_apply = 1

-- The commands that carry no config: save, reconnect, power off, pair, disconnect and forget.
abbrev is_plain_command : ℕ → Bool
is_plain_command command = not (ltb command 2) && not (ltb 7 command)

-- The payload of 63 bytes around the bytes behind the command.
abbrev pub payload : ℕ → List ℕ → List ℕ
payload command bytes = command ∷ bytes ++ replicate (feature_payload_size - 1 - length bytes) 0

abbrev command_result : ℕ → Result (List ℕ) → Result (List ℕ)
command_result command (ok bytes) = ok (payload command bytes)
command_result command (err n) = err n

-- `m61_web_command_encode`: the 63 bytes written from `output` on.
unfoldable pub command_encode : ℕ → Option Config → Option ℕ → Result (List ℕ)
command_encode command c none = err 1
command_encode command c (some size) =
    if ltb size feature_payload_size
    then err 1
    else if command == command_apply
    then command_result command (encode c (some (feature_payload_size - 1)))
    else if not (is_plain_command command)
    then err 4
    else elim c [ some d ↦ err 4 | none ↦ ok (payload command []) ]
