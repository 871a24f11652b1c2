-- ===== src/WebConfig/RoundTrip.antt =====
-- What is encoded is decoded again, and whatever is decoded without an error is valid.
use ds5dongle.Prelude.{
  ℕ, ◌+◌, ◌-◌, ◌*◌, ◌^◌, ◌≤◌, ◌<◌, ◌≡◌, Bool, true, false, List, ◌++◌, Option, none, some,
  if◌then◌else◌, has_bits, ok, length, drop, replicate, arith, refl, byte_of, subst,
}
use ds5dongle.WebConfig.{
  Config, is_valid, set_flag, body_size, schema_version, feature_payload_size,
}
use ds5dongle.WebConfig.Codec.{
  flags_of, body, encode, decode, decode_version, decode_fields, fields, command_encode, payload,
}

-- The four flags come back out of their byte.
flags-has_bits :
    (c : Config)
    → (has_bits (flags_of c) 1 ≡ c.microphone_enabled)
      × (has_bits (flags_of c) 2 ≡ c.speaker_enabled)
      × (has_bits (flags_of c) 4 ≡ c.auto_reconnect_enabled)
      × (has_bits (flags_of c) 8 ≡ c.status_led_enabled)
flags-has_bits c =
    go c.microphone_enabled c.speaker_enabled c.auto_reconnect_enabled c.status_led_enabled
  where
    byte : Bool → Bool → Bool → Bool → ℕ
    byte m s a l = set_flag l 8 (set_flag a 4 (set_flag s 2 (set_flag m 1 0)))

    go :
        (m s a l : Bool)
        → (has_bits (byte m s a l) 1 ≡ m)
          × (has_bits (byte m s a l) 2 ≡ s)
          × (has_bits (byte m s a l) 4 ≡ a)
          × (has_bits (byte m s a l) 8 ≡ l)
    go true true true true = (refl, refl, refl, refl)
    go true true true false = (refl, refl, refl, refl)
    go true true false true = (refl, refl, refl, refl)
    go true true false false = (refl, refl, refl, refl)
    go true false true true = (refl, refl, refl, refl)
    go true false true false = (refl, refl, refl, refl)
    go true false false true = (refl, refl, refl, refl)
    go true false false false = (refl, refl, refl, refl)
    go false true true true = (refl, refl, refl, refl)
    go false true true false = (refl, refl, refl, refl)
    go false true false true = (refl, refl, refl, refl)
    go false true false false = (refl, refl, refl, refl)
    go false false true true = (refl, refl, refl, refl)
    go false false true false = (refl, refl, refl, refl)
    go false false false true = (refl, refl, refl, refl)
    go false false false false = (refl, refl, refl, refl)

suspend_bit : (b : Bool) → has_bits (if b then 1 else 0) 1 ≡ b
suspend_bit true = refl
suspend_bit false = refl

-- A word of two bytes.
pub word_bytes : (x : ℕ) → x < 2 ^ 16 → byte_of 0 x + 2 ^ 8 * byte_of 1 x ≡ x
word_bytes x h = omega arith

-- The facts of a valid config that the way back needs.
record Ranges (c : Config) : Type 0 where
  mhz : c.manual_cpu_mhz < 2 ^ 16
  gain : c.haptics_gain_q8 < 2 ^ 16
  poll : c.usb_polling_rate_mode ≤ 2

is_valid-Ranges : (c : Config) → is_valid c ≡ true → Ranges c
unfolding is_valid
is_valid-Ranges c v = ground arith

fields-body :
    (c : Config) (rest : List ℕ)
    → is_valid c ≡ true
    → c.capabilities < 2 ^ 16
    → fields schema_version (body c ++ rest) ≡ c
unfolding fields body
fields-body c rest v h =
    let r = is_valid-Ranges c v in
    let (m, s, a, l) = flags-has_bits c in
    ground (arith, m, s, a, l, suspend_bit c.power_off_on_usb_suspend)

-- A config as C holds it: its capabilities have sixteen bits. What the body of a valid config
-- begins with is read again, whatever follows it.
pub decode-body :
    (c : Config) (rest : List ℕ) (n : ℕ)
    → is_valid c ≡ true
    → c.capabilities < 2 ^ 16
    → body_size ≤ n
    → decode (some (body c ++ rest)) n ≡ (ok body_size, some c)
unfolding decode decode_version decode_fields body
decode-body c rest n v h hn = ground (arith, fields-body c rest v h)

pub decode-encode :
    (c : Config) (size : Option ℕ) (bytes rest : List ℕ) (n : ℕ)
    → c.capabilities < 2 ^ 16
    → body_size ≤ n
    → encode (some c) size ≡ ok bytes
    → decode (some (bytes ++ rest)) n ≡ (ok body_size, some c)
unfolding encode
decode-encode c none bytes rest n h hn e = ground arith
decode-encode c (some size) bytes rest n h hn e = ground (arith, decode-body c rest n, e)

length-payload : (c : Config) → length (payload 1 (body c)) ≡ feature_payload_size
unfolding body
length-payload c = refl

-- A configuration command carries its config: the payload has 63 bytes, and behind its first byte
-- the config is read again.
pub decode-command_encode :
    (c : Config) (size : Option ℕ) (bytes : List ℕ)
    → c.capabilities < 2 ^ 16
    → command_encode 1 (some c) size ≡ ok bytes
    → (length bytes ≡ feature_payload_size)
      × (decode (some (drop 1 bytes)) (feature_payload_size - 1) ≡ (ok body_size, some c))
unfolding command_encode encode
decode-command_encode c none bytes h e = ground arith
decode-command_encode c (some size) bytes h e =
    let rest : List ℕ = replicate (feature_payload_size - 1 - length (body c)) 0 in
    let made : (payload 1 (body c) ≡ bytes) × (is_valid c ≡ true) = ground (arith, e) in
    subst
      (λ (b : List ℕ).
        (length b ≡ feature_payload_size)
        × (decode (some (drop 1 b)) (feature_payload_size - 1) ≡ (ok body_size, some c)))
      made.0
      (length-payload c, decode-body c rest (feature_payload_size - 1) made.1 h (omega arith))
