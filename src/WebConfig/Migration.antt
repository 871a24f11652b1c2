-- ===== src/WebConfig/Migration.antt =====
-- What a decoded configuration is: valid, of the size of its version, with defaults for what older
-- versions lack, and stable under a rewrite in the current version.
use ds5dongle.Prelude.{
  ℕ, ◌^◌, ◌≤◌, ◌<◌, ◌≡◌, ◌≢◌, ◌⊎◌, true, false, List, [], Option, none, some, ltb, get_or, ok,
  arith, refl, Bool-cases, inl, inr, append-nil, subst,
}
use ds5dongle.WebConfig.{Config, is_valid, body_size, defaults}
use ds5dongle.WebConfig.Codec.{
  body, encode, decode, decode_version, decode_fields, fields, fields_v1, fields_v2, fields_v3,
  fields_v4, fields_v5, size_of_version, has_magic,
}
use ds5dongle.WebConfig.RoundTrip.{decode-encode}

pub record Accepted (input : List ℕ) (n k : ℕ) (c : Config) : Type 0 where
  pub is_accepted : is_valid c ≡ true
  pub version : size_of_version (get_or input 4 0) ≡ some k
  pub declared : get_or input 5 0 ≡ k
  pub in_bounds : k ≤ n
  pub from_fields : fields (get_or input 4 0) input ≡ c

decode_version-Accepted :
    (size : Option ℕ) (input : List ℕ) (n : ℕ) {k : ℕ} {c : Config}
    → size_of_version (get_or input 4 0) ≡ size
    → decode_version size (get_or input 4 0) input n ≡ (ok k, some c)
    → Accepted input n k c
unfolding decode_version decode_fields
decode_version-Accepted none input n v e = ground arith
decode_version-Accepted (some size) input n v e = ground (arith, v, e)

-- A config that is decoded without an error is valid; the input names a version and the size of
-- that version, which is the answer, and is no shorter.
pub decode-Accepted :
    (input : List ℕ) (n : ℕ) {k : ℕ} {c : Config}
    → decode (some input) n ≡ (ok k, some c)
    → Accepted input n k c
unfolding decode
decode-Accepted input n e = elim (Bool-cases (ltb n 16)) [
  | inl short ↦ ground (arith, short, e)
  | inr long ↦ elim (Bool-cases (has_magic b'M' b'6' b'1' b'C' input)) [
    | inl magic ↦ decode_version-Accepted _ input n refl (ground (arith, long, magic, e))
    | inr other ↦ ground (arith, long, other, e)
  ]
]

-- What an input without an error lacks, as its version does, has its default: no idle timeout and
-- no power-off before version 2, no dead zones before 3, the real-time polling rate before 4,
-- the brightness and audio buffer of `defaults` before 5. The 1000 Hz of version 4 is 500 Hz.
pub decode-migrated :
    (input : List ℕ) (n : ℕ) {k : ℕ} {c : Config}
    → decode (some input) n ≡ (ok k, some c)
    → let version = get_or input 4 0 in
      ((2 ≤ version) ⊎ ((c.idle_timeout_minutes ≡ 0) × (c.power_off_on_usb_suspend ≡ false)))
      × ((3 ≤ version)
          ⊎ ((c.left_stick_deadzone_percent ≡ 0) × (c.right_stick_deadzone_percent ≡ 0)))
      × ((4 ≤ version) ⊎ (c.usb_polling_rate_mode ≡ 0))
      × ((version < 4) ⊎ (get_or input 20 0 ≢ 3) ⊎ (c.usb_polling_rate_mode ≡ 2))
      × ((5 ≤ version)
          ⊎ ((c.status_led_brightness_percent ≡ defaults.status_led_brightness_percent)
              × (c.audio_buffer_length ≡ defaults.audio_buffer_length)))
unfolding fields fields_v1 fields_v2 fields_v3 fields_v4 fields_v5 defaults
decode-migrated input n e = let a = decode-Accepted input n e in ground (arith, a.from_fields)

-- The bytes of an input.
abbrev pub IsBytes : List ℕ → Type 0
IsBytes xs = (i : ℕ) → get_or xs i 0 < 2 ^ 8

-- A config of any version that is decoded can be written in the current version, and is then read
-- back unchanged.
pub decode-upgraded :
    (input : List ℕ) (n : ℕ) {k : ℕ} {c : Config}
    → IsBytes input
    → decode (some input) n ≡ (ok k, some c)
    → (bytes : List ℕ) × (encode (some c) (some body_size) ≡ ok bytes)
      × (decode (some bytes) body_size ≡ (ok body_size, some c))
unfolding encode fields fields_v1 fields_v2 fields_v3 fields_v4 fields_v5
decode-upgraded input n {c} h e =
    let a = decode-Accepted input n e in
    let small : c.capabilities < 2 ^ 16 = ground (arith, a.from_fields, h 6, h 7) in
    let written : encode (some c) (some body_size) ≡ ok (body c) = ground (arith, a.is_accepted) in
    (
      body c,
      written,
      subst (λ (xs : List ℕ). decode (some xs) body_size ≡ (ok body_size, some c))
          (append-nil (body c))
          (decode-encode c (some body_size) (body c) [] body_size small (omega arith) written),
    )
