-- ===== src/WebConfig/Persistent.antt =====
-- The stored record of the configuration: m61_web_persistent_encode and m61_web_persistent_decode of
-- m61_web_config.c. The record is the magic "M61W", a version, the size of the body, the body, and
-- a CRC-32 of all that.
use ds5dongle.Prelude.{
  ℕ, ◌-◌, Bool, ◌&&◌, ◌||◌, not, List, [], ◌∷◌, ◌++◌, Option, none, some, ltb, ◌==◌, if◌then◌else◌,
  get_or, Result, ok, err, drop,
}
use ds5dongle.WebConfig.{
  Config, get_u32_le, put_u32_le, body_size, record_version, record_size, crc32_ieee,
}
use ds5dongle.WebConfig.Codec.{encode, decode, has_magic, Decoded}

-- The record in front of its CRC: the last four bytes.
unfoldable pub sealed : List ℕ → List ℕ
sealed bytes =
    let head = b'M' ∷ b'6' ∷ b'1' ∷ b'W' ∷ record_version ∷ body_size ∷ bytes in
    head ++ put_u32_le (crc32_ieee head (record_size - 4)) []

unfoldable pub seal : Result (List ℕ) → Result (List ℕ)
unfolding sealed
seal (ok bytes) = ok (sealed bytes)
seal (err n) = err n

-- `m61_web_persistent_encode`: the 33 bytes written from `output` on. The size of an output that is
-- NULL is `none`.
unfoldable pub persistent_encode : Option Config → Option ℕ → Result (List ℕ)
unfolding seal
persistent_encode c none = err 1
persistent_encode c (some size) =
    if ltb size record_size then err 1 else seal (encode c (some body_size))

-- The sizes of a record in its five versions.
abbrev pub is_record_size : ℕ → Bool
is_record_size n = (n == record_size) || (n == 30) || (n == 31) || (n == 28) || (n == 26)

-- `expected_size`, for a version of the record and the size of its body.
abbrev pub expected_size : ℕ → ℕ → Option ℕ
expected_size version size =
    if (version == 1) && (size == 16)
    then some 26
    else if (version == 2) && (size == 18)
    then some 28
    else if (version == 3) && (size == 20)
    then some 30
    else if (version == 4) && (size == 21)
    then some 31
    else if (version == record_version) && (size == body_size)
    then some record_size
    else none

-- The answer, where the body was decoded.
unfoldable pub record_answer : ℕ → Decoded → Decoded
record_answer size (ok n, c) = (ok size, c)
record_answer size (err n, c) = (err 4, c)

unfoldable pub check_record : Option ℕ → List ℕ → ℕ → Decoded
unfolding record_answer
check_record none input input_size = (err 3, none)
check_record (some size) input input_size =
    if not (input_size == size)
    then (err 1, none)
    else if not (crc32_ieee input (size - 4) == get_u32_le input (size - 4))
    then (err 5, none)
    else record_answer size (decode (some (drop 6 input)) (get_or input 5 0))

-- `m61_web_persistent_decode`: an input that is NULL is `none`.
unfoldable pub persistent_decode : Option (List ℕ) → ℕ → Decoded
unfolding check_record
persistent_decode none input_size = (err 1, none)
persistent_decode (some input) input_size =
    if not (is_record_size input_size)
    then (err 1, none)
    else if not (has_magic b'M' b'6' b'1' b'W' input)
    then (err 2, none)
    else check_record (expected_size (get_or input 4 0) (get_or input 5 0)) input input_size
