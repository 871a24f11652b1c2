-- ===== src/WebConfig/Stored.antt =====
-- The stored record is read back, and no record is read whose bytes do not carry their CRC.
use ds5dongle.Prelude.{
  ℕ, ◌+◌, ◌-◌, ◌*◌, ◌^◌, ◌≤◌, ◌<◌, ◌≡◌, true, List, [], ◌∷◌, ◌++◌, Option, none, some, ◌==◌, get_or,
  ok, err, length, drop, arith, refl, subst, Bool-cases, inl, inr, ap, sym, ◌∙◌, uint32_max,
  byte_of,
}
use ds5dongle.WebConfig.{
  Config, is_valid, get_u32_le, put_u32_le, body_size, record_version, record_size, crc32_ieee,
  crc_loop,
}
use ds5dongle.WebConfig.Codec.{body, encode, decode, has_magic, Decoded}
use ds5dongle.WebConfig.RoundTrip.{decode-body}
use ds5dongle.WebConfig.Migration.{decode-Accepted}
use ds5dongle.WebConfig.Persistent.{
  sealed, persistent_encode, expected_size, is_record_size, record_answer, check_record,
  persistent_decode,
}

crc32_ieee-le : (xs : List ℕ) (n : ℕ) → crc32_ieee xs n ≤ uint32_max
unfolding crc32_ieee
crc32_ieee-le xs n = omega arith

-- The CRC of the first bytes does not read those behind them.
crc_loop-append :
    (xs ys : List ℕ) (crc : ℕ) → crc_loop (length xs) (xs ++ ys) crc ≡ crc_loop (length xs) xs crc
unfolding crc_loop
crc_loop-append [] ys crc = refl
crc_loop-append (x ∷ xs) ys crc = crc_loop-append xs ys _

crc32_ieee-append : (xs ys : List ℕ) → crc32_ieee (xs ++ ys) (length xs) ≡ crc32_ieee xs (length xs)
unfolding crc32_ieee
crc32_ieee-append xs ys = ap (λ n. uint32_max - n) (crc_loop-append xs ys uint32_max)

pub u32_bytes :
    (x : ℕ)
    → x ≤ uint32_max
    → byte_of 0 x + 2 ^ 8 * byte_of 1 x + 2 ^ 16 * byte_of 2 x + 2 ^ 24 * byte_of 3 x ≡ x
u32_bytes x h = omega arith

abbrev head : Config → List ℕ
head c = b'M' ∷ b'6' ∷ b'1' ∷ b'W' ∷ record_version ∷ body_size ∷ body c

length-sealed : (c : Config) → length (sealed (body c)) ≡ record_size
unfolding sealed body
length-sealed c = refl

crc-sealed :
    (c : Config)
    → crc32_ieee (sealed (body c)) (record_size - 4)
      ≡ get_u32_le (sealed (body c)) (record_size - 4)
unfolding sealed body
crc-sealed c =
    let crc = crc32_ieee (head c) (record_size - 4) in
    crc32_ieee-append (head c) (put_u32_le crc [])
    ∙ sym (u32_bytes crc (crc32_ieee-le (head c) (record_size - 4)))

decode-sealed :
    (c : Config)
    → is_valid c ≡ true
    → c.capabilities < 2 ^ 16
    → decode (some (drop 6 (sealed (body c)))) body_size ≡ (ok body_size, some c)
unfolding sealed
decode-sealed c v h =
    decode-body c (put_u32_le (crc32_ieee (head c) (record_size - 4)) []) body_size v h
      (omega arith)

check_record_good :
    (input : List ℕ) (n : ℕ) {k : ℕ} {c : Config}
    → crc32_ieee input (n - 4) ≡ get_u32_le input (n - 4)
    → decode (some (drop 6 input)) (get_or input 5 0) ≡ (ok k, some c)
    → check_record (some n) input n ≡ (ok n, some c)
unfolding check_record record_answer
check_record_good input n crc d = ground (arith, crc, d)

record_answer-ok :
    (size : ℕ) (d : Decoded) {k : ℕ} {c : Config}
    → record_answer size d ≡ (ok k, some c)
    → (k ≡ size) × (m : ℕ) × (d ≡ (ok m, some c))
unfolding record_answer
record_answer-ok size (ok n, c) e = (ground (arith, e), n, ap (λ (x : Decoded). (ok n, x.1)) e)
record_answer-ok size (err n, c) e = ground (arith, e)

check_record_sound :
    (size : Option ℕ) (input : List ℕ) (n : ℕ) {k : ℕ} {c : Config}
    → check_record size input n ≡ (ok k, some c)
    → (size ≡ some n)
      × (k ≡ n)
      × (crc32_ieee input (n - 4) ≡ get_u32_le input (n - 4))
      × (m : ℕ) × (decode (some (drop 6 input)) (get_or input 5 0) ≡ (ok m, some c))
unfolding check_record
check_record_sound none input n e = ground arith
check_record_sound (some size) input n {k} {c} e =
    let crc = crc32_ieee input (size - 4) in
    elim (Bool-cases (n == size)) [
      | inl same ↦ elim (Bool-cases (crc == get_u32_le input (size - 4))) [
        | inl good ↦
            let d = decode (some (drop 6 input)) (get_or input 5 0) in
            let accepted : record_answer size d ≡ (ok k, some c) = ground (arith, same, good, e) in
            let (q, m, p) = record_answer-ok size d accepted in
            let (eq, crc_eq) : (size ≡ n) × (crc ≡ get_u32_le input (size - 4)) =
              ground (arith, same, good) in
            (
              ap some eq,
              q ∙ eq,
              subst (λ w. crc32_ieee input (w - 4) ≡ get_u32_le input (w - 4)) eq crc_eq,
              m,
              p,
            )
        | inr bad ↦ ground (arith, same, bad, e)
      ]
      | inr other ↦ ground (arith, other, e)
    ]

persistent_decode-sealed :
    (c : Config)
    → crc32_ieee (sealed (body c)) (record_size - 4)
      ≡ get_u32_le (sealed (body c)) (record_size - 4)
    → decode (some (drop 6 (sealed (body c)))) body_size ≡ (ok body_size, some c)
    → persistent_decode (some (sealed (body c))) record_size ≡ (ok record_size, some c)
unfolding persistent_decode sealed
persistent_decode-sealed c crc d = check_record_good (sealed (body c)) record_size crc d

-- The record of a valid config is read back as that config.
pub persistent_decode-persistent_encode :
    (c : Config) (size : Option ℕ) (bytes : List ℕ)
    → c.capabilities < 2 ^ 16
    → persistent_encode (some c) size ≡ ok bytes
    → (length bytes ≡ record_size)
      × (persistent_decode (some bytes) record_size ≡ (ok record_size, some c))
unfolding persistent_encode encode
persistent_decode-persistent_encode c none bytes h e = ground arith
persistent_decode-persistent_encode c (some size) bytes h e =
    let made : (sealed (body c) ≡ bytes) × (is_valid c ≡ true) = ground (arith, e) in
    subst
      (λ (b : List ℕ).
        (length b ≡ record_size)
        × (persistent_decode (some b) record_size ≡ (ok record_size, some c)))
      made.0 (length-sealed c, persistent_decode-sealed c (crc-sealed c) (decode-sealed c made.1 h))

-- What is read without an error has the size of its version, the CRC of its bytes, and a valid
-- config as its body.
pub persistent_decode_sound :
    (input : List ℕ) (n : ℕ) {k : ℕ} {c : Config}
    → persistent_decode (some input) n ≡ (ok k, some c)
    → (k ≡ n)
      × (is_valid c ≡ true)
      × (crc32_ieee input (n - 4) ≡ get_u32_le input (n - 4))
      × (expected_size (get_or input 4 0) (get_or input 5 0) ≡ some n)
unfolding persistent_decode
persistent_decode_sound input n e = elim (Bool-cases (is_record_size n)) [
  | inl sized ↦ elim (Bool-cases (has_magic b'M' b'6' b'1' b'W' input)) [
    | inl magic ↦
        let (size, k, crc, m, d) = check_record_sound _ input n (ground (arith, sized, magic, e)) in
        (k, (decode-Accepted (drop 6 input) (get_or input 5 0) d).is_accepted, crc, size)
    | inr other ↦ ground (arith, sized, other, e)
  ]
  | inr other ↦ ground (arith, other, e)
]
