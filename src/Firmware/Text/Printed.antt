-- ===== src/Firmware/Text/Printed.antt =====
-- Reading what is printed as hexadecimal digits.
use ds5dongle.Prelude.{
  ℕ, zero, suc, ◌+◌, ◌-◌, ◌*◌, ◌/◌, ◌%◌, ◌^◌, ◌<◌, ◌≤◌, Bool, true, false, List, [], ◌∷◌, some, ltb,
  ◌==◌, if◌then◌else◌, bit_or, u8, ok, err, length, get_or, ◌≡◌, refl, ap, ◌∙◌, arith, or_fields,
}
use ds5dongle.Firmware.Text.{
  hex_nibble, is_addr_separator, is_separator, prepend, parse_pairs, reversed, addr_of, parse_addr,
  some_bytes, parse_hex_bytes, hex_digit, separated, print_hex,
}

hex_nibble-digit : (d : ℕ) → d < 16 → hex_nibble (hex_digit d) ≡ some d
unfolding hex_nibble
hex_nibble-digit d low = by_test (ltb d 10) (λ e. ground (arith, e)) (λ e. ground (arith, e))
  where
    by_test :
        (decimal : Bool)
        → (decimal ≡ true → d < 10)
        → (decimal ≡ false → 10 ≤ d)
        → hex_nibble (if decimal then 48 + d else 87 + d) ≡ some d
    by_test true p q = ground (arith, p refl)
    by_test false p q = ground (arith, q refl)

digit-is_separator : (d : ℕ) → d < 16 → is_separator (hex_digit d) ≡ false
digit-is_separator d low = ground arith

byte_of_digits : (b : ℕ) → b < 256 → u8 (bit_or (b % 16) (b / 16 * 2 ^ 4)) ≡ b
byte_of_digits b low = omega (arith, or_fields 4 (b / 16) (b % 16) (omega arith))

not_zero : (n : ℕ) → (suc n == 0) ≡ false
not_zero n = ground arith

-- A loop that stops at no digit, over a text whose separator it skips.
module _ (separates : ℕ → Bool) (full between : ℕ)
    (digits : (d : ℕ) → d < 16 → separates (hex_digit d) ≡ false)
    (skips : separates between ≡ true) where
  parse_pairs-pair :
      (room b : ℕ) (text : List ℕ)
      → b < 256
      → parse_pairs separates full (suc room) (hex_digit (b / 16) ∷ hex_digit (b % 16) ∷ text)
        ≡ prepend b (parse_pairs separates full room text)
  unfolding parse_pairs
  parse_pairs-pair room b text low =
      rw
        (
          digits (b / 16) (omega arith),
          hex_nibble-digit (b / 16) (omega arith),
          hex_nibble-digit (b % 16) (omega arith),
          byte_of_digits b low,
          not_zero room,
        )
        (ap (λ (n : ℕ). prepend b (parse_pairs separates full n text)) {x = suc room - 1} {y = room}
          (omega arith))

  pub parse_pairs-separated :
      (bytes : List ℕ) (room : ℕ)
      → ((i : ℕ) → get_or bytes i 0 < 256)
      → length bytes ≤ room
      → parse_pairs separates full room (separated between bytes) ≡ ok bytes
  unfolding parse_pairs
  parse_pairs-separated [] room low fits = refl
  parse_pairs-separated (b ∷ bytes) zero low fits = absurd (omega arith)
  parse_pairs-separated (b ∷ bytes) (suc room) low fits = rw skips (
      parse_pairs-pair room b (separated between bytes) (low 0)
      ∙ ap (prepend b) (parse_pairs-separated bytes room (λ i. low (suc i)) (omega arith)))

  pub parse_pairs-print_hex :
      (bytes : List ℕ) (room : ℕ)
      → ((i : ℕ) → get_or bytes i 0 < 256)
      → length bytes ≤ room
      → parse_pairs separates full room (print_hex between bytes) ≡ ok bytes
  unfolding print_hex parse_pairs
  parse_pairs-print_hex [] room low fits = refl
  parse_pairs-print_hex (b ∷ bytes) zero low fits = absurd (omega arith)
  parse_pairs-print_hex (b ∷ bytes) (suc room) low fits =
      parse_pairs-pair room b (separated between bytes) (low 0)
      ∙ ap (prepend b) (parse_pairs-separated bytes room (λ i. low (suc i)) (omega arith))

-- The line that is printed for at least one byte, up to its end, is read again as those bytes, where
-- there is room for them.
pub parse_hex_bytes-print_hex :
    (bytes : List ℕ) (out_size : ℕ)
    → ((i : ℕ) → get_or bytes i 0 < 256)
    → 0 < length bytes
    → length bytes ≤ out_size
    → parse_hex_bytes (print_hex 32 bytes) out_size ≡ ok bytes
unfolding parse_hex_bytes
parse_hex_bytes-print_hex bytes out_size low one fits =
    ap some_bytes
      (parse_pairs-print_hex is_separator 28 32 digit-is_separator refl bytes out_size low fits)
    ∙ ap (λ (empty : Bool). if empty then err 22 else ok bytes) {x = length bytes == 0} {y = false}
        (ground (arith, one))

-- An address of six bytes that is written with colons, hyphens or blanks between them is read in the order
-- that the stack keeps, the last byte first.
pub parse_addr-print_hex :
    (bytes : List ℕ) (between : ℕ)
    → ((i : ℕ) → get_or bytes i 0 < 256)
    → length bytes ≡ 6
    → is_addr_separator between ≡ true
    → parse_addr (print_hex between bytes) ≡ ok (reversed bytes)
unfolding parse_addr
parse_addr-print_hex bytes between low six skips =
    ap addr_of (
      parse_pairs-print_hex is_addr_separator 22 between (λ d h. ground arith) skips bytes 6 low
        (omega (arith, six)))
    ∙ ap (λ (n : ℕ). if n == 6 then ok (reversed bytes) else err 22) six
