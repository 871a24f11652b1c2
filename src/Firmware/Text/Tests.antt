-- ===== src/Firmware/Text/Tests.antt =====
-- Texts that main.c reads and prints, at concrete inputs.
use ds5dongle.Prelude.{ℕ, zero, suc, ◌<◌, List, [], ◌∷◌, ok, err, get_or, ◌≡◌, refl, arith}
use ds5dongle.Firmware.Text.{
  hex_nibble, parse_pairs, parse_addr, parse_hex_bytes, parse_args, parse_hex_args, print_hex,
  reversed,
}
use ds5dongle.Firmware.Text.Printed.{parse_hex_bytes-print_hex, parse_addr-print_hex}

abbrev address : List ℕ
address = 0x1a ∷ 0x2b ∷ 0x3c ∷ 0x4d ∷ 0x5e ∷ 0xff ∷ []

address_bytes : (i : ℕ) → get_or address i 0 < 256
address_bytes zero = omega arith
address_bytes (suc zero) = omega arith
address_bytes (suc (suc zero)) = omega arith
address_bytes (suc (suc (suc zero))) = omega arith
address_bytes (suc (suc (suc (suc zero)))) = omega arith
address_bytes (suc (suc (suc (suc (suc zero))))) = omega arith
address_bytes (suc (suc (suc (suc (suc (suc i)))))) = omega arith

parse_hex_bytes-print_hex_example : parse_hex_bytes (print_hex 32 address) 8 ≡ ok address
parse_hex_bytes-print_hex_example =
    parse_hex_bytes-print_hex address 8 address_bytes (omega arith) (omega arith)

parse_addr-print_hex_example : parse_addr (print_hex 58 address) ≡ ok (reversed address)
parse_addr-print_hex_example = parse_addr-print_hex address 58 address_bytes refl refl

-- "A1,0b" has two bytes, "A1:" ends behind one, "1" and "0g" are no bytes, and three bytes do not fit.
comma : parse_hex_bytes (65 ∷ 49 ∷ 44 ∷ 48 ∷ 98 ∷ []) 4 ≡ ok (0xa1 ∷ 0x0b ∷ [])
unfolding parse_hex_bytes parse_pairs hex_nibble
comma = refl

trailing : parse_hex_bytes (65 ∷ 49 ∷ 58 ∷ []) 4 ≡ ok (0xa1 ∷ [])
unfolding parse_hex_bytes parse_pairs hex_nibble
trailing = refl

half_byte : parse_hex_bytes (49 ∷ []) 4 ≡ err 22
unfolding parse_hex_bytes parse_pairs hex_nibble
half_byte = refl

no_digit : parse_hex_bytes (48 ∷ 103 ∷ []) 4 ≡ err 22
unfolding parse_hex_bytes parse_pairs hex_nibble
no_digit = refl

no_room : parse_hex_bytes (48 ∷ 49 ∷ 48 ∷ 49 ∷ []) 1 ≡ err 28
unfolding parse_hex_bytes parse_pairs hex_nibble
no_room = refl

two_arguments : parse_hex_args ((48 ∷ 49 ∷ []) ∷ (48 ∷ 50 ∷ []) ∷ []) 2 ≡ ok (1 ∷ 2 ∷ [])
unfolding parse_hex_args parse_args parse_hex_bytes parse_pairs hex_nibble
two_arguments = refl
