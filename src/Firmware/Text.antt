-- ===== src/Firmware/Text.antt =====
-- The texts that the commands of main.c read and print: bytes as hexadecimal digits.
pub mod Printed
mod Tests
use ds5dongle.Prelude.{
  ℕ, ◌+◌, ◌-◌, ◌*◌, ◌/◌, ◌%◌, ◌^◌, Bool, true, false, ◌&&◌, ◌||◌, List, [], ◌∷◌, ◌++◌, Option, none,
  some, leb, ltb, ◌==◌, if◌then◌else◌, bit_or, u8, Result, ok, err, length,
}

-- Constants of the C library.
abbrev pub einval : ℕ
einval = 22

abbrev pub enospc : ℕ
enospc = 28

-- `hex_nibble`, where `none` is -1.
unfoldable pub hex_nibble : ℕ → Option ℕ
hex_nibble ch =
    if leb 48 ch && leb ch 57
    then some (ch - 48)
    else if leb 97 ch && leb ch 102
    then some (ch - 97 + 10)
    else if leb 65 ch && leb ch 70
    then some (ch - 65 + 10)
    else none

-- The characters between bytes: `:`, `-` and blank, and for `parse_hex_bytes` a comma.
abbrev pub is_addr_separator : ℕ → Bool
is_addr_separator ch = ch == 58 || ch == 45 || ch == 32

abbrev pub is_separator : ℕ → Bool
is_separator ch = is_addr_separator ch || ch == 44

abbrev pub prepend : ℕ → Result (List ℕ) → Result (List ℕ)
prepend b (ok bytes) = ok (b ∷ bytes)
prepend b (err e) = err e

-- The byte of two digits, before what the rest of the text holds.
abbrev pub pair_of : Option ℕ → Option ℕ → Result (List ℕ) → Result (List ℕ)
pair_of none lo rest = err einval
pair_of (some hi) none rest = err einval
pair_of (some hi) (some lo) rest = prepend (u8 (bit_or lo (hi * 2 ^ 4))) rest

-- The loop of `parse_addr` and of `parse_hex_bytes`, with room for `room` bytes. The first three clauses
-- are the loop over separators, which leaves the outer loop at the end of the text.
unfoldable pub parse_pairs : (ℕ → Bool) → ℕ → ℕ → List ℕ → Result (List ℕ)
parse_pairs separates full room [] = ok []
parse_pairs separates full room (ch ∷ []) =
    if separates ch then ok [] else if room == 0 then err full else err einval
parse_pairs separates full room (ch ∷ next ∷ text) =
    let skipped = parse_pairs separates full room (next ∷ text) in
    let rest = parse_pairs separates full (room - 1) text in
    if separates ch
    then skipped
    else if room == 0
    then err full
    else pair_of (hex_nibble ch) (hex_nibble next) rest

-- `parse_addr`: the bytes of `addr->val`.
abbrev pub reversed : List ℕ → List ℕ
reversed [] = []
reversed (b ∷ bytes) = reversed bytes ++ b ∷ []

abbrev pub addr_of : Result (List ℕ) → Result (List ℕ)
addr_of (err e) = err e
addr_of (ok bytes) = if length bytes == 6 then ok (reversed bytes) else err einval

unfoldable pub parse_addr : List ℕ → Result (List ℕ)
unfolding parse_pairs
parse_addr text = addr_of (parse_pairs is_addr_separator einval 6 text)

abbrev pub some_bytes : Result (List ℕ) → Result (List ℕ)
some_bytes (err e) = err e
some_bytes (ok bytes) = if length bytes == 0 then err einval else ok bytes

-- `parse_hex_bytes`
unfoldable pub parse_hex_bytes : List ℕ → ℕ → Result (List ℕ)
unfolding parse_pairs
parse_hex_bytes text out_size = some_bytes (parse_pairs is_separator enospc out_size text)

-- `parse_hex_args`
abbrev pub joined : List ℕ → Result (List ℕ) → Result (List ℕ)
joined bytes (ok more) = ok (bytes ++ more)
joined bytes (err e) = err e

unfoldable pub parse_args : List (List ℕ) → ℕ → Result (List ℕ)
unfolding parse_hex_bytes
parse_args [] room = ok []
parse_args (text ∷ texts) room = elim (parse_hex_bytes text room) [
  | err e ↦ err e
  | ok bytes ↦ joined bytes (parse_args texts (room - length bytes))
]

unfoldable pub parse_hex_args : List (List ℕ) → ℕ → Result (List ℕ)
unfolding parse_args
parse_hex_args texts out_size = some_bytes (parse_args texts out_size)

-- What `%02x` prints of a digit, and of a byte.
abbrev pub hex_digit : ℕ → ℕ
hex_digit d = if ltb d 10 then 48 + d else 87 + d

-- The bytes, each behind the separator `between`.
abbrev pub separated : ℕ → List ℕ → List ℕ
separated between [] = []
separated between (b ∷ bytes) =
    between ∷ hex_digit (b / 16) ∷ hex_digit (b % 16) ∷ separated between bytes

-- The bytes with `between` between them: `print_hex_line` up to the end of the line, with a blank.
unfoldable pub print_hex : ℕ → List ℕ → List ℕ
print_hex between [] = []
print_hex between (b ∷ bytes) = hex_digit (b / 16) ∷ hex_digit (b % 16) ∷ separated between bytes
