-- ===== src/Prelude/Words.antt =====
-- C's unsigned words: a value is a number, and every sum is cut to the width of its type.
use Prim.Native.Nat.{ℕ, ◌+◌, ◌-◌, ◌*◌, ◌/◌, ◌%◌, ◌^◌, bit_and}
use mathlib.Core.Bool.{Bool, true, false, not}
use ds5dongle.Prelude.Tests.{◌==◌}

abbrev pub u8 : ℕ → ℕ
u8 n = n % 2 ^ 8

abbrev pub u16 : ℕ → ℕ
u16 n = n % 2 ^ 16

abbrev pub u32 : ℕ → ℕ
u32 n = n % 2 ^ 32

abbrev pub u64 : ℕ → ℕ
u64 n = n % 2 ^ 64

abbrev pub uint8_max : ℕ
uint8_max = 2 ^ 8 - 1

abbrev pub uint32_max : ℕ
uint32_max = 2 ^ 32 - 1

abbrev pub uint64_max : ℕ
uint64_max = 2 ^ 64 - 1

-- `x++` on a `uint32_t`.
abbrev pub inc32 : ℕ → ℕ
inc32 n = u32 (n + 1)

-- `(x & mask) != 0`.
abbrev pub has_bits : ℕ → ℕ → Bool
has_bits x mask = not (bit_and x mask == 0)

-- A `bool` counted as 0 or 1.
abbrev pub from_bool : Bool → ℕ
from_bool true = 1
from_bool false = 0

-- `(uint8_t)(x >> 8 k)`, the byte k of a number.
abbrev pub byte_of : ℕ → ℕ → ℕ
byte_of k x = x / 2 ^ (8 * k) % 2 ^ 8
