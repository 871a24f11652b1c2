-- ===== src/Output.antt =====
-- The output reports of m61/dualsense_hidp_probe/dualsense_output.{h,c}: the context, the checksum
-- and the state that a host sets.
pub mod UsbState
pub mod Reports
pub mod Table
pub mod Kept
pub mod Within
use ds5dongle.Prelude.{
  ℕ, ◌+◌, ◌-◌, ◌*◌, ◌/◌, ◌%◌, ◌^◌, zero, suc, Bool, ◌&&◌, not, List, [], ◌∷◌, Option, none, some,
  ltb, ◌==◌, if◌then◌else◌, bit_and, bit_or, bit_xor, byte_of, get_or, set, take, drop, replicate,
  length, u8, uint32_max,
}

-- `dualsense_output_context_t`
pub record Context : Type 0 where
  pub sequence : ℕ
  pub audio_packet_counter : ℕ
  pub set_state : List ℕ

abbrev pub set_state_len : ℕ
set_state_len = 63

abbrev pub usb_set_state_len : ℕ
usb_set_state_len = 47

abbrev pub report31_len : ℕ
report31_len = 78

abbrev pub report32_len : ℕ
report32_len = 142

abbrev pub report36_len : ℕ
report36_len = 398

abbrev pub audio_rt_len : ℕ
audio_rt_len = 547

abbrev pub haptics_block_len : ℕ
haptics_block_len = 64

abbrev pub speaker_opus_len_max : ℕ
speaker_opus_len_max = 200

abbrev pub speaker_block : ℕ
speaker_block = 0x13

abbrev pub output_crc_seed : ℕ
output_crc_seed = 0xa2

abbrev pub feature_crc_seed : ℕ
feature_crc_seed = 0x53

-- `s_ds5_set_state_default`
abbrev pub set_state_default : List ℕ
set_state_default =
    0xfd ∷ 0xf7 ∷ 0 ∷ 0 ∷ 0x64 ∷ 0x64 ∷ 0xff ∷ 0x09 ∷ 0 ∷ 0x0f ∷ 0 ∷ 0 ∷ 0 ∷ 0 ∷ 0 ∷ 0 ∷ 0 ∷ 0 ∷ 0
    ∷ 0 ∷ 0 ∷ 0 ∷ 0 ∷ 0 ∷ 0 ∷ 0 ∷ 0 ∷ 0 ∷ 0 ∷ 0 ∷ 0 ∷ 0 ∷ 0 ∷ 0 ∷ 0 ∷ 0 ∷ 0 ∷ 0x01 ∷ 0x07 ∷ 0 ∷ 0
    ∷ 0x02 ∷ 0x01 ∷ 0 ∷ 0xff ∷ 0xd7 ∷ 0 ∷ 0 ∷ 0 ∷ 0 ∷ 0 ∷ 0 ∷ 0 ∷ 0 ∷ 0 ∷ 0 ∷ 0 ∷ 0 ∷ 0 ∷ 0 ∷ 0 ∷ 0
    ∷ 0 ∷ []

-- `crc32_nibble_table`
abbrev pub crc32_nibble_table : List ℕ
crc32_nibble_table =
    0x00000000 ∷ 0x1db71064 ∷ 0x3b6e20c8 ∷ 0x26d930ac ∷ 0x76dc4190 ∷ 0x6b6b51f4 ∷ 0x4db26158
    ∷ 0x5005713c ∷ 0xedb88320 ∷ 0xf00f9344 ∷ 0xd6d6a3e8 ∷ 0xcb61b38c ∷ 0x9b64c2b0 ∷ 0x86d3d2d4
    ∷ 0xa00ae278 ∷ 0xbdbdf21c ∷ []

-- One line of the loop of `crc32_le_update`, which takes four bits.
pub crc_nibble : ℕ → ℕ
crc_nibble crc = bit_xor (crc / 2 ^ 4) (get_or crc32_nibble_table (bit_and crc 0x0f) 0)

-- `crc32_le_update` over the first `len` bytes.
pub crc32_le_update : ℕ → List ℕ → ℕ → ℕ
unfolding crc_nibble
crc32_le_update crc input zero = crc
crc32_le_update crc [] (suc len) = crc
crc32_le_update crc (x ∷ input) (suc len) =
    crc32_le_update (crc_nibble (crc_nibble (bit_xor crc x))) input len

-- `dualsense_output_crc32`
unfoldable pub output_crc32 : List ℕ → ℕ → ℕ
unfolding crc32_le_update
output_crc32 input len =
    let seeded = crc32_le_update uint32_max (output_crc_seed ∷ []) 1 in
    uint32_max - crc32_le_update seeded input len

-- `dualsense_feature_crc32`
unfoldable pub feature_crc32 : List ℕ → ℕ → ℕ
unfolding crc32_le_update
feature_crc32 input len =
    let seeded = crc32_le_update uint32_max (feature_crc_seed ∷ []) 1 in
    uint32_max - crc32_le_update seeded input len

-- A word at the index `at`, the lowest byte first.
unfoldable pub put_crc : List ℕ → ℕ → ℕ → List ℕ
put_crc report at crc =
    let b0 = set report at (byte_of 0 crc) in
    let b1 = set b0 (at + 1) (byte_of 1 crc) in
    let b2 = set b1 (at + 2) (byte_of 2 crc) in set b2 (at + 3) (byte_of 3 crc)

-- `fill_crc`
unfoldable pub fill_crc : List ℕ → ℕ → List ℕ
unfolding output_crc32 put_crc
fill_crc report len = put_crc report (len - 4) (output_crc32 report (len - 4))

-- `dualsense_feature_fill_crc`; `none` is NULL.
unfoldable pub feature_fill_crc : Option (List ℕ) → ℕ → Option (List ℕ)
unfolding feature_crc32 put_crc
feature_fill_crc none len = none
feature_fill_crc (some input) len =
    if ltb len 4 then some input else some (put_crc input (len - 4) (feature_crc32 input (len - 4)))

-- `dualsense_output_init`, `reset_set_state`
unfoldable pub reset_set_state : Context → Context
reset_set_state ctx = record ctx { set_state = set_state_default }

unfoldable pub init : Context → Context
unfolding reset_set_state
init ctx = reset_set_state (record ctx { sequence = 0; audio_packet_counter = 0 })

-- `ensure_set_state`
unfoldable pub ensure_set_state : Context → Context
unfolding reset_set_state
ensure_set_state ctx =
    if get_or ctx.set_state 0 0 == 0 && get_or ctx.set_state 1 0 == 0
    then reset_set_state ctx
    else ctx

-- `memcpy(dst + at, src, len)`
unfoldable pub copy : List ℕ → ℕ → List ℕ → ℕ → List ℕ
copy dst at src zero = dst
copy dst at [] (suc len) = dst
copy dst at (x ∷ src) (suc len) = copy (set dst at x) (at + 1) src len
