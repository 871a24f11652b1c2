-- ===== src/Output/UsbState.antt =====
-- `apply_usb_set_state` of dualsense_output.c: what a host may change of the state of the controller.
pub mod Frame
use ds5dongle.Prelude.{
  ℕ, ◌-◌, Bool, true, false, ◌||◌, List, Option, none, some, ltb, if◌then◌else◌, bit_and, bit_or,
  get_or, set, drop, has_bits, length,
}
use ds5dongle.Output.{Context, ensure_set_state, copy, usb_set_state_len}

-- `state[at] = usb_payload[at]`
copy_byte : List ℕ → ℕ → List ℕ → List ℕ
copy_byte payload at state = set state at (get_or payload at 0)

-- `if (flags & mask) state[at] = usb_payload[at]`
copy_byte_if : Bool → List ℕ → ℕ → List ℕ → List ℕ
unfolding copy_byte
copy_byte_if allowed payload at state = if allowed then copy_byte payload at state else state

-- `if (flags & mask) memcpy(state + at, usb_payload + at, len)`
copy_bytes_if : Bool → List ℕ → ℕ → ℕ → List ℕ → List ℕ
unfolding copy
copy_bytes_if allowed payload at len state =
    if allowed then copy state at (drop at payload) len else state

-- The two lowest bits of the first flags and two bits of the third: the rest of each is kept.
merge_flags : List ℕ → List ℕ → List ℕ
merge_flags payload state =
    let s0 =
      set state 0 (bit_or (bit_and (get_or state 0 0) 0xfc) (bit_and (get_or payload 0 0) 0x03)) in
    set s0 38 (bit_or (bit_and (get_or s0 38 0) 0xf3) (bit_and (get_or payload 38 0) 0x0c))

-- The bytes of the two motors.
merge_rumble : List ℕ → List ℕ → List ℕ
unfolding copy_byte
merge_rumble payload state =
    if has_bits (get_or state 0 0) 0x02 || has_bits (get_or state 38 0) 0x08
    then copy_byte payload 3 (copy_byte payload 2 state)
    else set (set state 2 0) 3 0

-- The fields that a bit of the flags allows.
merge_allowed : List ℕ → List ℕ → List ℕ
merge_allowed payload s0 =
    let flags0 = get_or payload 0 0 in
    let flags1 = get_or payload 1 0 in
    let flags2 = get_or payload 38 0 in
    let s1 = copy_byte_if (has_bits flags0 0x10) payload 4 s0 in
    let s2 = copy_byte_if (has_bits flags0 0x20) payload 5 s1 in
    let s3 = copy_byte_if (has_bits flags0 0x40) payload 6 s2 in
    let s4 = copy_byte_if (has_bits flags0 0x80) payload 7 s3 in
    let s5 = copy_byte_if (has_bits flags1 0x01) payload 8 s4 in
    let s6 = copy_byte_if (has_bits flags1 0x02) payload 9 s5 in
    let s7 = copy_bytes_if (has_bits flags0 0x04) payload 10 11 s6 in
    let s8 = copy_bytes_if (has_bits flags0 0x08) payload 21 11 s7 in
    let s9 = copy_byte_if (has_bits flags1 0x40) payload 36 s8 in
    let s10 = copy_byte_if (has_bits flags1 0x80) payload 37 s9 in
    let s11 = copy_byte_if (has_bits flags1 0x20) payload 39 s10 in
    let s12 = copy_byte_if (has_bits flags2 0x02) payload 41 s11 in
    let s13 = copy_byte_if (has_bits flags2 0x01) payload 42 s12 in
    let s14 = copy_byte_if (has_bits flags1 0x10) payload 43 s13 in
    copy_bytes_if (has_bits flags1 0x04) payload 44 3 s14

-- What `apply_usb_set_state` does with a payload that is long enough.
pub merge_payload : Context → List ℕ → Context
merge_payload ctx payload =
    let ready = ensure_set_state ctx in
    let flagged = merge_flags payload ready.set_state in
    record ready { set_state = merge_allowed payload (merge_rumble payload flagged) }

-- `apply_usb_set_state`; the payload's length is that of the list, and `none` is the answer false,
-- with nothing changed.
unfoldable pub apply_usb_set_state : Context → Option (List ℕ) → Option Context
apply_usb_set_state ctx none = none
apply_usb_set_state ctx (some payload) =
    if ltb (length payload) usb_set_state_len then none else some (merge_payload ctx payload)
