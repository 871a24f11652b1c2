-- ===== src/Output/Reports.antt =====
-- The functions of dualsense_output.c that make a report. The length of a buffer is that of its list,
-- and the answer false, with nothing changed, is `none`.
pub mod Sealed
pub mod Made
pub mod Carried
mod Tests
use ds5dongle.Prelude.{
  ℕ, ◌+◌, ◌*◌, Bool, true, false, ◌&&◌, ◌||◌, not, List, Option, none, some, ltb, ◌==◌,
  if◌then◌else◌, bit_and, bit_or, get_or, set, drop, replicate, length, min, u8, ◌++◌,
}
use ds5dongle.Output.{
  Context, ensure_set_state, copy, fill_crc, set_state_len, report31_len, report32_len,
  report36_len, audio_rt_len, haptics_block_len, speaker_opus_len_max, speaker_block,
}
use ds5dongle.Output.UsbState.{apply_usb_set_state}

-- `memset(report, 0, len)`
clear : List ℕ → ℕ → List ℕ
clear report len = replicate len 0 ++ drop len report

-- The byte of the sequence, `(uint8_t)((ctx->sequence++ & 0x0F) << 4)`, and its increment.
sequence_byte : Context → ℕ
sequence_byte ctx = u8 (bit_and ctx.sequence 0x0f * 16)

next_sequence : Context → Context
next_sequence ctx = record ctx { sequence = u8 (ctx.sequence + 1) }

next_packet : Context → Context
next_packet ctx = record ctx { audio_packet_counter = u8 (ctx.audio_packet_counter + 1) }

-- The id of a report and its sequence.
pub start : Context → List ℕ → ℕ → ℕ → List ℕ
unfolding clear sequence_byte
start ctx report len id = set (set (clear report len) 0 id) 1 (sequence_byte ctx)

fill_report31 : Context → List ℕ → Context × List ℕ
unfolding start next_sequence copy fill_crc
fill_report31 ctx report =
    let tagged = set (start ctx report report31_len 0x31) 2 0x10 in
    (next_sequence ctx, fill_crc (copy tagged 3 ctx.set_state set_state_len) report31_len)

-- `dualsense_output_make_report31`
unfoldable pub make_report31 : Context → Option (List ℕ) → Option (Context × List ℕ)
unfolding ensure_set_state fill_report31
make_report31 ctx none = none
make_report31 ctx (some report) =
    if ltb (length report) report31_len
    then none
    else some (fill_report31 (ensure_set_state ctx) report)

-- `dualsense_output_make_report31_from_usb`
unfoldable pub make_report31_from_usb :
    Context → Option (List ℕ) → Option (List ℕ) → Option (Context × List ℕ)
unfolding apply_usb_set_state fill_report31
make_report31_from_usb ctx payload none = none
make_report31_from_usb ctx payload (some report) =
    if ltb (length report) report31_len then none else elim (apply_usb_set_state ctx payload) [
      | none ↦ none
      | some applied ↦ some (fill_report31 applied report)
    ]

-- `dualsense_output_make_report32`
unfoldable pub make_report32 : Context → Option (List ℕ) → Option (Context × List ℕ)
unfolding ensure_set_state start next_sequence copy fill_crc
make_report32 ctx none = none
make_report32 ctx (some report) =
    if ltb (length report) report32_len
    then none
    else let ready = ensure_set_state ctx in
      let tagged = set (set (start ready report report32_len 0x32) 2 0x90) 3 set_state_len in
      some
        (next_sequence ready, fill_crc (copy tagged 4 ready.set_state set_state_len) report32_len)

-- The bytes 2 to 10 of an audio report.
audio_header : List ℕ → Bool → ℕ → ℕ → List ℕ
audio_header r mic buffer packet =
    let r2 = set (set r 2 0x91) 3 7 in
    let r4 = set r2 4 (if mic then 0xff else 0xfe) in
    let r6 = set (set r4 5 buffer) 6 buffer in
    let r9 = set (set (set r6 7 buffer) 8 buffer) 9 buffer in set r9 10 packet

-- `dualsense_output_make_report32_audio_status`
unfoldable pub make_report32_audio_status :
    Context → Bool → ℕ → Option (List ℕ) → Option (Context × List ℕ)
unfolding start audio_header next_sequence next_packet fill_crc
make_report32_audio_status ctx mic buffer_len none = none
make_report32_audio_status ctx mic buffer_len (some report) =
    if ltb (length report) report32_len
    then none
    else let buffer = if buffer_len == 0 then 64 else buffer_len in
      let begun = start ctx report report32_len 0x32 in
      some (
        next_packet (next_sequence ctx),
        fill_crc (audio_header begun mic buffer ctx.audio_packet_counter) report32_len,
      )

-- The block that a pointer leads to, where there is one.
copy_block : List ℕ → ℕ → Option (List ℕ) → ℕ → List ℕ
unfolding copy
copy_block report at none len = report
copy_block report at (some block) len = copy report at block len

-- The haptics of `dualsense_output_make_report36_audio` are used if they are long enough, and the
-- packet of the speaker if it is not empty.
pub usable_haptics : Option (List ℕ) → Option (List ℕ)
usable_haptics none = none
usable_haptics (some block) = if ltb (length block) haptics_block_len then none else some block

pub usable_speaker : Option (List ℕ) → Option (List ℕ)
usable_speaker none = none
usable_speaker (some packet) = if length packet == 0 then none else some packet

pub is_some : Option (List ℕ) → Bool
is_some none = false
is_some (some block) = true

block_id : ℕ → ℕ
block_id id = if id == 0 then speaker_block else id

put_speaker : List ℕ → Option (List ℕ) → ℕ → List ℕ
unfolding copy block_id
put_speaker report none id = report
put_speaker report (some packet) id =
    let tagged = set (set report 142 (u8 (bit_or (block_id id) 0x80))) 143 speaker_opus_len_max in
    copy tagged 144 packet (min (length packet) speaker_opus_len_max)

fill_report36 : Context → Option (List ℕ) → Option (List ℕ) → ℕ → Bool → ℕ → List ℕ → List ℕ
unfolding start audio_header copy_block put_speaker fill_crc
fill_report36 ctx haptics speaker id mic buffer report =
    let begun = start ctx report report36_len 0x36 in
    let headed = audio_header begun mic buffer ctx.audio_packet_counter in
    let stated = copy (set (set headed 11 0x90) 12 set_state_len) 13 ctx.set_state set_state_len in
    let tagged = set (set stated 76 0x92) 77 haptics_block_len in
    let shaken = copy_block tagged 78 haptics haptics_block_len in
    fill_crc (put_speaker shaken speaker id) report36_len

-- `dualsense_output_make_report36_audio`
unfoldable pub make_report36_audio :
    Context
    → Option (List ℕ)
    → Option (List ℕ)
    → ℕ
    → Bool
    → ℕ
    → Option (List ℕ)
    → Option (Context × List ℕ)
unfolding usable_haptics usable_speaker is_some ensure_set_state next_sequence next_packet
    fill_report36
make_report36_audio ctx haptics speaker id mic buffer_len none = none
make_report36_audio ctx haptics speaker id mic buffer_len (some report) =
    let block = usable_haptics haptics in
    let packet = usable_speaker speaker in
    if ltb (length report) report36_len || not (is_some block) && not (is_some packet)
    then none
    else let ready = ensure_set_state ctx in
      let buffer = if buffer_len == 0 then 64 else buffer_len in
      some
        (next_packet (next_sequence ready), fill_report36 ready block packet id mic buffer report)

-- `dualsense_output_make_report36_haptics`
unfoldable pub make_report36_haptics :
    Context → Option (List ℕ) → Bool → ℕ → Option (List ℕ) → Option (Context × List ℕ)
unfolding make_report36_audio
make_report36_haptics ctx haptics mic buffer_len report =
    make_report36_audio ctx haptics none speaker_block mic buffer_len report

-- The bytes 2 to 11 of the report of two epochs.
rt_header : List ℕ → Bool → ℕ → ℕ → List ℕ
rt_header r mic buffer packet =
    let r2 = set (set r 2 0x91) 3 6 in
    let r4 = set r2 4 (if mic then 0x7f else 0x7e) in
    let r6 = set (set r4 5 buffer) 6 buffer in
    let r9 = set (set (set r6 7 buffer) 8 buffer) 9 packet in
    set (set r9 10 0xd2) 11 haptics_block_len

fill_audio_rt :
    Context
    → Option (List ℕ) × Option (List ℕ)
    → Option (List ℕ) × Option (List ℕ)
    → ℕ
    → ℕ
    → Bool
    → ℕ
    → List ℕ
    → List ℕ
unfolding start rt_header copy_block is_some block_id fill_crc
fill_audio_rt ctx haptics speaker copy_len id mic buffer report =
    let begun = start ctx report audio_rt_len 0x39 in
    let headed = rt_header begun mic buffer (u8 (ctx.audio_packet_counter + 2)) in
    let first = copy_block headed 12 haptics.0 haptics_block_len in
    let shaken = copy_block first (12 + haptics_block_len) haptics.1 haptics_block_len in
    let tagged = set (set shaken 140 (u8 (bit_or (block_id id) 0xc0))) 141 speaker_opus_len_max in
    let sounding =
      copy_block (copy_block tagged 142 speaker.0 copy_len) (142 + speaker_opus_len_max) speaker.1
        copy_len in
    fill_crc (if is_some speaker.0 || is_some speaker.1 then sounding else shaken) audio_rt_len

-- `dualsense_output_make_audio_rt`: two blocks of haptics and two packets of one length.
unfoldable pub make_audio_rt :
    Context
    → Option (List ℕ) × Option (List ℕ)
    → Option (List ℕ) × Option (List ℕ)
    → ℕ
    → ℕ
    → Bool
    → ℕ
    → Option (List ℕ)
    → Option (Context × List ℕ)
unfolding is_some fill_audio_rt
make_audio_rt ctx haptics speaker opus_len id mic buffer_len none = none
make_audio_rt ctx haptics speaker opus_len id mic buffer_len (some report) =
    let have_haptics = is_some haptics.0 || is_some haptics.1 in
    let have_speaker = is_some speaker.0 || is_some speaker.1 in
    if ltb (length report) audio_rt_len || not have_haptics && not have_speaker
    then none
    else let buffer = if buffer_len == 0 then 48 else buffer_len in
      let copy_len = min opus_len speaker_opus_len_max in
      some (
        record ctx {
          sequence = u8 (ctx.sequence + 1);
          audio_packet_counter = u8 (ctx.audio_packet_counter + 2);
        },
        fill_audio_rt ctx haptics speaker copy_len id mic buffer report,
      )
