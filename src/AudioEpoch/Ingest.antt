-- ===== src/AudioEpoch/Ingest.antt =====
-- Filling an epoch: m61_audio_epoch_ingest_usb. The code drops its lock while it copies frames, and between
-- two rounds: `between` is what the other tasks do to the store in the one time, `others` in the other.
use ds5dongle.Prelude.{
  ℕ, zero, suc, ◌+◌, ◌-◌, ◌*◌, ◌/◌, ◌%◌, ◌^◌, Bool, true, false, List, Option, none, some, ◌||◌,
  not, ltb, ◌==◌, if◌then◌else◌, inc32, u8, u16, u32, get_or, set, drop,
}
use ds5dongle.Prelude.Int.{to_u8}
use ds5dongle.AudioEpoch.{
  Slot, Store, Stats, ready_encode, complete, is_filling, update, slot_at, usb_frames,
}
use ds5dongle.AudioEpoch.Allocate.{allocate_slot}
use ds5dongle.AudioEpoch.Haptics.{
  word_le, read_i16_le, convert_haptics_sample, update_haptics_metrics,
}

abbrev pub usb_frame_bytes : ℕ
usb_frame_bytes = 8

abbrev pub decimation_frames : ℕ
decimation_frames = 16

-- The bytes behind `data` from an offset on; a read behind the packet does not happen.
abbrev byte : List ℕ → ℕ → ℕ
byte usb i = get_or usb i 0

-- The speaker samples of one frame. The aligned copy of a word and the two reads of half a word
-- write the same four bytes on the little-endian core, so the two branches are one here.
abbrev put_pcm : ℕ → List ℕ → Slot → Slot
put_pcm dst usb slot = record slot {
  speaker_pcm =
      set (set slot.speaker_pcm (dst * 2) (word_le (byte usb 0) (byte usb 1))) (dst * 2 + 1)
        (word_le (byte usb 2) (byte usb 3));
}

unfoldable pub put_haptics : ℕ → List ℕ → ℕ → Slot → Slot
unfolding convert_haptics_sample update_haptics_metrics
put_haptics dst usb gain_q8 slot =
    let out = u8 (dst / decimation_frames * 2) in
    let left = convert_haptics_sample (read_i16_le (byte usb 4) (byte usb 5)) gain_q8 in
    let right = convert_haptics_sample (read_i16_le (byte usb 6) (byte usb 7)) gain_q8 in
    update_haptics_metrics right (
      update_haptics_metrics left
        (record slot { haptics = set (set slot.haptics out (to_u8 left)) (out + 1) (to_u8 right) }))

-- One round of the copy loop.
unfoldable pub copy_frame : ℕ → List ℕ → ℕ → Slot → Slot
unfolding put_haptics
copy_frame dst usb gain_q8 slot =
    if dst % decimation_frames == 0
    then put_haptics dst usb gain_q8 (put_pcm dst usb slot)
    else put_pcm dst usb slot

-- The copy loop: `n` frames from `usb` on, into the slot from the frame `dst` on.
unfoldable pub copy_frames : ℕ → ℕ → List ℕ → ℕ → Slot → Slot
unfolding copy_frame
copy_frames zero dst usb gain_q8 slot = slot
copy_frames (suc n) dst usb gain_q8 slot =
    copy_frames n (u16 (dst + 1)) (drop usb_frame_bytes usb) gain_q8
      (copy_frame dst usb gain_q8 slot)

-- `chunk_frames`: what is left of the packet, and no more than the epoch has room for. The frame is
-- read from a `uint16_t`.
abbrev pub chunk : ℕ → ℕ → ℕ
chunk left pcm_frame =
    let room = u32 (usb_frames + 2 ^ 32 - u16 pcm_frame) in if ltb room left then room else left

-- The slot that this round fills: the one being filled, or a new one.
unfoldable pub take_slot : ℕ → Bool → Option ℕ → Store → Option ℕ × Store
take_slot captured_us speaker none s = allocate_slot captured_us speaker s
take_slot captured_us speaker (some i) s = (some i, s)

unfoldable pub copy_chunk : ℕ → ℕ → ℕ → List ℕ → ℕ → Store → Store
unfolding copy_frames
copy_chunk i n pcm_frame usb gain_q8 s = record s {
  slots =
      update i
        (λ x. record (copy_frames n pcm_frame usb gain_q8 x) { pcm_frames = u16 (pcm_frame + n) })
        s.slots;
}

abbrev same_slot : ℕ → Option ℕ → Bool
same_slot i none = false
same_slot i (some j) = i == j

abbrev complete_stats : Slot → Stats → Stats
complete_stats x st = record st {
  haptics_sample_pairs = u32 (st.haptics_sample_pairs + 32);
  haptics_nonzero_epochs =
      if x.haptics_nonzero == 0 then st.haptics_nonzero_epochs else inc32 st.haptics_nonzero_epochs;
  haptics_last_peak = x.haptics_peak;
  epochs_completed =
      if x.speaker_enabled == 0 then inc32 st.epochs_completed else st.epochs_completed;
}

-- The second locked part: `none` is the early return. A full epoch waits for its encoder, or is
-- complete where the speaker is off.
unfoldable pub commit_chunk : ℕ → ℕ → Store → Bool × Store
commit_chunk i generation s =
    let x = slot_at s i in
    if not (generation == s.stats.generation)
      || not (same_slot i s.filling_slot)
      || not (x.generation == generation)
      || not (is_filling x.state)
    then (false, s)
    else if x.pcm_frames == usb_frames
    then (
      true,
      record {
        slots =
            update i
              (λ y. record y { state = if y.speaker_enabled == 0 then complete else ready_encode })
              s.slots;
        stats = complete_stats x s.stats;
        filling_slot = none;
      },
    )
    else (true, s)

module _ (between : Store → Store) (generation captured_us : ℕ) (speaker : Bool) (gain_q8 : ℕ) where
  -- One round with the slot `i`: whether to go on, how many frames were copied, and the store.
  unfoldable pub fill_round : ℕ → ℕ → List ℕ → Store → Bool × ℕ × Store
  unfolding copy_chunk commit_chunk
  fill_round i left usb s =
      let x = slot_at s i in
      let n = chunk left x.pcm_frames in
      if not (is_filling x.state)
      then (true, 0, record s { filling_slot = none })
      else let (go_on, t) =
          commit_chunk i generation (copy_chunk i n x.pcm_frames usb gain_q8 (between s)) in
        (go_on, n, t)

  unfoldable pub round_with : Option ℕ × Store → ℕ → List ℕ → Bool × ℕ × Store
  unfolding fill_round
  round_with (none, s) left usb = (false, 0, s)
  round_with (some i, s) left usb = fill_round i left usb s

  unfoldable pub round : ℕ → List ℕ → Store → Bool × ℕ × Store
  unfolding round_with
  round left usb s =
      if not (generation == s.stats.generation)
      then (false, 0, s)
      else round_with (take_slot captured_us speaker s.filling_slot s) left usb

-- The loop drops its lock between two rounds too: `others` is what the other tasks do to the store before
-- the lock of a round is taken, and both may differ from round to round, which the fuel numbers.
module _ (between others : ℕ → Store → Store) (generation captured_us : ℕ) (speaker : Bool)
    (gain_q8 : ℕ) where
  -- The loop: `left` frames are to come, from `usb` on. `none` is the end of the fuel.
  unfoldable pub ingest_loop : ℕ → ℕ → List ℕ → Store → Option Store
  ingest_loop zero left usb s = none
  ingest_loop (suc fuel) left usb s =
      let (go_on, n, t) =
        round (between fuel) generation captured_us speaker gain_q8 left usb (others fuel s) in
      let rest = ingest_loop fuel (left - n) (drop (usb_frame_bytes * n) usb) t in
      if left == 0 then some s else if go_on then rest else some t

  -- `m61_audio_epoch_ingest_usb`, with fuel for two rounds a frame. `data` is NULL where it is
  -- `none`.
  unfoldable pub ingest_usb : Option (List ℕ) → ℕ → Store → Option Store
  unfolding ingest_loop
  ingest_usb none len s = some s
  ingest_usb (some usb) len s =
      let frames = len / usb_frame_bytes in
      if ltb len usb_frame_bytes then some s else ingest_loop (2 * frames + 2) frames usb s
