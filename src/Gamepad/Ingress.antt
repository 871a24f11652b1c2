-- ===== src/Gamepad/Ingress.antt =====
-- The ring of audio packets between the USB transfers and the ingress task in m61_usb_gamepad.c. A step
-- is what runs under the USB lock; `arm_audio_out` is two of them, since the transfer is started between.
pub mod Tracked
pub mod Steps
pub mod Run
mod Tests
use ds5dongle.Prelude.{
  ℕ, ◌+◌, ◌-◌, ◌%◌, zero, suc, Bool, true, false, ◌&&◌, ◌||◌, not, List, [], ◌∷◌, Option, none,
  some, ltb, leb, ◌==◌, if◌then◌else◌, get_or, set, replicate, length, inc32, u8, u16, u32, min,
}
use ds5dongle.AudioEpoch.{Store}
use ds5dongle.AudioEpoch.Allocate.{reset}

abbrev pub depth : ℕ
depth = 8

-- `AUDIO_INGRESS_INVALID_SLOT`
abbrev pub invalid_slot : ℕ
invalid_slot = 255

abbrev pub packet_size : ℕ
packet_size = 392

-- `audio_ingress_state_t`
pub data SlotState : Type 0 where
  free : SlotState
  dma_active : SlotState
  ready : SlotState
  reading : SlotState

-- `audio_ingress_slot_t`
pub record Slot : Type 0 where
  pub captured_us : ℕ
  pub generation : ℕ
  pub sequence : ℕ
  pub len : ℕ
  pub speaker_enabled : Bool
  pub state : SlotState

abbrev pub empty_slot : Slot
empty_slot = record {
  captured_us = 0;
  generation = 0;
  sequence = 0;
  len = 0;
  speaker_enabled = false;
  state = SlotState.free;
}

-- `audio_ingress_view_t`, whose bytes are those of the ring at the slot.
pub record View : Type 0 where
  pub captured_us : ℕ
  pub generation : ℕ
  pub sequence : ℕ
  pub len : ℕ
  pub speaker_enabled : Bool
  pub slot : ℕ

-- The variables of the ring, the generation of the audio, and the store of audio epochs.
pub record Ingress : Type 0 where
  pub slots : List Slot
  pub producer_cursor : ℕ
  pub consumer_cursor : ℕ
  pub active_slot : ℕ
  pub count : ℕ
  pub high_water : ℕ
  pub dropped : ℕ
  pub next_sequence : ℕ
  pub armed : Bool
  pub audio_generation : ℕ
  pub epochs : Store

-- What `m61_usb_gamepad_init` makes of the ring.
unfoldable pub init_ingress : Ingress → Ingress
init_ingress s = record s {
  slots = replicate 8 empty_slot;
  producer_cursor = 0;
  consumer_cursor = 0;
  active_slot = invalid_slot;
  count = 0;
  armed = false;
}

unfoldable pub is_free : SlotState → Bool
is_free SlotState.free = true
is_free SlotState.dma_active = false
is_free SlotState.ready = false
is_free SlotState.reading = false

unfoldable pub is_dma : SlotState → Bool
is_dma SlotState.free = false
is_dma SlotState.dma_active = true
is_dma SlotState.ready = false
is_dma SlotState.reading = false

unfoldable pub is_ready : SlotState → Bool
is_ready SlotState.free = false
is_ready SlotState.dma_active = false
is_ready SlotState.ready = true
is_ready SlotState.reading = false

unfoldable pub is_reading : SlotState → Bool
is_reading SlotState.free = false
is_reading SlotState.dma_active = false
is_reading SlotState.ready = false
is_reading SlotState.reading = true

abbrev pub state_at : List Slot → ℕ → SlotState
state_at slots i = (get_or slots i empty_slot).state

abbrev pub set_state : List Slot → ℕ → SlotState → List Slot
set_state slots i state = set slots i (record (get_or slots i empty_slot) { state = state })

-- The loops that look for a slot from a cursor on: `n` of them are left.
unfoldable pub find_from : (SlotState → Bool) → List Slot → ℕ → ℕ → Option ℕ
find_from wanted slots at zero = none
find_from wanted slots at (suc n) =
    let rest = find_from wanted slots (at + 1) n in
    if wanted (state_at slots (at % depth)) then some (at % depth) else rest

-- `find_free_audio_ingress_slot_locked`
unfoldable pub find_free_slot : Ingress → Option ℕ
find_free_slot s = find_from is_free s.slots s.producer_cursor depth

-- `arm_audio_out` up to the start of the transfer: the slot that it is started for. `may_arm` is that
-- USB is ready and configured, and the stream open and not suspended.
unfoldable pub arm_begin : Bool → Bool → Ingress → Option ℕ × Ingress
arm_begin may_arm speaker_enabled s =
    if not may_arm || s.armed
    then (none, s)
    else if not (s.active_slot == invalid_slot)
    then (none, s)
    else elim (find_free_slot s) [
      | none ↦ (none, record s { dropped = inc32 s.dropped })
      | some i ↦
          let slot = record (get_or s.slots i empty_slot) {
            generation = s.audio_generation;
            speaker_enabled = speaker_enabled;
            state = SlotState.dma_active;
          } in
          (some i, record s { slots = set s.slots i slot; active_slot = i; armed = true })
    ]

-- The rest of `arm_audio_out`, where the transfer did not start.
unfoldable pub arm_failed : ℕ → Ingress → Ingress
arm_failed selected s =
    let own = s.active_slot == selected in
    record s {
      active_slot = if own then invalid_slot else s.active_slot;
      slots = if own then set_state s.slots selected SlotState.free else s.slots;
      armed = false;
      dropped = inc32 s.dropped;
    }

-- `usbd_audio_out_ep_callback` under the lock, with whether a packet is ready.
unfoldable pub packet_received : ℕ → ℕ → Ingress → Bool × Ingress
packet_received captured_us nbytes s =
    let selected = s.active_slot in
    let idle = record s { active_slot = invalid_slot; armed = false } in
    let n = min nbytes packet_size in
    let slot = record (get_or s.slots selected empty_slot) {
      captured_us = captured_us;
      sequence = s.next_sequence;
      len = u16 n;
      state = SlotState.ready;
    } in
    let more = u8 (s.count + 1) in
    let filled = record idle {
      slots = set s.slots selected slot;
      next_sequence = inc32 s.next_sequence;
      producer_cursor = u8 ((selected + 1) % depth);
      count = more;
      high_water = if ltb s.high_water more then more else s.high_water;
    } in
    if ltb selected depth && is_dma (state_at s.slots selected)
    then (if ltb 0 n
        then (true, filled)
        else (false, record idle { slots = set_state s.slots selected SlotState.free }))
    else (false, idle)

abbrev pub view_of : Slot → ℕ → View
view_of slot i = record {
  captured_us = slot.captured_us;
  generation = slot.generation;
  sequence = slot.sequence;
  len = slot.len;
  speaker_enabled = slot.speaker_enabled;
  slot = i;
}

-- `take_audio_ingress`
unfoldable pub take_audio_ingress : Ingress → Option View × Ingress
take_audio_ingress s = elim (find_from is_ready s.slots s.consumer_cursor depth) [
  | none ↦ (none, s)
  | some i ↦ (
    some (view_of (get_or s.slots i empty_slot) i),
    record s { slots = set_state s.slots i SlotState.reading },
  )
]

-- `release_audio_ingress`, up to the call of `arm_audio_out`.
unfoldable pub release_audio_ingress : ℕ → Ingress → Ingress
release_audio_ingress i s =
    if leb depth i
    then s
    else if is_reading (state_at s.slots i)
    then record s {
      slots = set_state s.slots i SlotState.free;
      consumer_cursor = u8 ((i + 1) % depth);
      count = s.count - 1;
    }
    else s

-- The loop of `reset_audio_pipeline`: what a slot becomes, and how many are still being read.
unfoldable pub reset_state : Bool → SlotState → SlotState
reset_state cancel SlotState.free = SlotState.free
reset_state cancel SlotState.dma_active = if cancel then SlotState.free else SlotState.dma_active
reset_state cancel SlotState.ready = SlotState.free
reset_state cancel SlotState.reading = SlotState.reading

unfoldable pub reset_slots : Bool → List Slot → List Slot × ℕ
reset_slots cancel [] = ([], 0)
reset_slots cancel (slot ∷ slots) =
    let rest = reset_slots cancel slots in
    (
      record slot { state = reset_state cancel slot.state } ∷ rest.0,
      if is_reading slot.state then rest.1 + 1 else rest.1,
    )

-- `reset_audio_pipeline`
unfoldable pub reset_audio_pipeline : Bool → Ingress → Ingress
reset_audio_pipeline cancel s =
    let kept = reset_slots cancel s.slots in
    let generation = inc32 s.audio_generation in
    record s {
      audio_generation = generation;
      slots = kept.0;
      count = u8 kept.1;
      active_slot = if cancel then invalid_slot else s.active_slot;
      armed = if cancel then false else s.armed;
      epochs = reset generation s.epochs;
    }
