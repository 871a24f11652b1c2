-- ===== src/Gamepad/Mic.antt =====
-- The ring of microphone packets between the decoder task and the USB transfers in m61_usb_gamepad.c. A
-- step is what runs under the USB lock: `push_mic_pcm_stereo` is one step to begin with and one for each
-- packet that it has filled, and `arm_audio_in` has a second one where the transfer does not start.
pub mod Steps
pub mod Kept
pub mod Run
mod Tests
use ds5dongle.Prelude.{
  ℕ, ◌+◌, ◌-◌, ◌%◌, Bool, true, false, ◌&&◌, ◌||◌, not, List, [], ◌∷◌, Option, none, some, ltb, leb,
  ◌==◌, if◌then◌else◌, get_or, set, replicate, inc32, u8,
}

abbrev pub packet_depth : ℕ
packet_depth = 32

-- `AUDIO_MIC_PACKET_INVALID_SLOT`
abbrev pub no_slot : ℕ
no_slot = 255

-- `audio_mic_packet_state_t`
pub data PacketState : Type 0 where
  unused : PacketState
  filling : PacketState
  ready : PacketState
  dma_active : PacketState

-- The variables of the ring, without the samples.
pub record Mic : Type 0 where
  pub states : List PacketState
  pub nonzero : List Bool
  pub producer_cursor : ℕ
  pub consumer_cursor : ℕ
  pub active_slot : ℕ
  pub count : ℕ
  pub in_busy : Bool
  pub dropped : ℕ
  pub underflow : ℕ

unfoldable pub is_unused : PacketState → Bool
is_unused PacketState.unused = true
is_unused PacketState.filling = false
is_unused PacketState.ready = false
is_unused PacketState.dma_active = false

unfoldable pub is_filling : PacketState → Bool
is_filling PacketState.unused = false
is_filling PacketState.filling = true
is_filling PacketState.ready = false
is_filling PacketState.dma_active = false

unfoldable pub is_ready : PacketState → Bool
is_ready PacketState.unused = false
is_ready PacketState.filling = false
is_ready PacketState.ready = true
is_ready PacketState.dma_active = false

unfoldable pub is_dma : PacketState → Bool
is_dma PacketState.unused = false
is_dma PacketState.filling = false
is_dma PacketState.ready = false
is_dma PacketState.dma_active = true

abbrev pub state_of : Mic → ℕ → PacketState
state_of s i = get_or s.states i PacketState.unused

-- `flush_mic_queues`, of the ring.
unfoldable pub flush : Mic → Mic
flush s = record s {
  states = replicate 32 PacketState.unused;
  nonzero = replicate 32 false;
  producer_cursor = 0;
  consumer_cursor = 0;
  active_slot = no_slot;
  count = 0;
}

-- `push_mic_pcm_stereo` up to the loop: the slot that is filled.
unfoldable pub push_begin : Mic → Option ℕ × Mic
push_begin s =
    let selected = s.producer_cursor in
    if is_unused (state_of s selected)
    then (some selected, record s { states = set s.states selected PacketState.filling })
    else (none, record s { dropped = inc32 s.dropped })

-- A round of the loop, behind the copy of the samples: the slot for the next packet, where samples are
-- left and it is free. `samples` is whether the packet has a sample that is not 0.
unfoldable pub push_next : Mic → Option ℕ × Mic
push_next s =
    let next = s.producer_cursor in
    if is_unused (state_of s next)
    then (some next, record s { states = set s.states next PacketState.filling })
    else (none, record s { dropped = inc32 s.dropped })

abbrev pub filled : Bool → ℕ → Mic → Mic
filled samples selected s = record s {
  nonzero = set s.nonzero selected samples;
  states = set s.states selected PacketState.ready;
  producer_cursor = u8 ((selected + 1) % packet_depth);
  count = u8 (s.count + 1);
}

unfoldable pub push_packet : Bool → Bool → ℕ → Mic → Option ℕ × Mic
unfolding push_next
push_packet samples more selected s =
    if is_filling (state_of s selected)
    then (if more then push_next (filled samples selected s) else (none, filled samples selected s))
    else (none, s)

-- `prepare_audio_in_locked`: the slot that is sent, where `none` is a packet of zeros, and whether it has a
-- sample that is not 0. `may_send` is that USB is ready and configured and the stream open, `wanted` that
-- the microphone is enabled and not muted.
unfoldable pub prepare_audio_in : Bool → Bool → Mic → Option (Option ℕ × Bool) × Mic
prepare_audio_in may_send wanted s =
    let selected = s.consumer_cursor in
    if not may_send || s.in_busy
    then (none, s)
    else if is_ready (state_of s selected)
    then (
      some (some selected, get_or s.nonzero selected false),
      record s {
        states = set s.states selected PacketState.dma_active;
        active_slot = selected;
        in_busy = true;
      },
    )
    else (
      some (none, false),
      record s {
        active_slot = no_slot;
        underflow = if wanted then inc32 s.underflow else s.underflow;
        in_busy = true;
      },
    )

-- `start_audio_in_prepared` where the transfer of the slot does not start.
unfoldable pub start_failed : ℕ → Mic → Mic
start_failed selected s =
    let held = not (selected == no_slot) && is_dma (state_of s selected) in
    record s {
      states = if held then set s.states selected PacketState.ready else s.states;
      active_slot = no_slot;
      in_busy = false;
    }

-- `usbd_audio_in_ep_callback` up to the next preparation.
unfoldable pub packet_sent : Mic → Mic
packet_sent s =
    let selected = s.active_slot in
    let idle = record s { active_slot = no_slot; in_busy = false } in
    if ltb selected packet_depth && is_dma (state_of s selected)
    then record idle {
      states = set s.states selected PacketState.unused;
      nonzero = set s.nonzero selected false;
      consumer_cursor = u8 ((selected + 1) % packet_depth);
      count = s.count - 1;
    }
    else idle

-- `usbd_audio_in_ep_callback` under the lock.
unfoldable pub audio_in_callback : Bool → Bool → Mic → Option (Option ℕ × Bool) × Mic
unfolding packet_sent prepare_audio_in
audio_in_callback may_send wanted s = prepare_audio_in may_send wanted (packet_sent s)

-- The suspension of USB, of the ring: `usbd_event_handler` forgets that a transfer is under way.
unfoldable pub suspend : Mic → Mic
suspend s = record s { in_busy = false }

-- The reset or the end of USB, and the start or the end of the stream, of the ring.
unfoldable pub restart : Mic → Mic
unfolding flush
restart s = flush (record s { in_busy = false })
