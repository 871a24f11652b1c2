-- ===== src/AudioEpoch.antt =====
-- The audio epoch store of m61/dualsense_hidp_probe/m61_audio_epoch.{h,c}: eight slots of 512 USB
-- frames, each an epoch that is filled, encoded, completed, read in pairs and freed.
pub mod Allocate
pub mod Encode
pub mod Pairs
pub mod Slots
pub mod Haptics
pub mod Ingest
pub mod Chunks
pub mod Filling
pub mod Ownership
pub mod Others
pub mod Reading
pub mod Cancel
pub mod Encoding
mod Tests
use mathlib.Core.Option
use ds5dongle.Prelude.{
  ℕ, zero, suc, Bool, true, false, List, [], ◌∷◌, Option, none, some, ◌&&◌, not, ltb, ◌==◌,
  if◌then◌else◌, uint32_max, replicate, get_or,
}

-- `m61_audio_epoch_state_t`
pub data SlotState : Type 0 where
  free filling ready_encode encoding complete reading cancelled_encoding cancelled_reading :
      SlotState

-- `m61_audio_epoch_t`
pub record Slot : Type 0 where
  pub generation : ℕ
  pub epoch : ℕ
  pub captured_us : ℕ
  pub pcm_frames : ℕ
  pub state : SlotState
  pub speaker_enabled : ℕ
  pub haptics : List ℕ
  pub speaker_pcm : List ℕ
  pub speaker_opus : List ℕ
  pub haptics_peak : ℕ
  pub haptics_nonzero : ℕ

-- `m61_audio_epoch_pair_t`: the two rows of each array are two fields.
pub record EpochPair : Type 0 where
  pub generation : ℕ
  pub first_epoch : ℕ
  pub first_captured_us : ℕ
  pub second_captured_us : ℕ
  pub speaker_enabled : Bool
  pub first_haptics : List ℕ
  pub second_haptics : List ℕ
  pub first_opus : List ℕ
  pub second_opus : List ℕ

-- `m61_audio_epoch_encode_job_t`: `speaker_pcm` points into the slot `slot`.
pub record EncodeJob : Type 0 where
  pub generation : ℕ
  pub epoch : ℕ
  pub captured_us : ℕ
  pub slot : ℕ

-- `m61_audio_epoch_stats_t`, without the fields of the pipeline profile, which the default build
-- leaves out, and the counters of the removed deadline fallback, which nothing writes.
pub record Stats : Type 0 where
  pub generation : ℕ
  pub next_epoch : ℕ
  pub generation_resets : ℕ
  pub epochs_started : ℕ
  pub epochs_completed : ℕ
  pub epochs_emitted : ℕ
  pub epochs_dropped : ℕ
  pub epochs_stale : ℕ
  pub encode_jobs : ℕ
  pub encode_failures : ℕ
  pub adjacent_pairs : ℕ
  pub epoch_gaps : ℕ
  pub epoch_discontinuities : ℕ
  pub speaker_state_discontinuities : ℕ
  pub haptics_nonzero_epochs : ℕ
  pub haptics_sample_pairs : ℕ
  pub haptics_last_peak : ℕ
  pub filling_slots : ℕ
  pub encode_ready_slots : ℕ
  pub encoding_slots : ℕ
  pub complete_slots : ℕ

-- `audio_epoch_store_t`: INVALID_SLOT is `none`.
pub record Store : Type 0 where
  pub slots : List Slot
  pub stats : Stats
  pub filling_slot : Option ℕ

abbrev pub zero_slot : Slot
zero_slot = record {
  generation = 0;
  epoch = 0;
  captured_us = 0;
  pcm_frames = 0;
  state = free;
  speaker_enabled = 0;
  haptics = replicate 64 0;
  speaker_pcm = replicate 1024 0;
  speaker_opus = replicate 200 0;
  haptics_peak = 0;
  haptics_nonzero = 0;
}

abbrev pub slot_count : ℕ
slot_count = 8

abbrev pub usb_frames : ℕ
usb_frames = 512

abbrev pub opus_len : ℕ
opus_len = 200

abbrev pub haptics_len : ℕ
haptics_len = 64

abbrev pub is_free : SlotState → Bool
is_free free = true
is_free _ = false

abbrev pub is_filling : SlotState → Bool
is_filling filling = true
is_filling _ = false

abbrev pub is_ready_encode : SlotState → Bool
is_ready_encode ready_encode = true
is_ready_encode _ = false

abbrev pub is_encoding : SlotState → Bool
is_encoding encoding = true
is_encoding _ = false

abbrev pub is_complete : SlotState → Bool
is_complete complete = true
is_complete _ = false

abbrev pub is_reading : SlotState → Bool
is_reading reading = true
is_reading _ = false

abbrev pub is_cancelled_encoding : SlotState → Bool
is_cancelled_encoding cancelled_encoding = true
is_cancelled_encoding _ = false

abbrev pub is_cancelled_reading : SlotState → Bool
is_cancelled_reading cancelled_reading = true
is_cancelled_reading _ = false

-- A write to one slot of the array; outside it nothing is written.
abbrev pub update : ℕ → (Slot → Slot) → List Slot → List Slot
update i f [] = []
update zero f (x ∷ xs) = f x ∷ xs
update (suc i) f (x ∷ xs) = x ∷ update i f xs

abbrev pub with_state : SlotState → Slot → Slot
with_state st slot = record slot { state = st }

abbrev pub set_state : ℕ → SlotState → Store → Store
set_state i st s = record s { slots = update i (with_state st) s.slots }

-- `s_store.slots[i]`; the indices that the code uses lie in the array.
abbrev pub slot_at : Store → ℕ → Slot
slot_at s i = get_or s.slots i zero_slot

-- The first slot that passes a test, as the loops with a `break` find it.
unfoldable pub first_where : (Slot → Bool) → List Slot → Option ℕ
first_where p [] = none
first_where p (x ∷ xs) = let rest = first_where p xs in if p x then some 0 else Option.map suc rest

-- The loops that look for the least epoch among the slots that pass a test. The bound starts at
-- UINT32_MAX, and a slot is taken only below it.
unfoldable pub oldest_from : (Slot → Bool) → ℕ → ℕ → Option ℕ → List Slot → Option ℕ
oldest_from p i oldest selected [] = selected
oldest_from p i oldest selected (x ∷ xs) =
    let better = p x && ltb x.epoch oldest in
    oldest_from p (suc i) (if better then x.epoch else oldest) (if better then some i else selected)
      xs

unfoldable pub oldest_where : (Slot → Bool) → List Slot → Option ℕ
unfolding oldest_from
oldest_where p slots = oldest_from p 0 uint32_max none slots

-- `find_slot_locked`
unfoldable pub find_slot : ℕ → ℕ → Store → Option ℕ
unfolding first_where
find_slot generation epoch s =
    first_where (λ x. not (is_free x.state) && (x.generation == generation) && (x.epoch == epoch))
      s.slots
