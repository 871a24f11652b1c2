-- ===== src/AudioEpoch/Allocate.antt =====
-- Starting the store and its epochs: allocate_slot_locked, m61_audio_epoch_init,
-- m61_audio_epoch_reset and m61_audio_epoch_get_stats of m61_audio_epoch.c.
use ds5dongle.Prelude.{
  ℕ, ◌+◌, Bool, true, false, List, [], ◌∷◌, Option, none, some, ◌||◌, if◌then◌else◌, inc32, u8,
  replicate,
}
use ds5dongle.AudioEpoch.{
  Slot, SlotState, zero_slot, Stats, Store, free, filling, ready_encode, encoding, complete,
  reading, cancelled_encoding, cancelled_reading, is_free, is_ready_encode, is_complete, update,
  first_where, oldest_where, slot_count,
}

-- `memset(&s_store, 0, ...)`
abbrev pub zero_stats : Stats
zero_stats = record {
  generation = 0;
  next_epoch = 0;
  generation_resets = 0;
  epochs_started = 0;
  epochs_completed = 0;
  epochs_emitted = 0;
  epochs_dropped = 0;
  epochs_stale = 0;
  encode_jobs = 0;
  encode_failures = 0;
  adjacent_pairs = 0;
  epoch_gaps = 0;
  epoch_discontinuities = 0;
  speaker_state_discontinuities = 0;
  haptics_nonzero_epochs = 0;
  haptics_sample_pairs = 0;
  haptics_last_peak = 0;
  filling_slots = 0;
  encode_ready_slots = 0;
  encoding_slots = 0;
  complete_slots = 0;
}

-- `m61_audio_epoch_init`
unfoldable pub init : ℕ → Store
init generation = record {
  slots = replicate slot_count zero_slot;
  stats = record zero_stats { generation = generation };
  filling_slot = none;
}

-- What `reset` makes of the state of a slot.
abbrev pub cancel : SlotState → SlotState
cancel encoding = cancelled_encoding
cancel cancelled_encoding = cancelled_encoding
cancel reading = cancelled_reading
cancel cancelled_reading = cancelled_reading
cancel _ = free

-- The states that `reset` frees, and counts as stale.
abbrev pub goes_stale : SlotState → Bool
goes_stale filling = true
goes_stale ready_encode = true
goes_stale complete = true
goes_stale _ = false

unfoldable pub cancel_all : List Slot → List Slot
cancel_all [] = []
cancel_all (x ∷ xs) = record x { state = cancel x.state } ∷ cancel_all xs

unfoldable pub count_stale : ℕ → List Slot → ℕ
count_stale n [] = n
count_stale n (x ∷ xs) = count_stale (if goes_stale x.state then inc32 n else n) xs

-- `m61_audio_epoch_reset`
unfoldable pub reset : ℕ → Store → Store
unfolding cancel_all count_stale
reset generation s = record {
  slots = cancel_all s.slots;
  stats = record (s.stats) {
    generation = generation;
    next_epoch = 0;
    generation_resets = inc32 s.stats.generation_resets;
    epochs_stale = count_stale s.stats.epochs_stale s.slots;
  };
  filling_slot = none;
}

-- The slot that is reused when none is free.
abbrev pub is_evictable : Slot → Bool
is_evictable x = is_ready_encode x.state || is_complete x.state

abbrev opened : Stats → ℕ → Bool → Slot → Slot
opened st captured_us speaker x = record x {
  generation = st.generation;
  epoch = st.next_epoch;
  captured_us = captured_us;
  pcm_frames = 0;
  speaker_enabled = if speaker then 1 else 0;
  haptics_peak = 0;
  haptics_nonzero = 0;
  state = filling;
}

unfoldable pub open_slot : ℕ → ℕ → Bool → Store → Store
open_slot i captured_us speaker s = record {
  slots = update i (opened s.stats captured_us speaker) s.slots;
  stats = record (s.stats) {
    next_epoch = inc32 s.stats.next_epoch;
    epochs_started = inc32 s.stats.epochs_started;
  };
  filling_slot = some i;
}

abbrev pub drop_epoch : Store → Store
drop_epoch s = record s {
  stats = record (s.stats) { epochs_dropped = inc32 s.stats.epochs_dropped };
}

-- The search of `allocate_slot_locked`: a free slot, or the oldest that may be evicted.
unfoldable pub allocate_in : Option ℕ → Option ℕ → ℕ → Bool → Store → Option ℕ × Store
unfolding open_slot
allocate_in (some i) oldest captured_us speaker s = (some i, open_slot i captured_us speaker s)
allocate_in none (some i) captured_us speaker s =
    (some i, open_slot i captured_us speaker (drop_epoch s))
allocate_in none none captured_us speaker s = (none, drop_epoch s)

-- `allocate_slot_locked`: -1 is `none`.
unfoldable pub allocate_slot : ℕ → Bool → Store → Option ℕ × Store
unfolding allocate_in
allocate_slot captured_us speaker s =
    allocate_in (first_where (λ x. is_free x.state) s.slots) (oldest_where is_evictable s.slots)
      captured_us speaker s

abbrev pub tally : SlotState → Stats → Stats
tally filling t = record t { filling_slots = u8 (t.filling_slots + 1) }
tally ready_encode t = record t { encode_ready_slots = u8 (t.encode_ready_slots + 1) }
tally encoding t = record t { encoding_slots = u8 (t.encoding_slots + 1) }
tally complete t = record t { complete_slots = u8 (t.complete_slots + 1) }
tally reading t = record t { complete_slots = u8 (t.complete_slots + 1) }
tally _ t = t

unfoldable pub count_states : List Slot → Stats → Stats
count_states [] st = st
count_states (x ∷ xs) st = count_states xs (tally x.state st)

-- `m61_audio_epoch_get_stats`
unfoldable pub get_stats : Store → Stats
unfolding count_states
get_stats s = count_states s.slots (record (s.stats) {
  filling_slots = 0;
  encode_ready_slots = 0;
  encoding_slots = 0;
  complete_slots = 0;
})
