-- ===== src/AudioEpoch/Encode.antt =====
-- Encoding an epoch: m61_audio_epoch_take_encode_job and m61_audio_epoch_complete_encode. The code
-- drops its lock while the packet is copied: `between` is what the other tasks do to the store in
-- that time.
use ds5dongle.Prelude.{
  ℕ, Bool, true, false, List, Option, none, some, ◌&&◌, ◌||◌, not, ◌==◌, if◌then◌else◌, inc32,
}
use ds5dongle.AudioEpoch.{
  Slot, Store, EncodeJob, free, encoding, complete, is_ready_encode, is_encoding,
  is_cancelled_encoding, update, set_state, slot_at, oldest_where, opus_len, find_slot,
}

abbrev pub is_encodable : Store → Slot → Bool
is_encodable s x = is_ready_encode x.state && (x.generation == s.stats.generation)

unfoldable pub claim_job : Option ℕ → Store → Option EncodeJob × Store
claim_job none s = (none, s)
claim_job (some i) s =
    let x = slot_at s i in
    (
      some (record {
        generation = x.generation;
        epoch = x.epoch;
        captured_us = x.captured_us;
        slot = i;
      }),
      record (set_state i encoding s) {
        stats = record (s.stats) { encode_jobs = inc32 s.stats.encode_jobs };
      },
    )

-- `m61_audio_epoch_take_encode_job`
unfoldable pub take_encode_job : Store → Option EncodeJob × Store
unfolding claim_job
take_encode_job s = claim_job (oldest_where (is_encodable s) s.slots) s

abbrev count_stale : Store → Store
count_stale s = record s { stats = record (s.stats) { epochs_stale = inc32 s.stats.epochs_stale } }

abbrev count_failure : Store → Store
count_failure s = record s {
  stats = record (s.stats) {
    encode_failures = inc32 s.stats.encode_failures;
    epochs_dropped = inc32 s.stats.epochs_dropped;
  };
}

abbrev is_packet : Option (List ℕ) → ℕ → Bool
is_packet none len = false
is_packet (some bytes) len = len == opus_len

-- The first locked part of `complete_encode`, for the slot found: true to go on and copy.
unfoldable pub check_encode : ℕ → ℕ → Option (List ℕ) → ℕ → Store → Bool × Store
check_encode i generation opus len s =
    let st = (slot_at s i).state in
    if is_cancelled_encoding st || not (generation == s.stats.generation)
    then (false, count_stale (set_state i free s))
    else if not (is_encoding st) || not (is_packet opus len)
    then (false, if is_encoding st then count_failure (set_state i free s) else s)
    else (true, s)

-- `memcpy(slot->speaker_opus, opus, 200)`
abbrev pub copy_opus : ℕ → Option (List ℕ) → Store → Store
copy_opus i none s = s
copy_opus i (some bytes) s = record s {
  slots = update i (λ x. record x { speaker_opus = bytes }) s.slots;
}

-- The second locked part.
unfoldable pub commit_encode : ℕ → ℕ → ℕ → Store → Bool × Store
commit_encode i generation epoch s =
    let x = slot_at s i in
    if is_cancelled_encoding x.state || not (generation == s.stats.generation)
    then (false, count_stale (set_state i free s))
    else if not (is_encoding x.state) || not (x.generation == generation) || not (x.epoch == epoch)
    then (false, s)
    else (
      true,
      record (set_state i complete s) {
        stats = record (s.stats) { epochs_completed = inc32 s.stats.epochs_completed };
      },
    )

-- `m61_audio_epoch_complete_encode`
module _ (between : Store → Store) (generation epoch : ℕ) (opus : Option (List ℕ)) (len : ℕ) where
  unfoldable pub complete_at : Option ℕ → Store → Bool × Store
  complete_at none s = (false, s)
  complete_at (some i) s =
      let (go_on, t) = check_encode i generation opus len s in
      if go_on then commit_encode i generation epoch (copy_opus i opus (between t)) else (false, t)

  unfoldable pub complete_encode : Store → Bool × Store
  unfolding complete_at
  complete_encode s = complete_at (find_slot generation epoch s) s
