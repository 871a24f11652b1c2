-- ===== src/AudioEpoch/Pairs.antt =====
-- Reading two adjacent epochs: m61_audio_epoch_take_adjacent_pair. The code drops its lock while it
-- copies: `between` is what the other tasks do to the store in that time.
use ds5dongle.Prelude.{
  ℕ, ◌+◌, Bool, true, false, Option, none, some, ◌&&◌, ◌||◌, not, ltb, ◌==◌, if◌then◌else◌, inc32,
  u32, replicate,
}
use ds5dongle.AudioEpoch.{
  Slot, Store, EpochPair, free, reading, is_complete, is_reading, is_cancelled_reading, set_state,
  slot_at, first_where, oldest_where, opus_len,
}

abbrev pub is_current_complete : Store → Slot → Bool
is_current_complete s x = is_complete x.state && (x.generation == s.stats.generation)

abbrev pub is_next_of : Store → ℕ → Slot → Bool
is_next_of s oldest x = is_current_complete s x && (x.epoch == u32 (oldest + 1))

abbrev pub is_newer : ℕ → Slot → Bool
is_newer oldest x = is_complete x.state && ltb oldest x.epoch

abbrev some_where : Option ℕ → Bool
some_where none = false
some_where (some i) = true

-- The local variables that the code keeps across the copy.
pub record Claim : Type 0 where
  pub first : ℕ
  pub second : ℕ
  pub generation : ℕ
  pub first_epoch : ℕ
  pub first_captured_us : ℕ
  pub second_captured_us : ℕ
  pub speaker_enabled : Bool

-- The oldest epoch has no successor yet: it is given up if a newer one is complete.
unfoldable pub drop_gap : ℕ → Bool → Store → Store
drop_gap i newer_complete s =
    if newer_complete
    then (record (set_state i free s) {
      stats = record (s.stats) {
        epochs_dropped = inc32 s.stats.epochs_dropped;
        epoch_gaps = inc32 s.stats.epoch_gaps;
        epoch_discontinuities = inc32 s.stats.epoch_discontinuities;
      };
    })
    else s

unfoldable pub claim_two : ℕ → ℕ → Store → Option Claim × Store
claim_two i j s =
    let x = slot_at s i in
    let y = slot_at s j in
    if not (x.speaker_enabled == y.speaker_enabled)
    then (
      none,
      record (set_state i free s) {
        stats = record (s.stats) {
          epochs_dropped = inc32 s.stats.epochs_dropped;
          speaker_state_discontinuities = inc32 s.stats.speaker_state_discontinuities;
          epoch_discontinuities = inc32 s.stats.epoch_discontinuities;
        };
      },
    )
    else (
      some (record {
        first = i;
        second = j;
        generation = x.generation;
        first_epoch = x.epoch;
        first_captured_us = x.captured_us;
        second_captured_us = y.captured_us;
        speaker_enabled = not (x.speaker_enabled == 0);
      }),
      set_state j reading (set_state i reading s),
    )

unfoldable pub claim_second : ℕ → Option ℕ → Store → Option Claim × Store
unfolding claim_two drop_gap
claim_second i (some j) s = claim_two i j s
claim_second i none s =
    (none, drop_gap i (some_where (first_where (is_newer (slot_at s i).epoch) s.slots)) s)

unfoldable pub claim_first : Option ℕ → Store → Option Claim × Store
unfolding claim_second
claim_first none s = (none, s)
claim_first (some i) s = claim_second i (first_where (is_next_of s (slot_at s i).epoch) s.slots) s

-- The first locked part of `take_adjacent_pair`.
unfoldable pub claim_pair : Store → Option Claim × Store
unfolding claim_first
claim_pair s = claim_first (oldest_where (is_current_complete s) s.slots) s

-- The copy out of the two slots.
unfoldable pub read_pair : Claim → Store → EpochPair
read_pair c s =
    let x = slot_at s c.first in
    let y = slot_at s c.second in
    record {
      generation = c.generation;
      first_epoch = c.first_epoch;
      first_captured_us = c.first_captured_us;
      second_captured_us = c.second_captured_us;
      speaker_enabled = c.speaker_enabled;
      first_haptics = x.haptics;
      second_haptics = y.haptics;
      first_opus = if c.speaker_enabled then x.speaker_opus else replicate opus_len 0;
      second_opus = if c.speaker_enabled then y.speaker_opus else replicate opus_len 0;
    }

abbrev free_both : Claim → Store → Store
free_both c s = set_state c.second free (set_state c.first free s)

-- The second locked part.
unfoldable pub release_pair : Claim → Store → Bool × Store
release_pair c s =
    let x = slot_at s c.first in
    let y = slot_at s c.second in
    if is_cancelled_reading x.state
      || is_cancelled_reading y.state
      || not (c.generation == s.stats.generation)
    then (
      false,
      record (free_both c s) {
        stats = record (s.stats) { epochs_stale = u32 (s.stats.epochs_stale + 2) };
      },
    )
    else if not (is_reading x.state)
        || not (is_reading y.state)
        || not (x.generation == c.generation)
        || not (y.generation == c.generation)
        || not (x.epoch == c.first_epoch)
        || not (y.epoch == u32 (c.first_epoch + 1))
    then (false, s)
    else (
      true,
      record (free_both c s) {
        stats = record (s.stats) {
          epochs_emitted = u32 (s.stats.epochs_emitted + 2);
          adjacent_pairs = inc32 s.stats.adjacent_pairs;
        };
      },
    )

-- `m61_audio_epoch_take_adjacent_pair`: the buffer `pair` is written also where the result is
-- false behind the copy.
module _ (between : Store → Store) (buffer : EpochPair) where
  unfoldable pub take_claimed : Option Claim → Store → Bool × EpochPair × Store
  take_claimed none s = (false, buffer, s)
  take_claimed (some c) s =
      let t = between s in let (taken, u) = release_pair c t in (taken, read_pair c t, u)

  unfoldable pub take_adjacent_pair : Store → Bool × EpochPair × Store
  unfolding take_claimed
  take_adjacent_pair s = let (claim, t) = claim_pair s in take_claimed claim t
