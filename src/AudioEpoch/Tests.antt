-- ===== src/AudioEpoch/Tests.antt =====
-- Runs of the audio epoch store at concrete inputs, and the theorems at inputs that meet their
-- hypotheses.
use ds5dongle.Prelude.{
  ℕ, ◌≡◌, ◌≢◌, Bool, true, false, List, [], ◌∷◌, none, some, arith, refl, get_or,
}
use ds5dongle.Prelude.Int.{pos, negsuc}
use ds5dongle.AudioEpoch.{
  ready_encode, encoding, complete, Store, EpochPair, slot_at, zero_slot, opus_len, first_where,
  oldest_where,
}
use ds5dongle.AudioEpoch.Allocate.{zero_stats, reset, allocate_slot}
use ds5dongle.AudioEpoch.Haptics.{pcm16_to_i8, pcm16_to_i8_unity}
use ds5dongle.AudioEpoch.Ingest.{
  ingest_usb, take_slot, commit_chunk, copy_chunk, fill_round, round, round_with,
}
use ds5dongle.AudioEpoch.Filling.{ingest_usb-ne-none}
use ds5dongle.AudioEpoch.Others.{take_encode_job-BeginsNone}
use ds5dongle.AudioEpoch.Ownership.{ingest_usb-KeepsOwned}
use ds5dongle.AudioEpoch.Encode.{take_encode_job, complete_encode}
use ds5dongle.AudioEpoch.Pairs.{
  take_adjacent_pair, claim_pair, claim_first, claim_second, read_pair, release_pair,
}
use ds5dongle.AudioEpoch.Reading.{PairTaken, take_adjacent_pair-PairTaken}
use ds5dongle.AudioEpoch.Cancel.{complete_encode_stale}

-- Generation 7: epochs 4 and 5 are complete, 6 is being encoded, and 7 waits for the encoder.
abbrev store : Store
store = record {
  slots =
      record zero_slot { generation = 7; epoch = 5; captured_us = 2000; state = complete }
      ∷ record zero_slot { generation = 7; epoch = 4; captured_us = 1000; state = complete }
      ∷ record zero_slot { generation = 7; epoch = 6; state = encoding; speaker_enabled = 1 }
      ∷ record zero_slot { generation = 7; epoch = 7; state = ready_encode; speaker_enabled = 1 }
      ∷ [];
  stats = record zero_stats { generation = 7; next_epoch = 8 };
  filling_slot = none;
}

abbrev buffer : EpochPair
buffer = record {
  generation = 0;
  first_epoch = 0;
  first_captured_us = 0;
  second_captured_us = 0;
  speaker_enabled = false;
  first_haptics = [];
  second_haptics = [];
  first_opus = [];
  second_opus = [];
}

-- One frame: speaker 1 and 2, haptics 128 and -256.
abbrev frame : List ℕ
frame = 1 ∷ 0 ∷ 2 ∷ 0 ∷ 128 ∷ 0 ∷ 0 ∷ 255 ∷ []

abbrev packet : List ℕ
packet = 9 ∷ 8 ∷ 7 ∷ []

oldest_pair : oldest_where (λ x. elim x.state [ complete ↦ true | _ ↦ false ]) store.slots ≡ some 1
unfolding oldest_where
oldest_pair = refl

-- A reset runs while a round copies, and between two rounds the encoder takes a job.
ingest_usb-ne-none_example :
    ingest_usb (λ k. reset 8) (λ k s. (take_encode_job s).1) 7 500 true 256 (some frame) 8 store
    ≢ none
ingest_usb-ne-none_example =
    ingest_usb-ne-none (λ k. reset 8) (λ k s. (take_encode_job s).1) 7 500 true 256
      (λ k. take_encode_job-BeginsNone) (some frame) 8 store

-- The frame opens a new epoch in the slot of the oldest complete one.
ingested : Store
unfolding ingest_usb round_with fill_round take_slot allocate_slot first_where oldest_where
    copy_chunk commit_chunk round
ingested = elim (ingest_usb (λ k u. u) (λ k u. u) 7 500 true 256 (some frame) 8 store) [
  | none ↦ store
  | some t ↦ t
]

ingested_frame :
    ((slot_at ingested 1).epoch ≡ 8)
    × ((slot_at ingested 1).pcm_frames ≡ 1)
    × (get_or (slot_at ingested 1).haptics 0 0 ≡ 0)
    × (get_or (slot_at ingested 1).haptics 1 9 ≡ 0)
    × (get_or (slot_at ingested 1).speaker_pcm 1 0 ≡ 2)
unfolding ingested
ingested_frame = (refl, refl, refl, refl, refl)

ingest_usb-KeepsOwned_example : slot_at ingested 2 ≡ slot_at store 2
unfolding ingested
ingest_usb-KeepsOwned_example =
    ingest_usb-KeepsOwned 7 500 true 256 (some frame) 8 store {t = ingested} refl 2 refl

abbrev after_job : Store
after_job = record store {
  slots =
      record zero_slot { generation = 7; epoch = 5; captured_us = 2000; state = complete }
      ∷ record zero_slot { generation = 7; epoch = 4; captured_us = 1000; state = complete }
      ∷ record zero_slot { generation = 7; epoch = 6; state = encoding; speaker_enabled = 1 }
      ∷ record zero_slot { generation = 7; epoch = 7; state = encoding; speaker_enabled = 1 }
      ∷ [];
  stats = record zero_stats { generation = 7; next_epoch = 8; encode_jobs = 1 };
}

taken : Bool × EpochPair × Store
unfolding take_adjacent_pair claim_pair claim_first claim_second oldest_where first_where read_pair
    release_pair
taken = take_adjacent_pair (λ u. u) buffer store

take_adjacent_pair-PairTaken_example : (i : ℕ) × (j : ℕ) × PairTaken store taken.1 taken.2 i j
unfolding taken
take_adjacent_pair-PairTaken_example = take_adjacent_pair-PairTaken buffer store refl

reset_generation : (u : Store) → (reset 8 u).stats.generation ≢ 7
unfolding reset
reset_generation u = omega arith

complete_encode_stale_example :
    (complete_encode (reset 8) 7 6 (some packet) opus_len store).0 ≡ false
complete_encode_stale_example =
    complete_encode_stale (reset 8) 7 6 (some packet) opus_len store reset_generation

loud : (pcm16_to_i8 (pos 20000) 512 ≡ pos 126) × (pcm16_to_i8_unity (negsuc 32767) ≡ negsuc 126)
unfolding pcm16_to_i8 pcm16_to_i8_unity
loud = (refl, refl)
