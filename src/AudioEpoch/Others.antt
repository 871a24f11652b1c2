-- ===== src/AudioEpoch/Others.antt =====
-- What the operations of m61_audio_epoch.c that may run between the rounds of the ingest loop do to the
-- slot that is being filled.
use ds5dongle.Prelude.{ℕ, ◌≡◌, List, Option, none, some, arith, refl}
use ds5dongle.AudioEpoch.{Store, EpochPair, first_where, oldest_where, find_slot, slot_at}
use ds5dongle.AudioEpoch.Allocate.{reset}
use ds5dongle.AudioEpoch.Encode.{
  is_encodable, claim_job, take_encode_job, check_encode, commit_encode, complete_at,
  complete_encode,
}
use ds5dongle.AudioEpoch.Pairs.{
  Claim, claim_two, claim_second, claim_first, claim_pair, release_pair, take_claimed,
  take_adjacent_pair, is_current_complete, is_next_of, drop_gap,
}
use ds5dongle.AudioEpoch.Filling.{BeginsNone}

pub reset-BeginsNone : (generation : ℕ) → BeginsNone (λ s. reset generation s)
unfolding reset
reset-BeginsNone generation s h = refl

pub take_encode_job-BeginsNone : BeginsNone (λ s. (take_encode_job s).1)
unfolding take_encode_job claim_job
take_encode_job-BeginsNone s h = by_slot (oldest_where (is_encodable s) s.slots)
  where
    by_slot : (o : Option ℕ) → (claim_job o s).1.filling_slot ≡ none
    by_slot none = h
    by_slot (some i) = h

claim_pair-BeginsNone : BeginsNone (λ s. (claim_pair s).1)
unfolding claim_pair claim_first claim_second claim_two drop_gap
claim_pair-BeginsNone s h = by_first (oldest_where (is_current_complete s) s.slots)
  where
    by_second : (i : ℕ) (o : Option ℕ) → (claim_second i o s).1.filling_slot ≡ none
    by_second i none = ground (arith, h)
    by_second i (some j) = ground (arith, h)

    by_first : (o : Option ℕ) → (claim_first o s).1.filling_slot ≡ none
    by_first none = h
    by_first (some i) = by_second i (first_where (is_next_of s (slot_at s i).epoch) s.slots)

release_pair-BeginsNone : (c : Claim) → BeginsNone (λ s. (release_pair c s).1)
unfolding release_pair
release_pair-BeginsNone c s h = ground (arith, h)

module _ (between : Store → Store) (keeps : BeginsNone between) where
  pub complete_encode-BeginsNone :
      (generation epoch : ℕ) (opus : Option (List ℕ)) (len : ℕ)
      → BeginsNone (λ s. (complete_encode between generation epoch opus len s).1)
  unfolding complete_encode complete_at check_encode commit_encode
  complete_encode-BeginsNone generation epoch opus len s h = by_slot (find_slot generation epoch s)
    where
      by_slot :
          (o : Option ℕ) → (complete_at between generation epoch opus len o s).1.filling_slot ≡ none
      by_slot none = h
      by_slot (some i) = ground (arith, h, keeps s h)

  pub take_adjacent_pair-BeginsNone :
      (buffer : EpochPair) → BeginsNone (λ s. (take_adjacent_pair between buffer s).2)
  unfolding take_adjacent_pair take_claimed
  take_adjacent_pair-BeginsNone buffer s h =
      by_claim (claim_pair s).0 (claim_pair s).1 (claim_pair-BeginsNone s h)
    where
      by_claim :
          (c : Option Claim) (t : Store)
          → t.filling_slot ≡ none
          → (take_claimed between buffer c t).2.filling_slot ≡ none
      by_claim none t k = k
      by_claim (some c) t k = release_pair-BeginsNone c (between t) (keeps t k)
