-- ===== src/AudioEpoch/Reading.antt =====
-- What m61_audio_epoch_take_adjacent_pair hands out, and when it hands out nothing.
use ds5dongle.Prelude.{
  ℕ, ◌+◌, ◌<◌, ◌≡◌, ◌≢◌, Bool, true, Option, none, some, arith, refl, ◌==◌, if◌then◌else◌, length,
  ◌∙◌, sym, ap, subst, u32, replicate,
}
use ds5dongle.AudioEpoch.{
  SlotState, free, complete, reading, Store, EpochPair, slot_at, zero_slot, set_state, with_state,
  opus_len, update, first_where, oldest_where,
}
use ds5dongle.AudioEpoch.Slots.{
  get_or-update_self, get_or-update_ne, first_where-some, oldest_where-some, length-update,
  AllAbove,
}
use ds5dongle.AudioEpoch.Pairs.{
  is_current_complete, is_next_of, claim_pair, claim_first, claim_second, claim_two, read_pair,
  release_pair, take_claimed, take_adjacent_pair,
}

abbrev pub IsState : SlotState → Store → ℕ → Type 0
IsState st s i = (slot_at s i).state ≡ st

-- The pair that is handed out: the two slots that it comes from, and where they are left.
pub record PairTaken (s : Store) (p : EpochPair) (t : Store) (i j : ℕ) : Type 0 where
  pub first_complete : IsState complete s i
  pub second_complete : IsState complete s j
  pub first_generation : (slot_at s i).generation ≡ s.stats.generation
  pub second_generation : (slot_at s j).generation ≡ s.stats.generation
  pub adjacent : (slot_at s j).epoch ≡ u32 ((slot_at s i).epoch + 1)
  pub is_oldest : AllAbove (is_current_complete s) (slot_at s i).epoch s.slots
  pub same_speaker : (slot_at s i).speaker_enabled ≡ (slot_at s j).speaker_enabled
  pub pair_generation : p.generation ≡ s.stats.generation
  pub pair_epoch : p.first_epoch ≡ (slot_at s i).epoch
  pub pair_first_us : p.first_captured_us ≡ (slot_at s i).captured_us
  pub pair_second_us : p.second_captured_us ≡ (slot_at s j).captured_us
  pub pair_first_haptics : p.first_haptics ≡ (slot_at s i).haptics
  pub pair_second_haptics : p.second_haptics ≡ (slot_at s j).haptics
  pub pair_first_opus : p.first_opus ≡ (
      if (slot_at s i).speaker_enabled == 0
      then replicate opus_len 0
      else (slot_at s i).speaker_opus)
  pub pair_second_opus : p.second_opus ≡ (
      if (slot_at s i).speaker_enabled == 0
      then replicate opus_len 0
      else (slot_at s j).speaker_opus)
  pub first_freed : IsState free t i
  pub second_freed : IsState free t j

-- What the two searches find.
record Found (s : Store) (i j : ℕ) : Type 0 where
  first_in : i < length s.slots
  second_in : j < length s.slots
  first_ok : is_current_complete s (slot_at s i) ≡ true
  second_ok : is_next_of s (slot_at s i).epoch (slot_at s j) ≡ true
  oldest : AllAbove (is_current_complete s) (slot_at s i).epoch s.slots

distinct : (s : Store) (i j : ℕ) → Found s i j → i ≢ j
distinct s i j f e = absurd (omega (arith, ap (λ (k : ℕ). (slot_at s k).epoch) e, next))
  where
    next : (slot_at s j).epoch ≡ u32 ((slot_at s i).epoch + 1)
    next = ground (arith, f.second_ok)

module _ (s : Store) (i j : ℕ) (hi : i < length s.slots) (hj : j < length s.slots) (ne : i ≢ j)
    (a : SlotState) where
  both : Store
  both = set_state j a (set_state i a s)

  length-both : length both.slots ≡ length s.slots
  unfolding both
  length-both =
      length-update j (with_state a) (update i (with_state a) s.slots)
      ∙ length-update i (with_state a) s.slots

  both_first : slot_at both i ≡ with_state a (slot_at s i)
  unfolding both
  both_first =
      get_or-update_ne j i (with_state a) (update i (with_state a) s.slots) zero_slot
        (λ e. ne (sym e))
      ∙ get_or-update_self i (with_state a) s.slots zero_slot hi

  both_second : slot_at both j ≡ with_state a (slot_at s j)
  unfolding both
  both_second =
      get_or-update_self j (with_state a) (update i (with_state a) s.slots) zero_slot
        (subst (λ (n : ℕ). j < n) (sym (length-update i (with_state a) s.slots)) hj)
      ∙ ap (with_state a) (get_or-update_ne i j (with_state a) s.slots zero_slot ne)

-- The result of a take, where it hands out a pair.
abbrev Taken : Store → Bool × EpochPair × Store → Type 0
Taken s (taken, p, t) = taken ≡ true → (i : ℕ) × (j : ℕ) × PairTaken s p t i j

claim_two-Taken :
    (buffer : EpochPair) (s : Store) (i j : ℕ)
    → Found s i j
    → let (claim, t) = claim_two i j s in Taken s (take_claimed (λ u. u) buffer claim t)
unfolding claim_two take_claimed release_pair read_pair both
claim_two-Taken buffer s i j f e =
    let hi = f.first_in in
    let hj = f.second_in in
    let ne = distinct s i j f in
    let t = both s i j hi hj ne reading in
    let len = length-both s i j hi hj ne reading in
    let hi' : i < length t.slots = subst (λ (n : ℕ). i < n) (sym len) hi in
    let hj' : j < length t.slots = subst (λ (n : ℕ). j < n) (sym len) hj in
    let x₁ = both_first s i j hi hj ne reading in
    let y₁ = both_second s i j hi hj ne reading in
    let x₂ = both_first t i j hi' hj' ne free in
    let y₂ = both_second t i j hi' hj' ne free in
    (
      i,
      j,
      record {
        first_complete = ground (arith, f.first_ok);
        second_complete = ground (arith, f.second_ok);
        first_generation = ground (arith, f.first_ok);
        second_generation = ground (arith, f.second_ok);
        adjacent = ground (arith, f.second_ok);
        is_oldest = f.oldest;
        same_speaker = ground arith;
        pair_generation = ground (arith, f.first_ok, x₁, y₁);
        pair_epoch = ground (arith, x₁, y₁);
        pair_first_us = ground (arith, x₁, y₁);
        pair_second_us = ground (arith, x₁, y₁);
        pair_first_haptics = ground (arith, x₁, y₁);
        pair_second_haptics = ground (arith, x₁, y₁);
        pair_first_opus = ground (arith, x₁, y₁);
        pair_second_opus = ground (arith, x₁, y₁);
        first_freed = ground (arith, x₁, y₁, x₂, y₂);
        second_freed = ground (arith, x₁, y₁, x₂, y₂);
      },
    )

claim_second-Taken :
    (buffer : EpochPair) (s : Store) (i : ℕ) (o : Option ℕ)
    → oldest_where (is_current_complete s) s.slots ≡ some i
    → first_where (is_next_of s (slot_at s i).epoch) s.slots ≡ o
    → let (claim, t) = claim_second i o s in Taken s (take_claimed (λ u. u) buffer claim t)
unfolding claim_second take_claimed
claim_second-Taken buffer s i none e f = λ taken. cc
claim_second-Taken buffer s i (some j) e f =
    let (hi, ok, oldest) = oldest_where-some (is_current_complete s) s.slots e in
    let (hj, next) = first_where-some (is_next_of s (slot_at s i).epoch) s.slots zero_slot f in
    claim_two-Taken buffer s i j
      (record { first_in = hi; second_in = hj; first_ok = ok; second_ok = next; oldest = oldest })

claim_first-Taken :
    (buffer : EpochPair) (s : Store) (o : Option ℕ)
    → oldest_where (is_current_complete s) s.slots ≡ o
    → let (claim, t) = claim_first o s in Taken s (take_claimed (λ u. u) buffer claim t)
unfolding claim_first take_claimed
claim_first-Taken buffer s none e = λ taken. cc
claim_first-Taken buffer s (some i) e = claim_second-Taken buffer s i _ e refl

-- A pair that is handed out, with no other task in between, comes from two complete slots of the
-- current generation, the oldest such epoch and its successor, with the same speaker flag; it holds
-- their times, haptics and packets, zeros for the packets where the speaker is off, and both slots
-- are free behind it.
pub take_adjacent_pair-PairTaken :
    (buffer : EpochPair) (s : Store) {p : EpochPair} {t : Store}
    → take_adjacent_pair (λ u. u) buffer s ≡ (true, p, t)
    → (i : ℕ) × (j : ℕ) × PairTaken s p t i j
unfolding take_adjacent_pair claim_pair
take_adjacent_pair-PairTaken buffer s {p} {t} e =
    subst (Taken s) e (claim_first-Taken buffer s _ refl) refl

claim_two-taken :
    (buffer : EpochPair) (s : Store) (i j : ℕ)
    → Found s i j
    → (slot_at s i).speaker_enabled ≡ (slot_at s j).speaker_enabled
    → let (claim, t) = claim_two i j s in (take_claimed (λ u. u) buffer claim t).0 ≡ true
unfolding claim_two take_claimed release_pair both
claim_two-taken buffer s i j f same =
    let ne = distinct s i j f in
    ground (
      arith,
      f.first_ok,
      f.second_ok,
      both_first s i j f.first_in f.second_in ne reading,
      both_second s i j f.first_in f.second_in ne reading,
    )

-- Where the oldest complete epoch of the current generation has its successor, with the same speaker
-- flag, and no other task comes in between, a pair is handed out.
pub take_adjacent_pair_ready :
    (buffer : EpochPair) (s : Store) (i j : ℕ)
    → oldest_where (is_current_complete s) s.slots ≡ some i
    → first_where (is_next_of s (slot_at s i).epoch) s.slots ≡ some j
    → (slot_at s i).speaker_enabled ≡ (slot_at s j).speaker_enabled
    → (take_adjacent_pair (λ u. u) buffer s).0 ≡ true
unfolding take_adjacent_pair claim_pair claim_first claim_second
take_adjacent_pair_ready buffer s i j e f same =
    let (hi, ok, oldest) = oldest_where-some (is_current_complete s) s.slots e in
    let (hj, next) = first_where-some (is_next_of s (slot_at s i).epoch) s.slots zero_slot f in
    rw (e, claim_first)
      (rw (f, claim_second)
        (claim_two-taken buffer s i j
          (record {
            first_in = hi;
            second_in = hj;
            first_ok = ok;
            second_ok = next;
            oldest = oldest;
          })
          same))
