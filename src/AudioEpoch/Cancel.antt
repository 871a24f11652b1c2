-- ===== src/AudioEpoch/Cancel.antt =====
-- A change of generation while a packet or a pair is copied: nothing stale gets through, and the
-- slots come back.
use ds5dongle.Prelude.{
  ℕ, suc, ◌<◌, ◌≡◌, ◌≢◌, false, List, [], ◌∷◌, Option, none, some, arith, refl, ◌==◌, Bool-cases,
  inl, inr, length, ◌∙◌, sym, ap, subst,
}
use ds5dongle.AudioEpoch.{
  Slot, free, encoding, Store, EpochPair, slot_at, zero_slot, with_state, opus_len, update,
  oldest_where, find_slot,
}
use ds5dongle.AudioEpoch.Slots.{
  get_or-update_self, oldest_where-some, length-update, find_slot-some,
}
use ds5dongle.AudioEpoch.Allocate.{reset, cancel_all}
use ds5dongle.AudioEpoch.Encoding.{check_encode_goes_on}
use ds5dongle.AudioEpoch.Encode.{
  check_encode, commit_encode, complete_at, complete_encode, copy_opus,
}
use ds5dongle.AudioEpoch.Pairs.{
  Claim, is_current_complete, claim_pair, claim_first, claim_second, claim_two, release_pair,
  take_claimed, take_adjacent_pair,
}

commit_encode_stale :
    (i generation epoch : ℕ) (s : Store)
    → s.stats.generation ≢ generation
    → (commit_encode i generation epoch s).0 ≡ false
unfolding commit_encode
commit_encode_stale i generation epoch s ne = ground arith

complete_at_stale :
    (between : Store → Store) (generation epoch : ℕ) (opus : Option (List ℕ)) (len : ℕ)
    → ((u : Store) → (between u).stats.generation ≢ generation)
    → (o : Option ℕ) (s : Store) → (complete_at between generation epoch opus len o s).0 ≡ false
unfolding complete_at
complete_at_stale between generation epoch opus len h none s = refl
complete_at_stale between generation epoch opus len h (some i) s =
    let t = (check_encode i generation opus len s).1 in
    ground (arith, commit_encode_stale i generation epoch (copy_opus i opus (between t)), h t)

-- A packet whose generation ends while it is copied is refused.
pub complete_encode_stale :
    (between : Store → Store) (generation epoch : ℕ) (opus : Option (List ℕ)) (len : ℕ) (s : Store)
    → ((u : Store) → (between u).stats.generation ≢ generation)
    → (complete_encode between generation epoch opus len s).0 ≡ false
unfolding complete_encode
complete_encode_stale between generation epoch opus len s h =
    complete_at_stale between generation epoch opus len h (find_slot generation epoch s) s

release_pair_stale :
    (c : Claim) (s : Store) → c.generation ≢ s.stats.generation → (release_pair c s).0 ≡ false
unfolding release_pair
release_pair_stale c s ne = ground arith

-- The claim keeps the generation of the store that it was made in.
abbrev Claims : ℕ → Option Claim → Type 0
Claims generation none = Unit
Claims generation (some c) = c.generation ≡ generation

claim_second-Claims :
    (s : Store) (i : ℕ) (o : Option ℕ)
    → (slot_at s i).generation ≡ s.stats.generation
    → Claims s.stats.generation (claim_second i o s).0
unfolding claim_second claim_two
claim_second-Claims s i none g = tt
claim_second-Claims s i (some j) g =
    elim (Bool-cases ((slot_at s i).speaker_enabled == (slot_at s j).speaker_enabled)) [
      | inl e ↦ rw e g
      | inr n ↦ rw n tt
    ]

claim_first-Claims :
    (s : Store) (o : Option ℕ)
    → oldest_where (is_current_complete s) s.slots ≡ o
    → Claims s.stats.generation (claim_first o s).0
unfolding claim_first
claim_first-Claims s none e = tt
claim_first-Claims s (some i) e =
    let found = oldest_where-some (is_current_complete s) s.slots e in
    claim_second-Claims s i _ (ground (arith, found.1))

take_claimed_stale :
    (between : Store → Store) (buffer : EpochPair) (generation : ℕ)
    → ((u : Store) → (between u).stats.generation ≢ generation)
    → (o : Option Claim) (s : Store) → Claims generation o
    → (take_claimed between buffer o s).0 ≡ false
unfolding take_claimed
take_claimed_stale between buffer generation h none s c = refl
take_claimed_stale between buffer generation h (some c) s e =
    release_pair_stale c (between s) (λ p. h s (sym p ∙ e))

-- A pair whose generation ends while it is copied is not handed out.
pub take_adjacent_pair_stale :
    (between : Store → Store) (buffer : EpochPair) (s : Store)
    → ((u : Store) → (between u).stats.generation ≢ s.stats.generation)
    → (take_adjacent_pair between buffer s).0 ≡ false
unfolding take_adjacent_pair claim_pair
take_adjacent_pair_stale between buffer s h =
    take_claimed_stale between buffer s.stats.generation h _ _ (claim_first-Claims s _ refl)

commit_encode_frees :
    (i generation epoch : ℕ) (s : Store)
    → i < length s.slots
    → s.stats.generation ≢ generation
    → (slot_at (commit_encode i generation epoch s).1 i).state ≡ free
unfolding commit_encode
commit_encode_frees i generation epoch s h ne =
    ground (arith, get_or-update_self i (with_state free) s.slots zero_slot h)

length-cancel_all : (xs : List Slot) → length (cancel_all xs) ≡ length xs
unfolding cancel_all
length-cancel_all [] = refl
length-cancel_all (x ∷ xs) = ap suc (length-cancel_all xs)

complete_at-frees :
    (generation epoch next_generation i : ℕ) (bytes : List ℕ) (s : Store)
    → i < length s.slots
    → (slot_at s i).state ≡ encoding
    → generation ≡ s.stats.generation
    → next_generation ≢ generation
    → (slot_at
        (complete_at (reset next_generation) generation epoch (some bytes) opus_len (some i) s).1
        i).state
      ≡ free
unfolding complete_at
complete_at-frees generation epoch next_generation i bytes s h st g ne =
    let t = copy_opus i (some bytes) (reset next_generation s) in
    rw (check_encode_goes_on i generation bytes s st g)
      (commit_encode_frees i generation epoch t (unfold reset in length_kept) (unfold reset in ne))
  where
    length_kept :
        i < length (update i (λ x. record x { speaker_opus = bytes }) (cancel_all s.slots))
    length_kept =
        subst (λ (n : ℕ). i < n)
          (sym (
            length-update i (λ x. record x { speaker_opus = bytes }) (cancel_all s.slots)
            ∙ length-cancel_all s.slots))
          h

-- The slot whose packet was refused at the end of its generation is free: a reset in the middle of an
-- encoding leaks no slot.
pub complete_encode-reset :
    (generation epoch next_generation : ℕ) (bytes : List ℕ) (s : Store) {i : ℕ}
    → find_slot generation epoch s ≡ some i
    → (slot_at s i).state ≡ encoding
    → generation ≡ s.stats.generation
    → next_generation ≢ generation
    → (slot_at
        (complete_encode (reset next_generation) generation epoch (some bytes) opus_len s).1
        i).state
      ≡ free
unfolding complete_encode
complete_encode-reset generation epoch next_generation bytes s {i} found st g ne = rw found (
    complete_at-frees generation epoch next_generation i bytes s
      (find_slot-some generation epoch s found).0 st g ne)
