-- ===== src/AudioEpoch/Encoding.antt =====
-- What m61_audio_epoch_take_encode_job hands to the encoder, and what its packet becomes.
use ds5dongle.Prelude.{
  ℕ, ◌<◌, ◌≡◌, true, List, Option, none, some, arith, refl, length, ◌∙◌, sym, ap, subst,
}
use ds5dongle.AudioEpoch.{
  Slot, ready_encode, encoding, complete, Store, EncodeJob, slot_at, zero_slot, with_state,
  opus_len, oldest_where, find_slot,
}
use ds5dongle.AudioEpoch.Slots.{
  get_or-update_self, oldest_where-some, length-update, AllAbove, find_slot-some,
}
use ds5dongle.AudioEpoch.Encode.{
  check_encode, commit_encode, complete_at, complete_encode, copy_opus, is_encodable, claim_job,
  take_encode_job,
}

-- A job, and the slot that it comes from.
pub record JobTaken (s : Store) (job : EncodeJob) (t : Store) : Type 0 where
  pub was_ready : (slot_at s job.slot).state ≡ ready_encode
  pub right_generation : (slot_at s job.slot).generation ≡ s.stats.generation
  pub is_oldest : AllAbove (is_encodable s) job.epoch s.slots
  pub same_generation : job.generation ≡ s.stats.generation
  pub same_epoch : job.epoch ≡ (slot_at s job.slot).epoch
  pub same_time : job.captured_us ≡ (slot_at s job.slot).captured_us
  pub claimed : slot_at t job.slot ≡ with_state encoding (slot_at s job.slot)

pub check_encode_goes_on :
    (i generation : ℕ) (bytes : List ℕ) (s : Store)
    → (slot_at s i).state ≡ encoding
    → generation ≡ s.stats.generation
    → check_encode i generation (some bytes) opus_len s ≡ (true, s)
unfolding check_encode
check_encode_goes_on i generation bytes s st g = ground arith

claim_job-JobTaken :
    (s : Store) (o : Option ℕ) {job : EncodeJob} {t : Store}
    → oldest_where (is_encodable s) s.slots ≡ o
    → claim_job o s ≡ (some job, t)
    → JobTaken s job t
unfolding claim_job
claim_job-JobTaken s none e f = ground arith
claim_job-JobTaken s (some i) e f =
    let (h, ok, oldest) = oldest_where-some (is_encodable s) s.slots e in
    let written = get_or-update_self i (with_state encoding) s.slots zero_slot h in
    subst (λ (r : Option EncodeJob × Store). Made r) f
      (record {
        was_ready = ground (arith, ok);
        right_generation = ground (arith, ok);
        is_oldest = oldest;
        same_generation = ground (arith, ok);
        same_epoch = refl;
        same_time = refl;
        claimed = written;
      })
  where
    Made : Option EncodeJob × Store → Type 0
    Made (none, t) = Unit
    Made (some job, t) = JobTaken s job t

-- A job is the oldest epoch of the current generation that waits for its encoder; its slot is marked
-- as being encoded, and is otherwise unchanged.
pub take_encode_job-JobTaken :
    (s : Store) {job : EncodeJob} {t : Store} → take_encode_job s ≡ (some job, t) → JobTaken s job t
unfolding take_encode_job
take_encode_job-JobTaken s e = claim_job-JobTaken s _ refl e

commit_encode_completes :
    (i generation epoch : ℕ) (s : Store)
    → i < length s.slots
    → (slot_at s i).state ≡ encoding
    → (slot_at s i).generation ≡ generation
    → (slot_at s i).epoch ≡ epoch
    → generation ≡ s.stats.generation
    → ((commit_encode i generation epoch s).0 ≡ true)
      × (slot_at (commit_encode i generation epoch s).1 i ≡ with_state complete (slot_at s i))
unfolding commit_encode
commit_encode_completes i generation epoch s h st g e c =
    ground (arith, get_or-update_self i (with_state complete) s.slots zero_slot h)

-- A packet of 200 bytes for a slot that is being encoded, in the current generation and with no other
-- task in between, is accepted: the slot is complete and holds the packet.
pub complete_encode_stores :
    (generation epoch : ℕ) (bytes : List ℕ) (s : Store) {i : ℕ}
    → find_slot generation epoch s ≡ some i
    → (slot_at s i).state ≡ encoding
    → generation ≡ s.stats.generation
    → let (accepted, t) = complete_encode (λ u. u) generation epoch (some bytes) opus_len s in
      (accepted ≡ true)
      × (slot_at t i ≡ (record (slot_at s i) { state = complete; speaker_opus = bytes }))
unfolding complete_encode complete_at
complete_encode_stores generation epoch bytes s {i} found st g =
    let (h, gen, ep) = find_slot-some generation epoch s found in
    let write = λ (x : Slot). record x { speaker_opus = bytes } in
    let t = copy_opus i (some bytes) s in
    let copied = get_or-update_self i write s.slots zero_slot h in
    let here : i < length t.slots =
      subst (λ (n : ℕ). i < n) (sym (length-update i write s.slots)) h in
    let done =
      commit_encode_completes i generation epoch t here (ap Slot.state copied ∙ st)
        (ap Slot.generation copied ∙ gen) (ap Slot.epoch copied ∙ ep) g in
    rw (found, check_encode_goes_on i generation bytes s st g)
      (done.0, done.1 ∙ ap (with_state complete) copied)
