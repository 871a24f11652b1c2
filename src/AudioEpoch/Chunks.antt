-- ===== src/AudioEpoch/Chunks.antt =====
-- One chunk of the loop of m61_audio_epoch_ingest_usb: its size, its copy and its commit.
use ds5dongle.Prelude.{
  ℕ, zero, suc, ◌+◌, ◌≤◌, ◌<◌, ◌≡◌, true, List, [], ◌∷◌, none, arith, ◌⊎◌, u16, length, get_or, ◌∙◌,
}
use ds5dongle.AudioEpoch.{Slot, Store, zero_slot, slot_at, usb_frames, is_filling}
use ds5dongle.AudioEpoch.Slots.{length-update, get_or-update_self}
use ds5dongle.AudioEpoch.Ingest.{chunk, copy_chunk, commit_chunk}

pub chunk-le : (left pcm : ℕ) → chunk left pcm ≤ left
chunk-le left pcm = ground arith

-- A chunk is empty only where the epoch is full.
pub chunk-pos :
    (left pcm : ℕ) → 0 < left → (0 < chunk left pcm) ⊎ (u16 (pcm + chunk left pcm) ≡ usb_frames)
chunk-pos left pcm h = ground arith

pub chunk-pos_fresh : (left : ℕ) → 0 < left → 0 < chunk left 0
chunk-pos_fresh left h = ground arith

-- Behind a commit that goes on the slot is full and put away, or it is not full.
pub commit_chunk_frees :
    (generation i : ℕ) (s : Store)
    → (commit_chunk i generation s).0 ≡ true
    → (slot_at s i).pcm_frames ≡ usb_frames
    → (commit_chunk i generation s).1.filling_slot ≡ none
unfolding commit_chunk
commit_chunk_frees generation i s e f = ground arith

pub commit_chunk_live :
    (generation i : ℕ) (s : Store)
    → (commit_chunk i generation s).0 ≡ true
    → is_filling (slot_at s i).state ≡ true
unfolding commit_chunk
commit_chunk_live generation i s e = ground arith

pub slot_at_live : (s : Store) (i : ℕ) → is_filling (slot_at s i).state ≡ true → i < length s.slots
slot_at_live s i e = in_range s.slots i e
  where
    in_range :
        (xs : List Slot) (j : ℕ) → is_filling (get_or xs j zero_slot).state ≡ true → j < length xs
    in_range [] j e = cc
    in_range (x ∷ xs) zero e = omega arith
    in_range (x ∷ xs) (suc j) e = omega (arith, in_range xs j e)

pub pcm_frames-copy_chunk :
    (i n pcm : ℕ) (usb : List ℕ) (gain_q8 : ℕ) (s : Store)
    → i < length s.slots
    → (slot_at (copy_chunk i n pcm usb gain_q8 s) i).pcm_frames ≡ u16 (pcm + n)
unfolding copy_chunk
pcm_frames-copy_chunk i n pcm usb gain_q8 s h = rw (get_or-update_self i _ s.slots zero_slot h)

pub length-copy_chunk :
    (i n pcm : ℕ) (usb : List ℕ) (gain_q8 : ℕ) (s : Store)
    → length (copy_chunk i n pcm usb gain_q8 s).slots ≡ length s.slots
unfolding copy_chunk
length-copy_chunk i n pcm usb gain_q8 s = length-update i _ s.slots

-- The slot that a copy leaves full is put away by the commit behind it.
pub copied_full :
    (generation i n pcm : ℕ) (usb : List ℕ) (gain_q8 : ℕ) (s : Store)
    → (commit_chunk i generation (copy_chunk i n pcm usb gain_q8 s)).0 ≡ true
    → u16 (pcm + n) ≡ usb_frames
    → (commit_chunk i generation (copy_chunk i n pcm usb gain_q8 s)).1.filling_slot ≡ none
copied_full generation i n pcm usb gain_q8 s e f =
    let t = copy_chunk i n pcm usb gain_q8 s in
    let here : i < length s.slots = omega (
      arith,
      slot_at_live t i (commit_chunk_live generation i t e),
      length-copy_chunk i n pcm usb gain_q8 s,
    ) in
    commit_chunk_frees generation i t e (pcm_frames-copy_chunk i n pcm usb gain_q8 s here ∙ f)
