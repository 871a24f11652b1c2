-- ===== src/AudioEpoch/Filling.antt =====
-- The end of the loop of m61_audio_epoch_ingest_usb, and the rounds of it that go on.
use ds5dongle.Prelude.{
  ℕ, zero, suc, ◌+◌, ◌-◌, ◌*◌, ◌/◌, ◌≤◌, ◌<◌, ◌≡◌, ◌≢◌, Bool, true, List, Option, none, some, arith,
  refl, ltb, ◌==◌, drop, Bool-cases, inl, inr, length,
}
use ds5dongle.AudioEpoch.{Slot, Store, zero_slot, first_where, oldest_where, slot_at, is_filling}
use ds5dongle.AudioEpoch.Slots.{get_or-update_self, first_where-some, oldest_where-some}
use ds5dongle.AudioEpoch.Allocate.{drop_epoch, allocate_slot, allocate_in, open_slot}
use ds5dongle.AudioEpoch.Ingest.{
  chunk, take_slot, fill_round, round_with, round, ingest_loop, ingest_usb, usb_frame_bytes,
}
use ds5dongle.AudioEpoch.Chunks.{chunk-le, chunk-pos, chunk-pos_fresh, copied_full}

-- 1 where a slot is being filled.
abbrev has_slot : Option ℕ → ℕ
has_slot none = 0
has_slot (some i) = 1

-- What falls with each round: two for each frame to come, and one for a slot being filled.
abbrev measure : ℕ → Store → ℕ
measure left s = 2 * left + has_slot s.filling_slot

-- A slot that was allocated is open and empty.
IsFresh : Option ℕ × Store → Type 0
IsFresh (none, s) = Unit
IsFresh (some i, s) = (is_filling (slot_at s i).state ≡ true) × ((slot_at s i).pcm_frames ≡ 0)

open_slot-IsFresh :
    (i captured_us : ℕ) (speaker : Bool) (s : Store)
    → i < length s.slots
    → IsFresh (some i, open_slot i captured_us speaker s)
unfolding open_slot IsFresh
open_slot-IsFresh i captured_us speaker s h =
    rw (get_or-update_self i _ s.slots zero_slot h) (refl, refl)

allocate_in-IsFresh :
    (p q : Slot → Bool) (captured_us : ℕ) (speaker : Bool) (s : Store) (a b : Option ℕ)
    → first_where p s.slots ≡ a
    → oldest_where q s.slots ≡ b
    → IsFresh (allocate_in a b captured_us speaker s)
unfolding allocate_in
allocate_in-IsFresh p q captured_us speaker s (some i) b e f =
    open_slot-IsFresh i captured_us speaker s (first_where-some p s.slots zero_slot e).0
allocate_in-IsFresh p q captured_us speaker s none (some i) e f =
    open_slot-IsFresh i captured_us speaker (drop_epoch s) (oldest_where-some q s.slots f).0
allocate_in-IsFresh p q captured_us speaker s none none e f = unfold IsFresh in tt

allocate_slot-IsFresh :
    (captured_us : ℕ) (speaker : Bool) (s : Store) → IsFresh (allocate_slot captured_us speaker s)
unfolding allocate_slot
allocate_slot-IsFresh captured_us speaker s =
    allocate_in-IsFresh _ _ captured_us speaker s _ _ refl refl

module _ (between : Store → Store) (generation captured_us : ℕ) (speaker : Bool) (gain_q8 : ℕ) where
  abbrev Progress : ℕ → Bool × ℕ × Store → Type 0
  Progress budget (go_on, n, t) = go_on ≡ true → has_slot t.filling_slot < 2 * n + budget

  -- A round with a slot at hand copies a frame, or gives the slot up.
  fill_round-Progress :
      (i left : ℕ) (usb : List ℕ) (s : Store)
      → 0 < left
      → Progress 1 (fill_round between generation captured_us speaker gain_q8 i left usb s)
  unfolding fill_round
  fill_round-Progress i left usb s h =
      let pcm = (slot_at s i).pcm_frames in
      let n = chunk left pcm in
      ground (arith, chunk-pos left pcm h, copied_full generation i n pcm usb gain_q8 (between s))

  -- A round with a new slot copies a frame.
  fill_round-Progress_fresh :
      (i left : ℕ) (usb : List ℕ) (s : Store)
      → 0 < left
      → is_filling (slot_at s i).state ≡ true
      → (slot_at s i).pcm_frames ≡ 0
      → Progress 0 (fill_round between generation captured_us speaker gain_q8 i left usb s)
  unfolding fill_round
  fill_round-Progress_fresh i left usb s h live fresh = ground (arith, chunk-pos_fresh left h)

  new_slot-Progress :
      (left : ℕ) (usb : List ℕ) (r : Option ℕ × Store)
      → 0 < left
      → IsFresh r
      → Progress 0 (round_with between generation captured_us speaker gain_q8 r left usb)
  unfolding round_with IsFresh
  new_slot-Progress left usb (none, t) h f = λ e. cc
  new_slot-Progress left usb (some i, t) h f = fill_round-Progress_fresh i left usb t h f.0 f.1

  take_slot-Progress :
      (left : ℕ) (usb : List ℕ) (o : Option ℕ) (s : Store)
      → 0 < left
      → Progress (has_slot o) (
          round_with between generation captured_us speaker gain_q8
            (take_slot captured_us speaker o s)
            left
            usb)
  unfolding take_slot
  take_slot-Progress left usb none s h =
      new_slot-Progress left usb _ h (allocate_slot-IsFresh captured_us speaker s)
  take_slot-Progress left usb (some i) s h = unfold round_with in fill_round-Progress i left usb s h

  -- A round that goes on lowers the measure.
  round-Progress :
      (left : ℕ) (usb : List ℕ) (s : Store)
      → 0 < left
      → Progress
          (has_slot s.filling_slot)
          (round between generation captured_us speaker gain_q8 left usb s)
  unfolding round
  round-Progress left usb s h = elim (Bool-cases (generation == s.stats.generation)) [
    | inl e ↦ rw e (take_slot-Progress left usb s.filling_slot s h)
    | inr n ↦ rw n (λ e. cc)
  ]

  fill_round-le :
      (i left : ℕ) (usb : List ℕ) (s : Store)
      → (fill_round between generation captured_us speaker gain_q8 i left usb s).1 ≤ left
  unfolding fill_round
  fill_round-le i left usb s = ground (arith, chunk-le left (slot_at s i).pcm_frames)

  round_with-le :
      (r : Option ℕ × Store) (left : ℕ) (usb : List ℕ)
      → (round_with between generation captured_us speaker gain_q8 r left usb).1 ≤ left
  unfolding round_with
  round_with-le (none, s) left usb = omega arith
  round_with-le (some i, s) left usb = fill_round-le i left usb s

  round-le :
      (left : ℕ) (usb : List ℕ) (s : Store)
      → (round between generation captured_us speaker gain_q8 left usb s).1 ≤ left
  unfolding round
  round-le left usb s =
      ground (arith, round_with-le (take_slot captured_us speaker s.filling_slot s) left usb)

-- A change by the other tasks that may end the filling of an epoch, and begins none.
abbrev pub BeginsNone : (Store → Store) → Type 0
BeginsNone others = (s : Store) → s.filling_slot ≡ none → (others s).filling_slot ≡ none

has_slot-BeginsNone :
    (others : Store → Store) (s : Store)
    → BeginsNone others
    → has_slot (others s).filling_slot ≤ has_slot s.filling_slot
has_slot-BeginsNone others s h = by_slot s.filling_slot (others s).filling_slot (h s)
  where
    by_slot : (o p : Option ℕ) → (o ≡ none → p ≡ none) → has_slot p ≤ has_slot o
    by_slot none p k = rw (k refl) (omega arith)
    by_slot (some i) none k = omega arith
    by_slot (some i) (some j) k = omega arith

module _ (between others : ℕ → Store → Store) (generation captured_us : ℕ) (speaker : Bool)
    (gain_q8 : ℕ) (begins_none : (k : ℕ) → BeginsNone (others k)) where
  ingest_loop-ne-none :
      (fuel left : ℕ) (usb : List ℕ) (s : Store)
      → 2 * left + has_slot s.filling_slot < fuel
      → ingest_loop between others generation captured_us speaker gain_q8 fuel left usb s ≢ none
  unfolding ingest_loop
  ingest_loop-ne-none zero left usb s h = absurd (omega arith)
  ingest_loop-ne-none (suc fuel) left usb s h = elim (Bool-cases (left == 0)) [
    | inl done ↦ rw done (λ e. cc)
    | inr more ↦
        let t = others fuel s in
        let r = round (between fuel) generation captured_us speaker gain_q8 left usb t in
        rw more (
          ground (
            arith,
            has_slot-BeginsNone (others fuel) s (begins_none fuel),
            round-Progress (between fuel) generation captured_us speaker gain_q8 left usb t,
            round-le (between fuel) generation captured_us speaker gain_q8 left usb t,
            ingest_loop-ne-none fuel (left - r.1) (drop (usb_frame_bytes * r.1) usb) r.2,
          ))
  ]

  -- The loop of m61_audio_epoch_ingest_usb ends within two rounds a frame and two more, whatever the packet and
  -- the store are, whatever the other tasks do to the store while a round copies its frames, and whatever they do
  -- between two rounds, other than to begin the filling of an epoch.
  pub ingest_usb-ne-none :
      (packet : Option (List ℕ)) (len : ℕ) (s : Store)
      → ingest_usb between others generation captured_us speaker gain_q8 packet len s ≢ none
  unfolding ingest_usb
  ingest_usb-ne-none none len s = λ e. cc
  ingest_usb-ne-none (some usb) len s = elim (Bool-cases (ltb len usb_frame_bytes)) [
    | inl short ↦ rw short (λ e. cc)
    | inr long ↦
        let frames = len / usb_frame_bytes in
        rw long (ingest_loop-ne-none (2 * frames + 2) frames usb s (ground arith))
  ]
