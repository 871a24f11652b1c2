-- ===== src/AudioEpoch/Ownership.antt =====
-- Which task owns a slot: filling an epoch leaves alone every slot that the encoder or the reader
-- holds, and a reset leaves it to its owner, who then finds it cancelled.
use ds5dongle.Prelude.{
  ℕ, zero, suc, ◌+◌, ◌-◌, ◌*◌, ◌/◌, ◌≡◌, Bool, true, false, List, [], ◌∷◌, Option, none, some,
  arith, refl, ltb, ◌==◌, if◌then◌else◌, drop, Bool-cases, inl, inr, get_or, ◌∙◌, ap, subst, ◌↔◌,
}
use ds5dongle.AudioEpoch.{
  Slot, SlotState, free, ready_encode, encoding, complete, reading, cancelled_encoding,
  cancelled_reading, Store, slot_at, zero_slot, is_filling, is_encoding, is_reading, update,
  first_where, oldest_where, is_free,
}
use ds5dongle.AudioEpoch.Slots.{get_or-update_ne, first_where-some, oldest_where-some}
use ds5dongle.AudioEpoch.Allocate.{
  drop_epoch, allocate_slot, allocate_in, open_slot, is_evictable, reset, cancel_all, cancel,
}
use ds5dongle.AudioEpoch.Ingest.{
  chunk, take_slot, copy_chunk, commit_chunk, fill_round, round_with, round, ingest_loop,
  ingest_usb, usb_frame_bytes,
}

-- The encoder or the reader holds the slot, cancelled or not.
abbrev pub is_owned : SlotState → Bool
is_owned encoding = true
is_owned reading = true
is_owned cancelled_encoding = true
is_owned cancelled_reading = true
is_owned _ = false

-- Every owned slot of `s` is the same in `t`.
abbrev pub KeepsOwned : Store → Store → Type 0
KeepsOwned s t = (j : ℕ) → is_owned (slot_at s j).state ≡ true → slot_at t j ≡ slot_at s j

KeepsOwned-trans : (s t u : Store) → KeepsOwned s t → KeepsOwned t u → KeepsOwned s u
KeepsOwned-trans s t u h k j o = k j (ap (λ (x : Slot). is_owned x.state) (h j o) ∙ o) ∙ h j o

-- A write to a slot that nobody holds.
update-KeepsOwned :
    (i : ℕ) (f : Slot → Slot) (s : Store)
    → is_owned (slot_at s i).state ≡ false
    → KeepsOwned s (record s { slots = update i f s.slots })
update-KeepsOwned i f s loose j owned =
    get_or-update_ne i j f s.slots zero_slot
      (λ e. cc (ap (λ (k : ℕ). is_owned (slot_at s k).state) e))

open_slot-KeepsOwned :
    (i captured_us : ℕ) (speaker : Bool) (s : Store)
    → is_owned (slot_at s i).state ≡ false
    → KeepsOwned s (open_slot i captured_us speaker s)
unfolding open_slot
open_slot-KeepsOwned i captured_us speaker s loose = update-KeepsOwned i _ s loose

allocate_in-KeepsOwned :
    (captured_us : ℕ) (speaker : Bool) (s : Store) (a b : Option ℕ)
    → first_where (λ x. is_free x.state) s.slots ≡ a
    → oldest_where is_evictable s.slots ≡ b
    → KeepsOwned s (allocate_in a b captured_us speaker s).1
unfolding allocate_in
allocate_in-KeepsOwned captured_us speaker s (some i) b e f =
    let found = first_where-some (λ x. is_free x.state) s.slots zero_slot e in
    open_slot-KeepsOwned i captured_us speaker s (ground (arith, found.1))
allocate_in-KeepsOwned captured_us speaker s none (some i) e f =
    let found = oldest_where-some is_evictable s.slots f in
    open_slot-KeepsOwned i captured_us speaker (drop_epoch s) (ground (arith, found.1))
allocate_in-KeepsOwned captured_us speaker s none none e f = λ j o. refl

allocate_slot-KeepsOwned :
    (captured_us : ℕ) (speaker : Bool) (s : Store)
    → KeepsOwned s (allocate_slot captured_us speaker s).1
unfolding allocate_slot
allocate_slot-KeepsOwned captured_us speaker s =
    allocate_in-KeepsOwned captured_us speaker s _ _ refl refl

loose_of_filling : (st : SlotState) → is_filling st ≡ true → is_owned st ≡ false
loose_of_filling st e = ground arith

copy_chunk-KeepsOwned :
    (i n pcm : ℕ) (usb : List ℕ) (gain_q8 : ℕ) (s : Store)
    → is_filling (slot_at s i).state ≡ true
    → KeepsOwned s (copy_chunk i n pcm usb gain_q8 s)
unfolding copy_chunk
copy_chunk-KeepsOwned i n pcm usb gain_q8 s e =
    update-KeepsOwned i _ s (loose_of_filling (slot_at s i).state e)

-- A commit writes to a slot that is being filled, or to none.
commit_chunk-KeepsOwned :
    (i generation : ℕ) (s : Store) → KeepsOwned s (commit_chunk i generation s).1
unfolding commit_chunk
commit_chunk-KeepsOwned i generation s j owned =
    elim (Bool-cases (is_filling (slot_at s i).state)) [
      | inl e ↦ ground (
        arith,
        update-KeepsOwned i
            (λ (y : Slot). record y {
              state = if y.speaker_enabled == 0 then complete else ready_encode;
            })
            s (loose_of_filling (slot_at s i).state e) j owned,
      )
      | inr n ↦ ground arith
    ]

module _ (generation captured_us : ℕ) (speaker : Bool) (gain_q8 : ℕ) where
  fill_round-KeepsOwned :
      (i left : ℕ) (usb : List ℕ) (s : Store)
      → KeepsOwned s (fill_round (λ t. t) generation captured_us speaker gain_q8 i left usb s).2
  unfolding fill_round
  fill_round-KeepsOwned i left usb s = elim (Bool-cases (is_filling (slot_at s i).state)) [
    | inl e ↦
        let pcm = (slot_at s i).pcm_frames in
        let n = chunk left pcm in
        rw e (
          KeepsOwned-trans s (copy_chunk i n pcm usb gain_q8 s)
            (commit_chunk i generation (copy_chunk i n pcm usb gain_q8 s)).1
            (copy_chunk-KeepsOwned i n pcm usb gain_q8 s e)
            (commit_chunk-KeepsOwned i generation (copy_chunk i n pcm usb gain_q8 s)))
    | inr f ↦ rw f (λ j o. refl)
  ]

  round_with-KeepsOwned :
      (r : Option ℕ × Store) (left : ℕ) (usb : List ℕ)
      → KeepsOwned r.1 (round_with (λ t. t) generation captured_us speaker gain_q8 r left usb).2
  unfolding round_with
  round_with-KeepsOwned (none, s) left usb = λ j o. refl
  round_with-KeepsOwned (some i, s) left usb = fill_round-KeepsOwned i left usb s

  take_slot-KeepsOwned :
      (o : Option ℕ) (s : Store) → KeepsOwned s (take_slot captured_us speaker o s).1
  unfolding take_slot
  take_slot-KeepsOwned none s = allocate_slot-KeepsOwned captured_us speaker s
  take_slot-KeepsOwned (some i) s = λ j o. refl

  round-KeepsOwned :
      (left : ℕ) (usb : List ℕ) (s : Store)
      → KeepsOwned s (round (λ t. t) generation captured_us speaker gain_q8 left usb s).2
  unfolding round
  round-KeepsOwned left usb s = elim (Bool-cases (generation == s.stats.generation)) [
    | inl e ↦
        let r = take_slot captured_us speaker s.filling_slot s in
        rw e (
          KeepsOwned-trans s r.1
            (round_with (λ t. t) generation captured_us speaker gain_q8 r left usb).2
            (take_slot-KeepsOwned s.filling_slot s) (round_with-KeepsOwned r left usb))
    | inr n ↦ rw n (λ j o. refl)
  ]

  -- The loop, for the store that it returns if it returns one.
  abbrev Kept : Store → Option Store → Type 0
  Kept s none = Unit
  Kept s (some t) = KeepsOwned s t

  Kept-trans : (s t : Store) (o : Option Store) → KeepsOwned s t → Kept t o → Kept s o
  Kept-trans s t none h k = tt
  Kept-trans s t (some u) h k = KeepsOwned-trans s t u h k

  ingest_loop-Kept :
      (fuel left : ℕ) (usb : List ℕ) (s : Store)
      → Kept s
          (ingest_loop (λ k u. u) (λ k u. u) generation captured_us speaker gain_q8 fuel left usb s)
  unfolding ingest_loop
  ingest_loop-Kept zero left usb s = tt
  ingest_loop-Kept (suc fuel) left usb s = elim (Bool-cases (left == 0)) [
    | inl done ↦ rw done (λ j o. refl)
    | inr more ↦
        let r = round (λ u. u) generation captured_us speaker gain_q8 left usb s in
        let rest = drop (usb_frame_bytes * r.1) usb in
        let kept = round-KeepsOwned left usb s in
        elim (Bool-cases r.0) [
          | inl on ↦
              rw (more, on)
                (Kept-trans s r.2
                  (ingest_loop (λ k u. u) (λ k u. u) generation captured_us speaker gain_q8 fuel
                    (left - r.1) rest r.2)
                  kept (ingest_loop-Kept fuel (left - r.1) rest r.2))
          | inr off ↦ rw (more, off) kept
        ]
  ]

  ingest_usb-Kept :
      (packet : Option (List ℕ)) (len : ℕ) (s : Store)
      → Kept s
          (ingest_usb (λ k u. u) (λ k u. u) generation captured_us speaker gain_q8 packet len s)
  unfolding ingest_usb
  ingest_usb-Kept none len s = λ j o. refl
  ingest_usb-Kept (some usb) len s = elim (Bool-cases (ltb len usb_frame_bytes)) [
    | inl short ↦ rw short (λ j o. refl)
    | inr long ↦
        let frames = len / usb_frame_bytes in
        rw long (ingest_loop-Kept (2 * frames + 2) frames usb s)
  ]

  -- A USB packet, which no other task interrupts, leaves every slot that the encoder or the reader
  -- holds as it was: state, samples, haptics and packet.
  pub ingest_usb-KeepsOwned :
      (packet : Option (List ℕ)) (len : ℕ) (s : Store) {t : Store}
      → ingest_usb (λ k u. u) (λ k u. u) generation captured_us speaker gain_q8 packet len s
        ≡ some t
      → (j : ℕ) → is_owned (slot_at s j).state ≡ true
      → slot_at t j ≡ slot_at s j
  ingest_usb-KeepsOwned packet len s {t} e = subst (Kept s) e (ingest_usb-Kept packet len s)

-- What a reset leaves of a slot.
pub slot_at-cancel_all :
    (xs : List Slot) (j : ℕ)
    → get_or (cancel_all xs) j zero_slot
      ≡ (record (get_or xs j zero_slot) { state = cancel (get_or xs j zero_slot).state })
unfolding cancel_all
slot_at-cancel_all [] j = refl
slot_at-cancel_all (x ∷ xs) zero = refl
slot_at-cancel_all (x ∷ xs) (suc j) = slot_at-cancel_all xs j

-- A reset frees exactly the slots that nobody holds, leaves the others to their owners as cancelled,
-- and keeps what is in them.
pub reset-slot_at :
    (generation : ℕ) (s : Store) (j : ℕ)
    → let x = slot_at s j in
      let y = slot_at (reset generation s) j in
      ((y.state ≡ free) ↔ (is_owned x.state ≡ false))
      × (is_owned y.state ≡ is_owned x.state)
      × (is_encoding y.state ≡ false)
      × (is_reading y.state ≡ false)
      × (y.speaker_pcm ≡ x.speaker_pcm)
      × (y.speaker_opus ≡ x.speaker_opus)
      × (y.haptics ≡ x.haptics)
unfolding reset
reset-slot_at generation s j = ground (arith, slot_at-cancel_all s.slots j)
