-- ===== src/Gamepad/Ingress/Steps.antt =====
-- What makes the ring of audio packets valid, step by step.
use ds5dongle.Prelude.{
  ℕ, suc, ◌+◌, ◌-◌, ◌%◌, ◌≤◌, ◌<◌, Bool, true, false, ◌||◌, ◌&&◌, not, List, [], ◌∷◌, Option, none,
  some, length, get_or, set, from_bool, if◌then◌else◌, ◌==◌, ltb, leb, inc32, u8, u16, min, ◌≡◌,
  ◌≢◌, refl, sym, ap, ◌∙◌, arith, length-set, set-outside,
}
use ds5dongle.Gamepad.Ingress.{
  Ingress, View, view_of, Slot, SlotState, empty_slot, state_at, set_state, is_free, is_dma,
  is_ready, is_reading, find_from, find_free_slot, reset_slots, arm_begin, arm_failed,
  packet_received, take_audio_ingress, release_audio_ingress, reset_audio_pipeline,
}
use ds5dongle.Gamepad.Ingress.Tracked.{
  Tracked, Tracked-at, Tracked-same, set-Tracked, busy, is_busy, busy-set, find_from-wanted,
  reset_slots-length, busy-reset_slots, reset_slots-Tracked, free-busy, dma-busy, ready-busy,
  reading-busy, ready-dma, reading-dma,
}

pub record IsValid (s : Ingress) : Type 0 where
  pub size : length s.slots ≡ 8
  pub tracked : Tracked s.active_slot 0 s.slots
  pub counted : s.count ≡ busy s.slots

pub held_by_transfer :
    (s : Ingress) (i : ℕ) → IsValid s → i < 8 → is_dma (state_at s.slots i) ≡ (s.active_slot == i)
held_by_transfer s i v low =
    Tracked-at s.active_slot 0 i s.slots v.tracked (omega (arith, v.size))
    ∙ ap (λ (k : ℕ). s.active_slot == k) {x = 0 + i} {y = i} (omega arith)

-- A slot that changes its state, and perhaps whether a transfer writes to it.
slot-IsValid :
    (s t : Ingress) (i : ℕ) (x : Slot)
    → IsValid s
    → i < 8
    → t.slots ≡ set s.slots i x
    → is_dma x.state ≡ (t.active_slot == i)
    → ((k : ℕ) → k ≢ i → k < 8 → (t.active_slot == k) ≡ (s.active_slot == k))
    → t.count + from_bool (is_busy (state_at s.slots i)) ≡ s.count + from_bool (is_busy x.state)
    → IsValid t
slot-IsValid s t i x v low es ed same ec = record {
  size = ap (λ (ss : List Slot). length ss) es ∙ length-set s.slots i x ∙ v.size;
  tracked = rw es (
      set-Tracked s.active_slot t.active_slot 0 i s.slots x v.tracked
        (λ b. ed ∙ ap (λ (k : ℕ). t.active_slot == k) {x = i} {y = 0 + i} (omega arith))
        (λ k ne a b. same k (λ e. ne (omega arith)) (omega (arith, v.size))));
  counted = omega (
    arith,
    ap (λ (ss : List Slot). busy ss) es,
    busy-set i s.slots x (omega (arith, v.size)),
    v.counted,
    ec,
  );
}

pub arm-IsValid :
    (may speaker : Bool) (s : Ingress) → IsValid s → IsValid (arm_begin may speaker s).1
unfolding arm_begin find_free_slot is_dma is_ready is_reading
arm-IsValid may speaker s v =
    by_tests (not may || s.armed) (not (s.active_slot == 255))
      (find_from is_free s.slots s.producer_cursor 8) (λ e. ground (arith, e))
      (find_from-wanted is_free s.slots s.producer_cursor 8)
  where
    taken : ℕ → Ingress
    taken i = record s {
      slots = set s.slots i (record (get_or s.slots i empty_slot) {
        generation = s.audio_generation;
        speaker_enabled = speaker;
        state = SlotState.dma_active;
      });
      active_slot = i;
      armed = true;
    }

    answer : Bool → Bool → Option ℕ → Option ℕ × Ingress
    answer a b o = if a then (none, s) else if b then (none, s) else elim o [
      | none ↦ (none, record s { dropped = inc32 s.dropped })
      | some i ↦ (some i, taken i)
    ]

    taken-IsValid :
        (i : ℕ)
        → s.active_slot ≡ 255
        → is_free (state_at s.slots i) ≡ true
        → i < 8
        → IsValid (taken i)
    taken-IsValid i idle unused low =
        slot-IsValid s (taken i) i _ v low refl (ground arith) (λ k ne b. ground (arith, idle, ne))
          (omega (arith, free-busy (state_at s.slots i) unused))

    by_tests :
        (a b : Bool) (o : Option ℕ)
        → (b ≡ false → s.active_slot ≡ 255)
        → ((i : ℕ) → o ≡ some i → (is_free (state_at s.slots i) ≡ true) × (i < 8))
        → IsValid (answer a b o).1
    by_tests true b o idle found = v
    by_tests false true o idle found = v
    by_tests false false none idle found = record {
      size = v.size;
      tracked = v.tracked;
      counted = v.counted;
    }
    by_tests false false (some i) idle found =
        taken-IsValid i (idle refl) ((found i refl).0) ((found i refl).1)

pub arm_failed-IsValid : (i : ℕ) (s : Ingress) → IsValid s → IsValid (arm_failed i s)
unfolding arm_failed is_dma is_ready is_reading
arm_failed-IsValid i s v =
    by_test (s.active_slot == i) (λ e. ground (arith, e)) (ltb i 8) (λ e. ground (arith, e))
      (λ e. ground (arith, e))
  where
    after : Bool → Ingress
    after own = record s {
      active_slot = if own then 255 else s.active_slot;
      slots = if own then set_state s.slots i SlotState.free else s.slots;
      armed = false;
      dropped = inc32 s.dropped;
    }

    by_test :
        (own : Bool)
        → (own ≡ true → s.active_slot ≡ i)
        → (inside : Bool) → (inside ≡ true → i < 8)
        → (inside ≡ false → 8 ≤ i)
        → IsValid (after own)
    by_test true e true low high =
        let held = held_by_transfer s i v (low refl) in
        slot-IsValid s (after true) i _ v (low refl) refl (ground (arith, low refl))
          (λ k ne b. ground (arith, e refl, ne))
          (omega (arith, dma-busy (state_at s.slots i) (held ∙ ground (arith, e refl))))
    by_test true e false low high = record {
      size = length-set s.slots i _ ∙ v.size;
      tracked =
          set-Tracked s.active_slot 255 0 i s.slots _ v.tracked
            (λ b. absurd (omega (arith, v.size, high refl)))
            (λ k ne a b. ground (arith, e refl, high refl, v.size));
      counted =
          v.counted
          ∙ ap (λ (ss : List Slot). busy ss)
              (sym (set-outside s.slots i _ (omega (arith, v.size, high refl))));
    }
    by_test false e inside low high = record {
      size = v.size;
      tracked = v.tracked;
      counted = v.counted;
    }

busy-le : (slots : List Slot) → busy slots ≤ length slots
busy-le [] = omega arith
busy-le (s ∷ ss) = by_bool (is_busy s.state) (busy-le ss)
  where
    by_bool : (b : Bool) → busy ss ≤ length ss → from_bool b + busy ss ≤ suc (length ss)
    by_bool true h = omega (arith, h)
    by_bool false h = omega (arith, h)

pub received-IsValid : (us n : ℕ) (s : Ingress) → IsValid s → IsValid (packet_received us n s).1
unfolding packet_received is_dma is_ready is_reading
received-IsValid us n s v =
    by_tests (ltb s.active_slot 8) (is_dma (state_at s.slots s.active_slot)) (ltb 0 (min n 392))
      (λ e. ground (arith, e)) (λ e. ground (arith, e)) (λ e. e) (λ e. e)
  where
    idle : Ingress
    idle = record s { active_slot = 255; armed = false }

    filled : Ingress
    filled = record idle {
      slots = set s.slots s.active_slot (record (get_or s.slots s.active_slot empty_slot) {
        captured_us = us;
        sequence = s.next_sequence;
        len = u16 (min n 392);
        state = SlotState.ready;
      });
      next_sequence = inc32 s.next_sequence;
      producer_cursor = u8 ((s.active_slot + 1) % 8);
      count = u8 (s.count + 1);
      high_water = if ltb s.high_water (u8 (s.count + 1)) then u8 (s.count + 1) else s.high_water;
    }

    emptied : Ingress
    emptied = record idle { slots = set_state s.slots s.active_slot SlotState.free }

    by_tests :
        (inside dma more : Bool)
        → (inside ≡ true → s.active_slot < 8)
        → (inside ≡ false → 8 ≤ s.active_slot)
        → (dma ≡ true → is_dma (state_at s.slots s.active_slot) ≡ true)
        → (dma ≡ false → is_dma (state_at s.slots s.active_slot) ≡ false)
        → (let answer : Bool × Ingress =
              if inside && dma
              then (if more then (true, filled) else (false, emptied))
              else (false, idle) in
            IsValid answer.1)
    by_tests true true true low high active unused =
        slot-IsValid s filled s.active_slot _ v (low refl) refl (ground (arith, low refl))
          (λ k ne b. ground (arith, ne, b))
          (omega (
            arith,
            dma-busy (state_at s.slots s.active_slot) (active refl),
            busy-le s.slots,
            v.size,
            v.counted,
          ))
    by_tests true true false low high active unused =
        slot-IsValid s emptied s.active_slot _ v (low refl) refl (ground (arith, low refl))
          (λ k ne b. ground (arith, ne, b))
          (omega (arith, dma-busy (state_at s.slots s.active_slot) (active refl)))
    by_tests true false more low high active unused =
        let held = held_by_transfer s s.active_slot v (low refl) in
        absurd (ground (arith, held, unused refl))
    by_tests false dma more low high active unused = record {
      size = v.size;
      tracked =
          Tracked-same s.active_slot 255 0 s.slots v.tracked
            (λ k a b. ground (arith, high refl, v.size));
      counted = v.counted;
    }

pub take-IsValid : (s : Ingress) → IsValid s → IsValid (take_audio_ingress s).1
unfolding take_audio_ingress is_dma is_ready is_reading
take-IsValid s v =
    by_found (find_from is_ready s.slots s.consumer_cursor 8)
      (find_from-wanted is_ready s.slots s.consumer_cursor 8)
  where
    after : Option ℕ → Option View × Ingress
    after none = (none, s)
    after (some i) = (
      some (view_of (get_or s.slots i empty_slot) i),
      record s { slots = set_state s.slots i SlotState.reading },
    )

    by_found :
        (o : Option ℕ)
        → ((i : ℕ) → o ≡ some i → (is_ready (state_at s.slots i) ≡ true) × (i < 8))
        → IsValid (after o).1
    by_found none found = v
    by_found (some i) found =
        let here = found i refl in
        let held = held_by_transfer s i v here.1 in
        slot-IsValid s (after (some i)).1 i _ v here.1 refl
          (sym (ready-dma (state_at s.slots i) here.0) ∙ held) (λ k ne b. refl)
          (omega (arith, ready-busy (state_at s.slots i) here.0))

pub release-IsValid : (i : ℕ) (s : Ingress) → IsValid s → IsValid (release_audio_ingress i s)
unfolding release_audio_ingress is_dma is_ready is_reading
release-IsValid i s v =
    by_tests (leb 8 i) (is_reading (state_at s.slots i)) (λ e. ground (arith, e)) (λ e. e)
  where
    released : Ingress
    released = record s {
      slots = set_state s.slots i SlotState.free;
      consumer_cursor = u8 ((i + 1) % 8);
      count = s.count - 1;
    }

    by_tests :
        (outside held : Bool)
        → (outside ≡ false → i < 8)
        → (held ≡ true → is_reading (state_at s.slots i) ≡ true)
        → IsValid (if outside then s else if held then released else s)
    by_tests true held low state = v
    by_tests false false low state = v
    by_tests false true low state =
        let tracked = held_by_transfer s i v (low refl) in
        slot-IsValid s released i _ v (low refl) refl
          (sym (reading-dma (state_at s.slots i) (state refl)) ∙ tracked) (λ k ne b. refl)
          (omega (
            arith,
            reading-busy (state_at s.slots i) (state refl),
            busy-set i s.slots (record (get_or s.slots i empty_slot) { state = SlotState.free })
                (omega (arith, v.size, low refl)),
            v.counted,
          ))

pub reset-IsValid :
    (cancel : Bool) (s : Ingress) → IsValid s → IsValid (reset_audio_pipeline cancel s)
unfolding reset_audio_pipeline
reset-IsValid cancel s v = by_cancel cancel
  where
    both :
        Tracked s.active_slot 0 (reset_slots false s.slots).0
        × Tracked 255 0 (reset_slots true s.slots).0
    both = reset_slots-Tracked s.active_slot 0 s.slots v.tracked (omega (arith, v.size))

    tracked_after :
        (c : Bool) → Tracked (if c then 255 else s.active_slot) 0 (reset_slots c s.slots).0
    tracked_after true = both.1
    tracked_after false = both.0

    by_cancel : (c : Bool) → IsValid (reset_audio_pipeline c s)
    by_cancel c = record {
      size = reset_slots-length c s.slots ∙ v.size;
      tracked = tracked_after c;
      counted = omega (
        arith,
        busy-reset_slots c s.slots,
        busy-le (reset_slots c s.slots).0,
        reset_slots-length c s.slots,
        v.size,
      );
    }
