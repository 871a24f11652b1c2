-- ===== src/Gamepad/Mic/Kept.antt =====
-- What each operation on the ring of microphone packets keeps of its invariant.
use ds5dongle.Prelude.{
  length, ℕ, ◌+◌, ◌-◌, ◌%◌, ◌<◌, Bool, true, false, ◌||◌, ◌&&◌, not, List, Option, none, some,
  get_or, set, from_bool, if◌then◌else◌, ◌==◌, ltb, inc32, u8, ◌≡◌, refl, sym, ap, ◌∙◌, arith,
  Bool-cases, inl, inr,
}
use ds5dongle.Gamepad.Mic.{
  Mic, PacketState, state_of, is_unused, is_filling, is_ready, is_dma, flush, push_begin, push_next,
  push_packet, filled, prepare_audio_in, start_failed, packet_sent, suspend,
}
use ds5dongle.Gamepad.Mic.Steps.{
  IsValid, is_held, packets, packets-le, packets-set, slot-IsValid, state_of-outside,
  replicate-state,
}

-- What a state says of the others.
unused-facts :
    (p : PacketState) → is_unused p ≡ true → (is_dma p ≡ false) × (from_bool (is_held p) ≡ 0)
unfolding is_unused is_filling is_ready is_dma is_held
unused-facts PacketState.unused h = (refl, refl)
unused-facts PacketState.filling h = cc
unused-facts PacketState.ready h = cc
unused-facts PacketState.dma_active h = cc

pub filling-facts :
    (p : PacketState) → is_filling p ≡ true → (is_dma p ≡ false) × (from_bool (is_held p) ≡ 0)
unfolding is_unused is_filling is_ready is_dma is_held
filling-facts PacketState.unused h = cc
filling-facts PacketState.filling h = (refl, refl)
filling-facts PacketState.ready h = cc
filling-facts PacketState.dma_active h = cc

ready-facts :
    (p : PacketState) → is_ready p ≡ true → (is_dma p ≡ false) × (from_bool (is_held p) ≡ 1)
unfolding is_unused is_filling is_ready is_dma is_held
ready-facts PacketState.unused h = cc
ready-facts PacketState.filling h = cc
ready-facts PacketState.ready h = (refl, refl)
ready-facts PacketState.dma_active h = cc

dma-facts : (p : PacketState) → is_dma p ≡ true → (is_dma p ≡ true) × (from_bool (is_held p) ≡ 1)
unfolding is_unused is_filling is_ready is_dma is_held
dma-facts PacketState.unused h = cc
dma-facts PacketState.filling h = cc
dma-facts PacketState.ready h = cc
dma-facts PacketState.dma_active h = (refl, refl)

-- A slot in a state that is not the unused one is in range.
in_range :
    (s : Mic) (i : ℕ) (test : PacketState → Bool)
    → IsValid s
    → test PacketState.unused ≡ false
    → test (state_of s i) ≡ true
    → i < 32
in_range s i test v out h = elim (Bool-cases (ltb i 32)) [
  | inl e ↦ ground (arith, e)
  | inr e ↦
      let gone : test PacketState.unused ≡ true =
        ap test (sym (state_of-outside s i v (ground (arith, e)))) ∙ h in
      absurd (ground (arith, gone, out))
]

pub begun-IsValid : (s : Mic) → IsValid s → IsValid (push_begin s).1
unfolding push_begin is_dma is_held
begun-IsValid s v =
    by_test (is_unused (state_of s s.producer_cursor)) (unused-facts (state_of s s.producer_cursor))
  where
    begun : Mic
    begun = record s { states = set s.states s.producer_cursor PacketState.filling }

    by_test :
        (free : Bool)
        → (free ≡ true
            → (is_dma (state_of s s.producer_cursor) ≡ false)
              × (from_bool (is_held (state_of s s.producer_cursor)) ≡ 0))
        → (let answer : Option ℕ × Mic =
              if free
              then (some s.producer_cursor, begun)
              else (none, record s { dropped = inc32 s.dropped }) in
            IsValid answer.1)
    by_test true facts =
        slot-IsValid s begun s.producer_cursor PacketState.filling v v.producer refl
          (λ a. sym ((facts refl).0) ∙ v.active s.producer_cursor v.producer a) (λ e. cc)
          (λ k ne low a. a) (λ k ne low d. v.cursor k low d) (omega (arith, (facts refl).1))
          v.producer
    by_test false facts = record {
      size = v.size;
      active = v.active;
      cursor = v.cursor;
      counted = v.counted;
      producer = v.producer;
    }

filled-IsValid :
    (samples : Bool) (i : ℕ) (s : Mic)
    → IsValid s
    → is_filling (state_of s i) ≡ true
    → IsValid (filled samples i s)
unfolding is_dma is_held is_filling
filled-IsValid samples i s v h =
    let low = in_range s i is_filling v refl h in
    let facts = filling-facts (state_of s i) h in
    slot-IsValid s (filled samples i s) i PacketState.ready v low refl
      (λ a. sym facts.0 ∙ v.active i low a) (λ e. cc) (λ k ne below a. a)
      (λ k ne below d. v.cursor k below d) (omega (arith, facts.1, room i low facts.1, v.counted))
      (omega arith)
  where
    room : (j : ℕ) → j < 32 → from_bool (is_held (state_of s j)) ≡ 0 → s.count < 255
    room j low none_held = omega (arith, packets-le s.states, v.size, v.counted)

pub packet-IsValid :
    (samples more : Bool) (i : ℕ) (s : Mic) → IsValid s → IsValid (push_packet samples more i s).1
unfolding push_packet push_next push_begin
packet-IsValid samples more i s v =
    by_tests (is_filling (state_of s i)) more (λ h. filled-IsValid samples i s v h)
  where
    by_tests :
        (mine again : Bool)
        → (mine ≡ true → IsValid (filled samples i s))
        → (let answer : Option ℕ × Mic =
              if mine
              then (if again then push_begin (filled samples i s) else (none, filled samples i s))
              else (none, s) in
            IsValid answer.1)
    by_tests true true valid = begun-IsValid (filled samples i s) (valid refl)
    by_tests true false valid = valid refl
    by_tests false again valid = v

-- No slot is active any more, and the others keep their states.
idle-IsValid :
    (s t : Mic)
    → IsValid s
    → t.states ≡ s.states
    → t.active_slot ≡ 255
    → t.consumer_cursor ≡ s.consumer_cursor
    → t.count ≡ s.count
    → t.producer_cursor ≡ s.producer_cursor
    → IsValid t
idle-IsValid s t v es ea ec en ep = record {
  size = ap (λ (ps : List PacketState). length ps) es ∙ v.size;
  active = λ k low a. absurd (omega (arith, a, ea, low));
  cursor = λ k low d. ec ∙ v.cursor k low (sym (same k) ∙ d);
  counted = en ∙ v.counted ∙ sym (ap (λ (ps : List PacketState). packets ps) es);
  producer = omega (arith, ep, v.producer);
}
  where
    same : (k : ℕ) → is_dma (state_of t k) ≡ is_dma (state_of s k)
    same k = ap (λ (ps : List PacketState). is_dma (get_or ps k PacketState.unused)) es

pub prepared-IsValid :
    (may_send wanted : Bool) (s : Mic) → IsValid s → IsValid (prepare_audio_in may_send wanted s).1
unfolding prepare_audio_in is_dma is_ready is_held
prepared-IsValid may_send wanted s v =
    by_tests (not may_send || s.in_busy) (is_ready (state_of s s.consumer_cursor)) (λ e. e)
  where
    chosen : Mic
    chosen = record s {
      states = set s.states s.consumer_cursor PacketState.dma_active;
      active_slot = s.consumer_cursor;
      in_busy = true;
    }

    silent : Mic
    silent = record s {
      active_slot = 255;
      underflow = if wanted then inc32 s.underflow else s.underflow;
      in_busy = true;
    }

    by_tests :
        (refused waiting : Bool)
        → (waiting ≡ true → is_ready (state_of s s.consumer_cursor) ≡ true)
        → (let answer : Option (Option ℕ × Bool) × Mic =
              if refused
              then (none, s)
              else if waiting
              then (some (some s.consumer_cursor, get_or s.nonzero s.consumer_cursor false), chosen)
              else (some (none, false), silent) in
            IsValid answer.1)
    by_tests true waiting ready = v
    by_tests false true ready =
        let low = in_range s s.consumer_cursor is_ready v refl (ready refl) in
        let facts = ready-facts (state_of s s.consumer_cursor) (ready refl) in
        slot-IsValid s chosen s.consumer_cursor PacketState.dma_active v low refl (λ a. refl)
          (λ e. refl) (λ k ne below a. absurd (ne (sym a))) (λ k ne below d. v.cursor k below d)
          (omega (arith, facts.1)) v.producer
    by_tests false false ready = idle-IsValid s silent v refl refl refl refl refl

-- Where a transfer did not start, or one was sent.
pub failed-IsValid : (i : ℕ) (s : Mic) → IsValid s → IsValid (start_failed i s)
unfolding start_failed is_dma is_held
failed-IsValid i s v = by_test (not (i == 255) && is_dma (state_of s i)) (λ e. ground (arith, e))
  where
    by_test :
        (held : Bool)
        → (held ≡ true → is_dma (state_of s i) ≡ true)
        → IsValid (record s {
          states = if held then set s.states i PacketState.ready else s.states;
          active_slot = 255;
          in_busy = false;
        })
    by_test true sending =
        let low = in_range s i is_dma v refl (sending refl) in
        let facts = dma-facts (state_of s i) (sending refl) in
        slot-IsValid s _ i PacketState.ready v low refl (λ a. absurd (omega (arith, a, low)))
          (λ e. cc) (λ k ne below a. absurd (omega (arith, a, below)))
          (λ k ne below d. v.cursor k below d) (omega (arith, facts.1)) v.producer
    by_test false sending = idle-IsValid s _ v refl refl refl refl refl

pub sent-IsValid : (s : Mic) → IsValid s → IsValid (packet_sent s)
unfolding packet_sent is_dma is_held
sent-IsValid s v =
    by_tests (ltb s.active_slot 32) (is_dma (state_of s s.active_slot)) (λ e. ground (arith, e))
      (λ e. e)
  where
    idle : Mic
    idle = record s { active_slot = 255; in_busy = false }

    gone : Mic
    gone = record idle {
      states = set s.states s.active_slot PacketState.unused;
      nonzero = set s.nonzero s.active_slot false;
      consumer_cursor = u8 ((s.active_slot + 1) % 32);
      count = s.count - 1;
    }

    by_tests :
        (inside sending : Bool)
        → (inside ≡ true → s.active_slot < 32)
        → (sending ≡ true → is_dma (state_of s s.active_slot) ≡ true)
        → IsValid (if inside && sending then gone else idle)
    by_tests true true low active =
        let facts = dma-facts (state_of s s.active_slot) (active refl) in
        let here = v.cursor s.active_slot (low refl) (active refl) in
        slot-IsValid s gone s.active_slot PacketState.unused v (low refl) refl
          (λ a. absurd (omega (arith, a, low refl))) (λ e. cc)
          (λ k ne below a. absurd (omega (arith, a, below)))
          (λ k ne below d. absurd (ne (sym (v.cursor k below d) ∙ here)))
          (omega (
            arith,
            facts.1,
            v.counted,
            packets-set s.states s.active_slot PacketState.unused (omega (arith, v.size, low refl)),
          ))
          v.producer
    by_tests true false low active = idle-IsValid s idle v refl refl refl refl refl
    by_tests false sending low active = idle-IsValid s idle v refl refl refl refl refl

pub suspended-IsValid : (s : Mic) → IsValid s → IsValid (suspend s)
unfolding suspend
suspended-IsValid s v = record {
  size = v.size;
  active = v.active;
  cursor = v.cursor;
  counted = v.counted;
  producer = v.producer;
}

pub flush-IsValid : (s : Mic) → IsValid (flush s)
unfolding flush is_dma is_held
flush-IsValid s = record {
  size = refl;
  active = λ i low a. absurd (omega (arith, a, low));
  cursor = λ i low d. absurd (ground (arith, d, ap is_dma (replicate-state 32 i)));
  counted = refl;
  producer = omega arith;
}
