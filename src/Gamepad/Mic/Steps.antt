-- ===== src/Gamepad/Mic/Steps.antt =====
-- What makes the ring of microphone packets of m61_usb_gamepad.c valid, and what a slot that changes
-- keeps of it.
use ds5dongle.Prelude.{
  sym, ℕ, zero, suc, ◌+◌, ◌≤◌, ◌<◌, Bool, true, false, List, [], ◌∷◌, length, get_or, set,
  replicate, from_bool, ◌==◌, ◌≡◌, ◌≢◌, refl, ap, ◌∙◌, arith, length-set, get_or-set_self,
  get_or-set_ne, Bool-cases, inl, inr,
}
use ds5dongle.Gamepad.Mic.{Mic, PacketState, state_of, is_dma}

-- Whether a slot has a packet that is to be sent, or sent just now, and the number of such slots.
unfoldable pub is_held : PacketState → Bool
is_held PacketState.unused = false
is_held PacketState.filling = false
is_held PacketState.ready = true
is_held PacketState.dma_active = true

abbrev pub packets : List PacketState → ℕ
packets [] = 0
packets (p ∷ ps) = from_bool (is_held p) + packets ps

pub packets-set :
    (ps : List PacketState) (i : ℕ) (x : PacketState)
    → i < length ps
    → packets (set ps i x) + from_bool (is_held (get_or ps i PacketState.unused))
      ≡ packets ps + from_bool (is_held x)
packets-set [] i x h = absurd (omega arith)
packets-set (p ∷ ps) zero x h = omega arith
packets-set (p ∷ ps) (suc i) x h = omega (arith, packets-set ps i x (omega arith))

pub packets-le : (ps : List PacketState) → packets ps ≤ length ps
packets-le [] = omega arith
packets-le (p ∷ ps) = by_bool (is_held p) (packets-le ps)
  where
    by_bool : (b : Bool) → packets ps ≤ length ps → from_bool b + packets ps ≤ suc (length ps)
    by_bool true h = omega (arith, h)
    by_bool false h = omega (arith, h)

pub replicate-state :
    (n i : ℕ) → get_or (replicate n PacketState.unused) i PacketState.unused ≡ PacketState.unused
replicate-state zero i = refl
replicate-state (suc n) zero = refl
replicate-state (suc n) (suc i) = replicate-state n i

pub record IsValid (s : Mic) : Type 0 where
  pub size : length s.states ≡ 32
  pub active : (i : ℕ) → i < 32 → s.active_slot ≡ i → is_dma (state_of s i) ≡ true
  pub cursor : (i : ℕ) → i < 32 → is_dma (state_of s i) ≡ true → s.consumer_cursor ≡ i
  pub counted : s.count ≡ packets s.states
  pub producer : s.producer_cursor < 32

-- A slot whose state changes, and with it perhaps the one that is sent.
pub slot-IsValid :
    (s t : Mic) (i : ℕ) (x : PacketState)
    → IsValid s
    → i < 32
    → t.states ≡ set s.states i x
    → (t.active_slot ≡ i → is_dma x ≡ true)
    → (is_dma x ≡ true → t.consumer_cursor ≡ i)
    → ((k : ℕ) → k ≢ i → k < 32 → t.active_slot ≡ k → s.active_slot ≡ k)
    → ((k : ℕ) → k ≢ i → k < 32 → is_dma (state_of s k) ≡ true → t.consumer_cursor ≡ k)
    → t.count + from_bool (is_held (state_of s i)) ≡ s.count + from_bool (is_held x)
    → t.producer_cursor < 32
    → IsValid t
slot-IsValid s t i x v low es ea ed other_active other_cursor ec producer = record {
  size = ap (λ (ps : List PacketState). length ps) es ∙ length-set s.states i x ∙ v.size;
  active = λ k below a. elim (Bool-cases (k == i)) [
    | inl e ↦ let here : k ≡ i = ground (arith, e) in mark_self k here ∙ ea (a ∙ here)
    | inr e ↦
        let away : k ≢ i = ground (arith, e) in
        mark_other k away ∙ v.active k below (other_active k away below a)
  ];
  cursor = λ k below d. elim (Bool-cases (k == i)) [
    | inl e ↦ let here : k ≡ i = ground (arith, e) in ed (sym (mark_self k here) ∙ d) ∙ sym here
    | inr e ↦
        let away : k ≢ i = ground (arith, e) in
        other_cursor k away below (sym (mark_other k away) ∙ d)
  ];
  counted = omega (
    arith,
    ap (λ (ps : List PacketState). packets ps) es,
    packets-set s.states i x (omega (arith, v.size)),
    v.counted,
    ec,
  );
  producer = producer;
}
  where
    mark_self : (k : ℕ) → k ≡ i → is_dma (state_of t k) ≡ is_dma x
    mark_self k here =
        rw (es, here)
          (ap is_dma (get_or-set_self s.states i x PacketState.unused (omega (arith, v.size))))

    mark_other : (k : ℕ) → k ≢ i → is_dma (state_of t k) ≡ is_dma (state_of s k)
    mark_other k away = rw es (ap is_dma (get_or-set_ne s.states i k x PacketState.unused away))

-- A slot out of range is unused.
pub state_of-outside : (s : Mic) (i : ℕ) → IsValid s → 32 ≤ i → state_of s i ≡ PacketState.unused
state_of-outside s i v h = outside s.states i (omega (arith, v.size))
  where
    outside :
        (ps : List PacketState) (j : ℕ)
        → length ps ≤ j
        → get_or ps j PacketState.unused ≡ PacketState.unused
    outside [] j h = refl
    outside (p ∷ ps) zero h = absurd (omega arith)
    outside (p ∷ ps) (suc j) h = outside ps j (omega arith)
