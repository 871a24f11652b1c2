-- ===== src/Gamepad/Ingress/Tracked.antt =====
-- Which slot of the ring a transfer writes to, and how many packets wait or are read.
use ds5dongle.Prelude.{
  not, ◌&&◌, ℕ, zero, suc, ◌+◌, ◌%◌, ◌≤◌, ◌<◌, Bool, true, false, ◌||◌, List, [], ◌∷◌, Option, some,
  length, set, from_bool, if◌then◌else◌, ◌==◌, ◌≡◌, ◌≢◌, refl, sym, ap, ◌∙◌, arith,
}
use ds5dongle.Gamepad.Ingress.{
  Slot, SlotState, state_at, is_free, is_dma, is_ready, is_reading, find_from, reset_state,
  reset_slots,
}

-- The slots from the index `at` on: a transfer writes to the active one, and to no other.
abbrev pub Tracked : ℕ → ℕ → List Slot → Type 0
Tracked active at [] = Unit
Tracked active at (s ∷ ss) = (is_dma s.state ≡ (active == at)) × Tracked active (at + 1) ss

abbrev pub is_busy : SlotState → Bool
is_busy state = is_ready state || is_reading state

-- The number of slots whose packet waits or is read.
abbrev pub busy : List Slot → ℕ
busy [] = 0
busy (s ∷ ss) = from_bool (is_busy s.state) + busy ss

pub Tracked-at :
    (active at j : ℕ) (slots : List Slot)
    → Tracked active at slots
    → j < length slots
    → is_dma (state_at slots j) ≡ (active == (at + j))
Tracked-at active at j [] t h = absurd (omega arith)
Tracked-at active at zero (s ∷ ss) t h = t.0 ∙ ap (λ (k : ℕ). active == k) (omega arith)
Tracked-at active at (suc j) (s ∷ ss) t h =
    Tracked-at active (at + 1) j ss t.1 (omega arith)
    ∙ ap (λ (k : ℕ). active == k) {x = at + 1 + j} {y = at + suc j} (omega arith)

pub Tracked-same :
    (active active' at : ℕ) (slots : List Slot)
    → Tracked active at slots
    → ((k : ℕ) → at ≤ k → k < at + length slots → (active' == k) ≡ (active == k))
    → Tracked active' at slots
Tracked-same active active' at [] t same = tt
Tracked-same active active' at (s ∷ ss) t same = (
  t.0 ∙ sym (same at (omega arith) (omega arith)),
  Tracked-same active active' (at + 1) ss t.1 (λ k a b. same k (omega arith) (omega arith)),
)

pub set-Tracked :
    (active active' at j : ℕ) (slots : List Slot) (x : Slot)
    → Tracked active at slots
    → (j < length slots → is_dma x.state ≡ (active' == (at + j)))
    → ((k : ℕ) → k ≢ at + j → at ≤ k → k < at + length slots → (active' == k) ≡ (active == k))
    → Tracked active' at (set slots j x)
set-Tracked active active' at j [] x t h same = tt
set-Tracked active active' at zero (s ∷ ss) x t h same = (
  h (omega arith) ∙ ap (λ (k : ℕ). active' == k) {x = at + 0} {y = at} (omega arith),
  Tracked-same active active' (at + 1) ss t.1
      (λ k a b. same k (λ e. omega arith) (omega arith) (omega arith)),
)
set-Tracked active active' at (suc j) (s ∷ ss) x t h same = (
  t.0 ∙ sym (same at (λ e. omega arith) (omega arith) (omega arith)),
  set-Tracked active active' (at + 1) j ss x t.1
      (λ b.
        h (omega arith)
        ∙ ap (λ (k : ℕ). active' == k) {x = at + suc j} {y = at + 1 + j} (omega arith))
      (λ k e a b. same k (λ f. e (omega arith)) (omega arith) (omega arith)),
)

pub busy-set :
    (j : ℕ) (slots : List Slot) (x : Slot)
    → j < length slots
    → busy (set slots j x) + from_bool (is_busy (state_at slots j))
      ≡ busy slots + from_bool (is_busy x.state)
busy-set j [] x h = absurd (omega arith)
busy-set zero (s ∷ ss) x h = omega arith
busy-set (suc j) (s ∷ ss) x h = omega (arith, busy-set j ss x (omega arith))

-- A search finds a slot of the ring in the state that it looks for.
pub find_from-wanted :
    (wanted : SlotState → Bool) (slots : List Slot) (at n i : ℕ)
    → find_from wanted slots at n ≡ some i
    → (wanted (state_at slots i) ≡ true) × (i < 8)
unfolding find_from
find_from-wanted wanted slots at zero i h = cc
find_from-wanted wanted slots at (suc n) i h =
    by_test (wanted (state_at slots (at % 8))) (find_from wanted slots (at + 1) n) h (λ e. e)
      (find_from-wanted wanted slots (at + 1) n i)
  where
    by_test :
        (b : Bool) (rest : Option ℕ)
        → (if b then some (at % 8) else rest) ≡ some i
        → (b ≡ true → wanted (state_at slots (at % 8)) ≡ true)
        → (rest ≡ some i → (wanted (state_at slots i) ≡ true) × (i < 8))
        → (wanted (state_at slots i) ≡ true) × (i < 8)
    by_test true rest h good later =
        let e : at % 8 ≡ i = cc in
        (ap (λ (k : ℕ). wanted (state_at slots k)) (sym e) ∙ good refl, omega (arith, e))
    by_test false rest h good later = later h

-- A reset keeps the slots that are read, and the one that a transfer writes to unless it is cancelled.
pub reset_slots-length :
    (cancel : Bool) (slots : List Slot) → length (reset_slots cancel slots).0 ≡ length slots
unfolding reset_slots
reset_slots-length cancel [] = refl
reset_slots-length cancel (s ∷ ss) = omega (arith, reset_slots-length cancel ss)

pub busy-reset_slots :
    (cancel : Bool) (slots : List Slot)
    → (reset_slots cancel slots).1 ≡ busy (reset_slots cancel slots).0
unfolding reset_slots reset_state is_reading is_ready
busy-reset_slots cancel [] = refl
busy-reset_slots cancel (s ∷ ss) = by_state s.state cancel (busy-reset_slots cancel ss)
  where
    by_state :
        (state : SlotState) (c : Bool)
        → (reset_slots cancel ss).1 ≡ busy (reset_slots cancel ss).0
        → (if is_reading state then (reset_slots cancel ss).1 + 1 else (reset_slots cancel ss).1)
          ≡ from_bool (is_busy (reset_state c state)) + busy (reset_slots cancel ss).0
    by_state SlotState.free c h = omega (arith, h)
    by_state SlotState.dma_active true h = omega (arith, h)
    by_state SlotState.dma_active false h = omega (arith, h)
    by_state SlotState.ready c h = omega (arith, h)
    by_state SlotState.reading c h = omega (arith, h)

pub reset_slots-Tracked :
    (active at : ℕ) (slots : List Slot)
    → Tracked active at slots
    → at + length slots ≤ 255
    → Tracked active at (reset_slots false slots).0 × Tracked 255 at (reset_slots true slots).0
unfolding reset_slots reset_state is_dma
reset_slots-Tracked active at [] t h = (tt, tt)
reset_slots-Tracked active at (s ∷ ss) t h =
    let rest = reset_slots-Tracked active (at + 1) ss t.1 (omega arith) in
    ((kept s.state ∙ t.0, rest.0), (cancelled s.state ∙ ground arith, rest.1))
  where
    kept : (state : SlotState) → is_dma (reset_state false state) ≡ is_dma state
    kept SlotState.free = refl
    kept SlotState.dma_active = refl
    kept SlotState.ready = refl
    kept SlotState.reading = refl

    cancelled : (state : SlotState) → is_dma (reset_state true state) ≡ false
    cancelled SlotState.free = refl
    cancelled SlotState.dma_active = refl
    cancelled SlotState.ready = refl
    cancelled SlotState.reading = refl

pub reset_slots-state :
    (cancel : Bool) (slots : List Slot) (i : ℕ)
    → let before = state_at slots i in
      let after = state_at (reset_slots cancel slots).0 i in
      (is_dma after ≡ (not cancel && is_dma before))
      × (is_ready after ≡ false)
      × (is_reading after ≡ is_reading before)
unfolding reset_slots reset_state is_dma is_ready is_reading
reset_slots-state true [] i = (refl, refl, refl)
reset_slots-state false [] i = (refl, refl, refl)
reset_slots-state cancel (s ∷ ss) zero = by_state cancel s.state
  where
    by_state :
        (c : Bool) (state : SlotState)
        → (is_dma (reset_state c state) ≡ (not c && is_dma state))
          × (is_ready (reset_state c state) ≡ false)
          × (is_reading (reset_state c state) ≡ is_reading state)
    by_state true SlotState.free = (refl, refl, refl)
    by_state true SlotState.dma_active = (refl, refl, refl)
    by_state true SlotState.ready = (refl, refl, refl)
    by_state true SlotState.reading = (refl, refl, refl)
    by_state false SlotState.free = (refl, refl, refl)
    by_state false SlotState.dma_active = (refl, refl, refl)
    by_state false SlotState.ready = (refl, refl, refl)
    by_state false SlotState.reading = (refl, refl, refl)
reset_slots-state cancel (s ∷ ss) (suc i) = reset_slots-state cancel ss i

-- What a state says of the others.
pub free-busy : (state : SlotState) → is_free state ≡ true → from_bool (is_busy state) ≡ 0
unfolding is_free is_dma is_ready is_reading
free-busy SlotState.free h = refl
free-busy SlotState.dma_active h = cc
free-busy SlotState.ready h = cc
free-busy SlotState.reading h = cc

pub dma-busy : (state : SlotState) → is_dma state ≡ true → from_bool (is_busy state) ≡ 0
unfolding is_free is_dma is_ready is_reading
dma-busy SlotState.free h = cc
dma-busy SlotState.dma_active h = refl
dma-busy SlotState.ready h = cc
dma-busy SlotState.reading h = cc

pub ready-busy : (state : SlotState) → is_ready state ≡ true → from_bool (is_busy state) ≡ 1
unfolding is_free is_dma is_ready is_reading
ready-busy SlotState.free h = cc
ready-busy SlotState.dma_active h = cc
ready-busy SlotState.ready h = refl
ready-busy SlotState.reading h = cc

pub reading-busy : (state : SlotState) → is_reading state ≡ true → from_bool (is_busy state) ≡ 1
unfolding is_free is_dma is_ready is_reading
reading-busy SlotState.free h = cc
reading-busy SlotState.dma_active h = cc
reading-busy SlotState.ready h = cc
reading-busy SlotState.reading h = refl

pub ready-dma : (state : SlotState) → is_ready state ≡ true → is_dma state ≡ false
unfolding is_free is_dma is_ready is_reading
ready-dma SlotState.free h = cc
ready-dma SlotState.dma_active h = cc
ready-dma SlotState.ready h = refl
ready-dma SlotState.reading h = cc

pub reading-dma : (state : SlotState) → is_reading state ≡ true → is_dma state ≡ false
unfolding is_free is_dma is_ready is_reading
reading-dma SlotState.free h = cc
reading-dma SlotState.dma_active h = cc
reading-dma SlotState.ready h = cc
reading-dma SlotState.reading h = refl
