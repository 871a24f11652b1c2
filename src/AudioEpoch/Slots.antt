-- ===== src/AudioEpoch/Slots.antt =====
-- The searches of m61_audio_epoch.c over the array of slots: what they find, and what a write to one
-- slot leaves alone.
use ds5dongle.Prelude.{
  ℕ, zero, suc, ◌+◌, ◌≤◌, ◌<◌, ◌≡◌, ◌≢◌, Bool, true, false, List, [], ◌∷◌, Option, none, some,
  arith, refl, ap, length, get_or, uint32_max, ltb, Bool-cases, inl, inr, ◌⊎◌, ◌&&◌, Option-cases,
  ◌∙◌, subst,
}
use ds5dongle.AudioEpoch.{
  Slot, update, first_where, oldest_from, oldest_where, zero_slot, Store, find_slot, slot_at,
}

pub length-update : (i : ℕ) (f : Slot → Slot) (xs : List Slot) → length (update i f xs) ≡ length xs
length-update i f [] = refl
length-update zero f (x ∷ xs) = refl
length-update (suc i) f (x ∷ xs) = ap suc (length-update i f xs)

pub get_or-update_self :
    (i : ℕ) (f : Slot → Slot) (xs : List Slot) (d : Slot)
    → i < length xs
    → get_or (update i f xs) i d ≡ f (get_or xs i d)
get_or-update_self i f [] d h = elim h [ ]
get_or-update_self zero f (x ∷ xs) d h = refl
get_or-update_self (suc i) f (x ∷ xs) d h = get_or-update_self i f xs d (omega arith)

pub get_or-update_ne :
    (i j : ℕ) (f : Slot → Slot) (xs : List Slot) (d : Slot)
    → i ≢ j
    → get_or (update i f xs) j d ≡ get_or xs j d
get_or-update_ne i j f [] d h = refl
get_or-update_ne zero zero f (x ∷ xs) d h = absurd (h refl)
get_or-update_ne zero (suc j) f (x ∷ xs) d h = refl
get_or-update_ne (suc i) zero f (x ∷ xs) d h = refl
get_or-update_ne (suc i) (suc j) f (x ∷ xs) d h = get_or-update_ne i j f xs d (λ e. h (ap suc e))

-- A slot that passes a test is found: the index is in the array and the slot passes.
pub first_where-some :
    (p : Slot → Bool) (xs : List Slot) (d : Slot) {i : ℕ}
    → first_where p xs ≡ some i
    → (i < length xs) × (p (get_or xs i d) ≡ true)
unfolding first_where
first_where-some p [] d e = cc
first_where-some p (x ∷ xs) d e = elim (Bool-cases (p x)) [
  | inl t ↦ ground arith
  | inr f ↦ elim (Option-cases (first_where p xs)) [
    | inl n ↦ ground arith
    | inr (j, m) ↦ ground (arith, first_where-some p xs d m)
  ]
]

-- No slot that passes lies below a bound.
abbrev pub AllAbove : (Slot → Bool) → ℕ → List Slot → Type 0
AllAbove p bound [] = Unit
AllAbove p bound (x ∷ xs) = (p x ≡ true → bound ≤ x.epoch) × AllAbove p bound xs

AllAbove-le :
    (p : Slot → Bool) (a b : ℕ) (xs : List Slot) → a ≤ b → AllAbove p b xs → AllAbove p a xs
AllAbove-le p a b [] h all = tt
AllAbove-le p a b (x ∷ xs) h all = (λ t. omega (arith, all.0 t), AllAbove-le p a b xs h all.1)

-- What the loop has found behind `xs`: nothing below `oldest`, or the least of `xs`.
Best : (Slot → Bool) → ℕ → ℕ → Option ℕ → List Slot → Option ℕ → Type 0
Best p i oldest selected xs r =
    ((r ≡ selected) × AllAbove p oldest xs)
    ⊎ ((k : ℕ) × (r ≡ some (i + k))
        × (k < length xs)
        × (p (get_or xs k zero_slot) ≡ true)
        × ((get_or xs k zero_slot).epoch < oldest)
        × AllAbove p (get_or xs k zero_slot).epoch xs)

module _ (p : Slot → Bool) (i oldest : ℕ) (selected : Option ℕ) (x : Slot) (xs : List Slot)
    (r : Option ℕ) where
  -- The head is better than what was found before.
  Best-taken :
      (p x && ltb x.epoch oldest) ≡ true
      → Best p (suc i) x.epoch (some i) xs r
      → Best p i oldest selected (x ∷ xs) r
  unfolding Best
  Best-taken t (inl (e, all)) = inr (
    0,
    e ∙ ap some (omega arith),
    omega arith,
    ground arith,
    ground arith,
    (λ _. omega arith, all),
  )
  Best-taken t (inr (k, e, h, pk, lt, all)) =
      inr (suc k, e ∙ ap some (omega arith), omega arith, pk, ground arith, (λ _. omega arith, all))

  Best-kept :
      (p x && ltb x.epoch oldest) ≡ false
      → Best p (suc i) oldest selected xs r
      → Best p i oldest selected (x ∷ xs) r
  unfolding Best
  Best-kept f (inl (e, all)) = inl (e, (λ t. ground arith, all))
  Best-kept f (inr (k, e, h, pk, lt, all)) =
      inr (suc k, e ∙ ap some (omega arith), omega arith, pk, lt, (λ t. ground arith, all))

oldest_from-Best :
    (p : Slot → Bool) (i oldest : ℕ) (selected : Option ℕ) (xs : List Slot)
    → Best p i oldest selected xs (oldest_from p i oldest selected xs)
unfolding oldest_from
oldest_from-Best p i oldest selected [] = unfold Best in inl (refl, tt)
oldest_from-Best p i oldest selected (x ∷ xs) = elim (Bool-cases (p x && ltb x.epoch oldest)) [
  | inl t ↦
      rw t
        (Best-taken p i oldest selected x xs _ t (oldest_from-Best p (suc i) x.epoch (some i) xs))
  | inr f ↦
      rw f (Best-kept p i oldest selected x xs _ f (oldest_from-Best p (suc i) oldest selected xs))
]

-- The slot found passes, and none that passes has a lower epoch.
pub oldest_where-some :
    (p : Slot → Bool) (xs : List Slot) {i : ℕ}
    → oldest_where p xs ≡ some i
    → (i < length xs)
      × (p (get_or xs i zero_slot) ≡ true)
      × AllAbove p (get_or xs i zero_slot).epoch xs
unfolding oldest_where Best
oldest_where-some p xs {i} e = elim (oldest_from-Best p 0 uint32_max none xs) [
  | inl (n, all) ↦ cc
  | inr (k, e', h, pk, lt, all) ↦
      let same : k ≡ i = ground arith in
      subst
        (λ j.
          (j < length xs)
          × (p (get_or xs j zero_slot) ≡ true)
          × AllAbove p (get_or xs j zero_slot).epoch xs)
        same (h, pk, all)
]

-- Nothing is found only where every slot that passes has reached the last epoch.
pub oldest_where-none :
    (p : Slot → Bool) (xs : List Slot) → oldest_where p xs ≡ none → AllAbove p uint32_max xs
unfolding oldest_where Best
oldest_where-none p xs e = elim (oldest_from-Best p 0 uint32_max none xs) [
  | inl (n, all) ↦ all
  | inr (k, e', h, pk, lt, all) ↦ cc
]

-- The slot of an epoch, as `find_slot_locked` finds it.
pub find_slot-some :
    (generation epoch : ℕ) (s : Store) {i : ℕ}
    → find_slot generation epoch s ≡ some i
    → (i < length s.slots) × ((slot_at s i).generation ≡ generation) × ((slot_at s i).epoch ≡ epoch)
unfolding find_slot
find_slot-some generation epoch s e =
    let (h, ok) = first_where-some _ s.slots zero_slot e in
    (h, ground (arith, ok), ground (arith, ok))
