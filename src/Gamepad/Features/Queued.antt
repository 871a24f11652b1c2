-- ===== src/Gamepad/Features/Queued.antt =====
-- What the loop of `queue_feature_request` finds, and what raising a length does to the queue.
use ds5dongle.Prelude.{
  ℕ, zero, suc, ◌+◌, ◌%◌, ◌≤◌, ◌<◌, Bool, true, false, List, [], ◌∷◌, Option, none, some, length,
  get_or, set, if◌then◌else◌, ◌==◌, ltb, max, ◌≡◌, refl, ap, ap₂, ◌∙◌, arith, get_or-set_self,
  get_or-set_ne,
}
use ds5dongle.Gamepad.Ring.Contents.{contents_from, contents_from-set}
use ds5dongle.Gamepad.Features.{Request, no_request, find_queued, raised, one_more}
use ds5dongle.Gamepad.Features.Removed.{from, depth16}

-- Whether a report is asked for, and the requests with the length of its first one raised.
abbrev pub asks_for : ℕ → List Request → Bool
asks_for id [] = false
asks_for id (q ∷ qs) = if q.report_id == id then true else asks_for id qs

abbrev pub raise : ℕ → ℕ → List Request → List Request
raise id n [] = []
raise id n (q ∷ qs) =
    if q.report_id == id
    then record q { requested_len = max q.requested_len n } ∷ qs
    else q ∷ raise id n qs

raised-max : (n : ℕ) (q : Request) → raised n q ≡ record q { requested_len = max q.requested_len n }
raised-max n q = by_test (ltb q.requested_len n) (λ e. ground (arith, e)) (λ e. ground (arith, e))
  where
    by_test :
        (longer : Bool)
        → (longer ≡ true → n ≡ max q.requested_len n)
        → (longer ≡ false → q.requested_len ≡ max q.requested_len n)
        → (if longer then record q { requested_len = n } else q)
          ≡ record q { requested_len = max q.requested_len n }
    by_test true p r = ap (λ (m : ℕ). record q { requested_len = m }) (p refl)
    by_test false p r = ap (λ (m : ℕ). record q { requested_len = m }) (r refl)

module _ (slots : List Request) (id most : ℕ) (size : length slots ≡ 16) where
  -- The slots with the length raised `k` places behind the place `at`.
  abbrev raised_at : ℕ → List Request
  raised_at i = set slots (i % 16) (raised most (get_or slots (i % 16) no_request))

  -- What the answer of the loop says of `n` requests from the place `at` on.
  abbrev pub Found : ℕ → ℕ → Option ℕ → Type 0
  Found at n none = asks_for id (from slots at n) ≡ false
  Found at n (some k) =
      (k < n)
      × (asks_for id (from slots at n) ≡ true)
      × (from (raised_at (at + k)) at n ≡ raise id most (from slots at n))

  Found-later :
      (at n : ℕ)
      → suc n ≤ 16
      → (get_or slots (at % 16) no_request).report_id == id ≡ false
      → (o : Option ℕ) → Found (at + 1) n o
      → Found at (suc n) (one_more o)
  unfolding contents_from
  Found-later at n fits other none h = rw other h
  Found-later at n fits other (some k) h = rw other (
    omega (arith, h.0),
    h.1,
    ap₂ (λ (q : Request) qs. q ∷ qs)
        (get_or-set_ne slots ((at + (k + 1)) % 16) (at % 16) _ no_request (λ e. omega (arith, h.0)))
        (ap (λ (i : ℕ). from (raised_at i) (at + 1) n) {x = at + (k + 1)} {y = at + 1 + k}
            (omega arith)
          ∙ h.2),
  )

  Found-here :
      (at n : ℕ)
      → suc n ≤ 16
      → (get_or slots (at % 16) no_request).report_id == id ≡ true
      → Found at (suc n) (some 0)
  unfolding contents_from
  Found-here at n fits same = rw same (
    omega arith,
    refl,
    ap₂ (λ (q : Request) qs. q ∷ qs)
        (ap (λ (i : ℕ). get_or (raised_at i) (at % 16) no_request) {x = at + 0} {y = at}
            (omega arith)
          ∙ get_or-set_self slots (at % 16) _ no_request (omega (arith, size))
          ∙ raised-max most (get_or slots (at % 16) no_request))
        (contents_from-set no_request 16 depth16 slots (at + 1) n ((at + 0) % 16) _
          (λ i low e. omega arith)),
  )

  pub find_queued-Found : (at n : ℕ) → n ≤ 16 → Found at n (find_queued slots id at n)
  unfolding find_queued contents_from
  find_queued-Found at zero fits = refl
  find_queued-Found at (suc n) fits =
      by_test ((get_or slots (at % 16) no_request).report_id == id) (Found-here at n fits)
        (λ other. Found-later at n fits other _ (find_queued-Found (at + 1) n (omega arith)))
    where
      by_test :
          (b : Bool)
          → (b ≡ true → Found at (suc n) (some 0))
          → (b ≡ false → Found at (suc n) (one_more (find_queued slots id (at + 1) n)))
          → Found at (suc n) (if b then some 0 else one_more (find_queued slots id (at + 1) n))
      by_test true p q = p refl
      by_test false p q = q refl
