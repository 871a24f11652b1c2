-- ===== src/Gamepad/Features/Removed.antt =====
-- The loop of `remove_queued_feature_request_locked`, and the requests that stay.
use ds5dongle.Prelude.{
  ℕ, zero, suc, ◌+◌, ◌%◌, ◌≤◌, Bool, true, false, List, [], ◌∷◌, ◌++◌, length, get_or, set,
  if◌then◌else◌, ◌==◌, ◌≡◌, refl, sym, ap, ap₂, ◌∙◌, arith, Bool-cases, inl, inr, length-set,
  get_or-set_self, append_assoc, append-nil,
}
use ds5dongle.Gamepad.Ring.{Ring}
use ds5dongle.Gamepad.Ring.Contents.{
  Depth, contents, contents_from, contents_from-snoc, contents_from-set, IsQueue,
}
use ds5dongle.Gamepad.Features.{
  Request, no_request, remove_step, remove_loop, remove_queued_request,
}

pub depth16 : Depth 16
depth16 = record {
  positive = omega arith;
  byte = omega arith;
  wraps = λ a n. omega arith;
  apart = λ a i j h k e. omega arith;
  below = λ a. omega arith;
  small = λ a h. omega arith;
}

abbrev pub from : List Request → ℕ → ℕ → List Request
from slots at n = contents_from no_request 16 slots at n

-- The requests for other reports.
abbrev pub without : ℕ → List Request → List Request
without id [] = []
without id (q ∷ qs) = if q.report_id == id then without id qs else q ∷ without id qs

-- A request that stays is written behind those that were retained, and meets no other.
module _ (slots : List Request) (tail i retained n : ℕ) (size : length slots ≡ 16)
    (low : retained ≤ i) (fits : i + suc n ≤ 16) where
  entry : Request
  entry = get_or slots ((tail + i) % 16) no_request

  kept_slots : List Request
  unfolding entry
  kept_slots =
      if (tail + retained) % 16 == (tail + i) % 16
      then slots
      else set slots ((tail + retained) % 16) entry

  kept_slots-facts :
      (length kept_slots ≡ 16)
      × (from kept_slots tail (retained + 1) ≡ from slots tail retained ++ entry ∷ [])
      × (from kept_slots (tail + (i + 1)) n ≡ from slots (tail + (i + 1)) n)
  unfolding kept_slots
  kept_slots-facts = at_test ((tail + retained) % 16 == (tail + i) % 16) (λ e. ground (arith, e))
    where
      snoc :
          (xs : List Request)
          → from xs tail (retained + 1)
            ≡ from xs tail retained ++ get_or xs ((tail + retained) % 16) no_request ∷ []
      snoc xs =
          ap (from xs tail) {x = retained + 1} {y = suc retained} (omega arith)
          ∙ contents_from-snoc no_request 16 depth16 xs tail retained

      at_test :
          (b : Bool)
          → (b ≡ true → (tail + retained) % 16 ≡ (tail + i) % 16)
          → (length (if b then slots else set slots ((tail + retained) % 16) entry) ≡ 16)
            × (from
                  (if b then slots else set slots ((tail + retained) % 16) entry)
                  tail
                  (retained + 1)
                ≡ from slots tail retained ++ entry ∷ [])
            × (from
                  (if b then slots else set slots ((tail + retained) % 16) entry)
                  (tail + (i + 1))
                  n
                ≡ from slots (tail + (i + 1)) n)
      at_test true same = (
        size,
        snoc slots
            ∙ ap (λ (k : ℕ). from slots tail retained ++ get_or slots k no_request ∷ [])
                (same refl),
        refl,
      )
      at_test false same = (
        length-set slots _ entry ∙ size,
        snoc (set slots ((tail + retained) % 16) entry)
            ∙ ap₂ (λ xs (q : Request). xs ++ q ∷ [])
                (contents_from-set no_request 16 depth16 slots tail retained _ entry
                  (λ k below e. depth16.apart tail k retained below (omega arith) e))
                (get_or-set_self slots _ entry no_request (omega (arith, size))),
        contents_from-set no_request 16 depth16 slots (tail + (i + 1)) n _ entry (λ k below e.
            depth16.apart tail retained (i + 1 + k) (omega arith) (omega arith) (
              sym e
              ∙ ap (λ (j : ℕ). j % 16) {x = tail + (i + 1) + k} {y = tail + (i + 1 + k)}
                  (omega arith))),
      )

-- What a part of the loop has done when it ends.
abbrev Removed : ℕ → List Request → ℕ → List Request × ℕ → Type 0
Removed tail held most s = (from s.0 tail s.1 ≡ held) × (length s.0 ≡ 16) × (s.1 ≤ most)

Removed-eq :
    (tail : ℕ) {held held' : List Request} {most most' : ℕ} {s s' : List Request × ℕ}
    → s ≡ s'
    → held ≡ held'
    → most ≤ most'
    → Removed tail held most s
    → Removed tail held' most' s'
Removed-eq tail e eh le h = rw (sym e) (h.0 ∙ eh, h.1, omega (arith, h.2))

module _ (id tail : ℕ) where
  module _ (slots : List Request) (i retained n : ℕ) (size : length slots ≡ 16) (low : retained ≤ i)
      (fits : i + suc n ≤ 16) where
    remove_step-same :
        (entry slots tail i retained n size low fits).report_id == id ≡ true
        → remove_step id tail i (slots, retained) ≡ (slots, retained)
    unfolding remove_step entry
    remove_step-same e = rw e refl

    remove_step-other :
        (entry slots tail i retained n size low fits).report_id == id ≡ false
        → remove_step id tail i (slots, retained)
          ≡ (kept_slots slots tail i retained n size low fits, retained + 1)
    unfolding remove_step entry kept_slots
    remove_step-other e = rw e refl

    -- What the loop still has to look at.
    without-same :
        (entry slots tail i retained n size low fits).report_id == id ≡ true
        → without id (from slots (tail + i) (suc n)) ≡ without id (from slots (tail + (i + 1)) n)
    unfolding contents_from entry
    without-same e = rw e (ap (λ (a : ℕ). without id (from slots a n)) (omega arith))

    without-other :
        (entry slots tail i retained n size low fits).report_id == id ≡ false
        → without id (from slots (tail + i) (suc n))
          ≡ entry slots tail i retained n size low fits ∷ without id (from slots (tail + (i + 1)) n)
    unfolding contents_from entry
    without-other e = rw e (
        ap (λ (a : ℕ). get_or slots ((tail + i) % 16) no_request ∷ without id (from slots a n))
          {x = tail + i + 1} {y = tail + (i + 1)} (omega arith))

  remove_loop-without :
      (n i : ℕ) (slots : List Request) (retained : ℕ)
      → length slots ≡ 16
      → retained ≤ i
      → i + n ≤ 16
      → Removed tail
          (from slots tail retained ++ without id (from slots (tail + i) n))
          (retained + n)
          (remove_loop id tail i n (slots, retained))
  unfolding remove_loop contents_from
  remove_loop-without zero i slots retained size low fits = (sym (append-nil _), size, omega arith)
  remove_loop-without (suc n) i slots retained size low fits =
      elim (Bool-cases ((entry slots tail i retained n size low fits).report_id == id)) [
        | inl same ↦
            Removed-eq tail
              (ap (remove_loop id tail (i + 1) n)
                (sym (remove_step-same slots i retained n size low fits same)))
              (ap (λ xs. from slots tail retained ++ xs)
                (sym (without-same slots i retained n size low fits same)))
              (omega arith)
              (remove_loop-without n (i + 1) slots retained size (omega arith) (omega arith))
        | inr other ↦
            let facts = kept_slots-facts slots tail i retained n size low fits in
            Removed-eq tail
              (ap (remove_loop id tail (i + 1) n)
                (sym (remove_step-other slots i retained n size low fits other)))
              (ap₂ (λ xs ys. xs ++ without id ys) facts.1 facts.2
                ∙ append_assoc (from slots tail retained)
                    (entry slots tail i retained n size low fits ∷ [])
                    (without id (from slots (tail + (i + 1)) n))
                ∙ ap (λ xs. from slots tail retained ++ xs)
                    (sym (without-other slots i retained n size low fits other)))
              (omega arith)
              (remove_loop-without n (i + 1) (kept_slots slots tail i retained n size low fits)
                (retained + 1) facts.0 (omega arith) (omega arith))
      ]

-- The requests that stay are those for other reports, in their order, and the queue is still one.
pub contents-remove_queued :
    (id : ℕ) (q : Ring Request)
    → IsQueue no_request 16 q
    → (contents no_request 16 (remove_queued_request id q) ≡ without id (contents no_request 16 q))
      × IsQueue no_request 16 (remove_queued_request id q)
unfolding contents remove_queued_request
contents-remove_queued id q h =
    let done =
      remove_loop-without id q.tail q.count 0 q.slots 0 h.size (omega arith)
        (omega (arith, h.count_below)) in
    (
      done.0
          ∙ ap (λ (a : ℕ). without id (from q.slots a q.count)) {x = q.tail + 0} {y = q.tail}
              (omega arith),
      record {
        size = done.1;
        tail_below = h.tail_below;
        count_below = omega (arith, done.2, h.count_below);
        head_behind = refl;
      },
    )
