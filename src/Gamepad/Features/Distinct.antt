-- ===== src/Gamepad/Features/Distinct.antt =====
-- The reports that the requests in the queue of m61_usb_gamepad.c ask for.
use ds5dongle.Prelude.{
  max, ℕ, ◌≤◌, ◌<◌, Bool, true, false, ◌||◌, List, [], ◌∷◌, ◌++◌, none, some, length, if◌then◌else◌,
  ◌==◌, leb, ◌≡◌, refl, ◌∙◌, arith, ◌≢◌,
}
use ds5dongle.Gamepad.Features.{Request, initial}
use ds5dongle.Gamepad.Features.Removed.{without}
use ds5dongle.Gamepad.Features.Queued.{asks_for, raise}
use ds5dongle.Gamepad.Features.Refine.{
  wanted, Call, Answer, ask, take_oldest, store, forget, spec_step, spec_run, spec_ask, run,
  requests, run-spec_run,
}

-- Requests for reports that are not 0, each for one to 64 bytes, and no two for one report.
abbrev pub IsDistinct : List Request → Type 0
IsDistinct [] = Unit
IsDistinct (q ∷ qs) =
    (asks_for q.report_id qs ≡ false)
    × (q.report_id ≢ 0)
    × (0 < q.requested_len)
    × (q.requested_len ≤ 64)
    × IsDistinct qs

asks_for-append :
    (id : ℕ) (qs : List Request) (q : Request)
    → asks_for id (qs ++ q ∷ []) ≡ (asks_for id qs || q.report_id == id)
asks_for-append id [] q = ground arith
asks_for-append id (p ∷ qs) q = ground (arith, asks_for-append id qs q)

asks_for-raise : (j id n : ℕ) (qs : List Request) → asks_for j (raise id n qs) ≡ asks_for j qs
asks_for-raise j id n [] = refl
asks_for-raise j id n (q ∷ qs) = ground (arith, asks_for-raise j id n qs)

asks_for-without :
    (j id : ℕ) (qs : List Request) → asks_for j qs ≡ false → asks_for j (without id qs) ≡ false
asks_for-without j id [] h = refl
asks_for-without j id (q ∷ qs) h = ground (arith, asks_for-without j id qs)

append-IsDistinct :
    (qs : List Request) (q : Request)
    → IsDistinct qs
    → asks_for q.report_id qs ≡ false
    → q.report_id ≢ 0
    → 0 < q.requested_len
    → q.requested_len ≤ 64
    → IsDistinct (qs ++ q ∷ [])
append-IsDistinct [] q h new nonzero low high = (refl, nonzero, low, high, tt)
append-IsDistinct (p ∷ qs) q (once, p0, p1, p2, rest) new nonzero low high = (
  ground (arith, asks_for-append p.report_id qs q),
  p0,
  p1,
  p2,
  append-IsDistinct qs q rest (ground (arith, new)) nonzero low high,
)

raise-IsDistinct :
    (id n : ℕ) (qs : List Request) → n ≤ 64 → IsDistinct qs → IsDistinct (raise id n qs)
raise-IsDistinct id n [] most h = tt
raise-IsDistinct id n (q ∷ qs) most (once, q0, q1, q2, rest) =
    by_test (q.report_id == id) (raise-IsDistinct id n qs most rest)
  where
    by_test :
        (same : Bool)
        → IsDistinct (raise id n qs)
        → IsDistinct (
            if same
            then record q { requested_len = max q.requested_len n } ∷ qs
            else q ∷ raise id n qs)
    by_test true k = (once, q0, omega (arith, q1), omega (arith, q2, most), rest)
    by_test false k = (asks_for-raise q.report_id id n qs ∙ once, q0, q1, q2, k)

without-IsDistinct : (id : ℕ) (qs : List Request) → IsDistinct qs → IsDistinct (without id qs)
without-IsDistinct id [] h = tt
without-IsDistinct id (q ∷ qs) (once, q0, q1, q2, rest) =
    by_test (q.report_id == id) (without-IsDistinct id qs rest)
  where
    by_test :
        (same : Bool)
        → IsDistinct (without id qs)
        → IsDistinct (if same then without id qs else q ∷ without id qs)
    by_test true k = k
    by_test false k = (asks_for-without q.report_id id qs once, q0, q1, q2, k)

spec_ask-IsDistinct :
    (id n : ℕ) (qs : List Request)
    → IsDistinct qs
    → 0 < n
    → n ≤ 64
    → IsDistinct (spec_ask id n qs).1
spec_ask-IsDistinct id n qs h low high =
    by_tests (id == 0) (asks_for id qs) (leb 16 (length qs)) (λ e. ground (arith, e)) (λ e. e)
  where
    by_tests :
        (zero_id known full : Bool)
        → (zero_id ≡ false → id ≢ 0)
        → (known ≡ false → asks_for id qs ≡ false)
        → (let x : Answer × List Request =
              if zero_id
              then (Answer.accepted false, qs)
              else if known
              then (Answer.accepted true, raise id n qs)
              else if full
              then (Answer.accepted false, qs)
              else (
                Answer.accepted true,
                qs ++ record { report_id = id; requested_len = n } ∷ [],
              ) in
            IsDistinct x.1)
    by_tests true known full p q = h
    by_tests false true full p q = raise-IsDistinct id n qs high h
    by_tests false false true p q = h
    by_tests false false false p q = append-IsDistinct qs _ h (q refl) (p refl) low high

spec_step-IsDistinct :
    (c : Call) (qs : List Request) → IsDistinct qs → IsDistinct (spec_step c qs).1
spec_step-IsDistinct (ask id n) qs h =
    spec_ask-IsDistinct id (wanted n) qs h (ground arith) (ground arith)
spec_step-IsDistinct take_oldest [] h = tt
spec_step-IsDistinct take_oldest (q ∷ qs) (once, q0, q1, q2, rest) = rest
spec_step-IsDistinct (store id none) qs h = h
spec_step-IsDistinct (store id (some [])) qs h = h
spec_step-IsDistinct (store id (some (x ∷ bytes))) qs h = without-IsDistinct id qs h
spec_step-IsDistinct forget qs h = tt

spec_run-IsDistinct :
    (cs : List Call) (qs : List Request) → IsDistinct qs → IsDistinct (spec_run cs qs).1
spec_run-IsDistinct [] qs h = h
spec_run-IsDistinct (c ∷ cs) qs h =
    spec_run-IsDistinct cs (spec_step c qs).1 (spec_step-IsDistinct c qs h)

-- Whatever calls were made from the start, the queue holds no two requests for one report, none for the
-- report 0, and none for no byte or more than 64.
pub run-IsDistinct : (cs : List Call) → IsDistinct (requests (run cs initial).1)
run-IsDistinct cs = rw ((run-spec_run cs).1) (spec_run-IsDistinct cs [] tt)
