-- ===== src/Gamepad/Features/Refine.antt =====
-- The queue of feature requests beside a list of requests, one for a report, in the order of asking.
use ds5dongle.Prelude.{
  min, subst, ℕ, suc, ◌+◌, ◌%◌, ◌<◌, Bool, true, false, List, [], ◌∷◌, ◌++◌, Option, none, some,
  length, get_or, set, if◌then◌else◌, ◌==◌, ltb, leb, length-set, ◌≡◌, refl, ap, ap₂, ◌∙◌, arith,
  Bool-cases, inl, inr, inc32,
}
use ds5dongle.Gamepad.Ring.{put}
use ds5dongle.Gamepad.Ring.Contents.{
  contents, contents_from, length-contents, contents-none, IsQueue, contents-put, put-IsQueue,
  contents-drop_oldest, drop_oldest-IsQueue, clear-IsQueue,
}
use ds5dongle.Gamepad.Features.{
  Features, Request, no_request, initial, length_asked, raised, find_queued, queue_feature_request,
  take_feature_request, store_feature_report, clear_feature_reports,
}
use ds5dongle.Gamepad.Features.Removed.{depth16, without, contents-remove_queued}
use ds5dongle.Gamepad.Features.Queued.{asks_for, raise, Found, find_queued-Found}

-- A call of m61_usb_gamepad.c on the queue, and what it answers.
pub data Call : Type 0 where
  ask : ℕ → ℕ → Call
  take_oldest : Call
  store : ℕ → Option (List ℕ) → Call
  forget : Call

pub data Answer : Type 0 where
  accepted : Bool → Answer
  taken : Option Request → Answer
  done : Answer

abbrev pub answered : Bool × Features → Answer × Features
answered r = (Answer.accepted r.0, r.1)

unfoldable pub step : Call → Features → Answer × Features
step (ask id n) s = answered (queue_feature_request id n s)
step take_oldest s = let r = take_feature_request s in (Answer.taken r.0, r.1)
step (store id bytes) s = (Answer.done, store_feature_report id bytes s)
step forget s = (Answer.done, clear_feature_reports s)

-- What the calls do to a list of requests.
abbrev pub spec_ask : ℕ → ℕ → List Request → Answer × List Request
spec_ask id n qs =
    if id == 0
    then (Answer.accepted false, qs)
    else if asks_for id qs
    then (Answer.accepted true, raise id n qs)
    else if leb 16 (length qs)
    then (Answer.accepted false, qs)
    else (Answer.accepted true, qs ++ record { report_id = id; requested_len = n } ∷ [])

-- The length that a call asks for: no length is the greatest one, 64.
abbrev pub wanted : ℕ → ℕ
wanted n = if n == 0 then 64 else min n 64

wanted-length_asked : (n : ℕ) → length_asked n ≡ wanted n
wanted-length_asked n = ground arith

abbrev pub spec_step : Call → List Request → Answer × List Request
spec_step (ask id n) qs = spec_ask id (wanted n) qs
spec_step take_oldest [] = (Answer.taken none, [])
spec_step take_oldest (q ∷ qs) = (Answer.taken (some q), qs)
spec_step (store id none) qs = (Answer.done, qs)
spec_step (store id (some [])) qs = (Answer.done, qs)
spec_step (store id (some (x ∷ bytes))) qs = (Answer.done, without id qs)
spec_step forget qs = (Answer.done, [])

abbrev pub requests : Features → List Request
requests s = contents no_request 16 s.queue

abbrev pub IsReady : Features → Type 0
IsReady s = IsQueue no_request 16 s.queue

-- What a step of the code and one on lists have to do with one another.
abbrev Follows : Answer × Features → Answer × List Request → Type 0
Follows x y = (x.0 ≡ y.0) × (requests x.1 ≡ y.1) × IsReady x.1

-- What the code and the list do once the loop has ended.
module _ (id n : ℕ) (s : Features) (h : IsReady s) where
  abbrev queued_at : ℕ → Features
  queued_at i = record s {
    queue = record s.queue {
      slots =
          set s.queue.slots ((s.queue.tail + i) % 16)
            (raised n (get_or s.queue.slots ((s.queue.tail + i) % 16) no_request));
    };
    coalesced = inc32 s.coalesced;
  }

  abbrev refused : Features
  refused = record s { dropped = inc32 s.dropped }

  abbrev longer : Features
  longer = record s {
    queue = put 16 (record { report_id = id; requested_len = n }) s.queue;
    high_water =
        if ltb s.high_water (put 16 (record { report_id = id; requested_len = n }) s.queue).count
        then (put 16 (record { report_id = id; requested_len = n }) s.queue).count
        else s.high_water;
  }

  abbrev asked : Option ℕ → Bool × Features
  asked none = if leb 16 s.queue.count then (false, refused) else (true, longer)
  asked (some i) = (true, queued_at i)

  abbrev listed : Bool → Bool → Answer × List Request
  listed known full =
      if known
      then (Answer.accepted true, raise id n (requests s))
      else if full
      then (Answer.accepted false, requests s)
      else (Answer.accepted true, requests s ++ record { report_id = id; requested_len = n } ∷ [])

  added-Follows :
      (full : Bool)
      → (full ≡ false → s.queue.count < 16)
      → Follows (answered (if full then (false, refused) else (true, longer))) (listed false full)
  added-Follows true room = (refl, refl, h)
  added-Follows false room = (
    refl,
    contents-put no_request 16 depth16 s.queue h (record { report_id = id; requested_len = n })
        (room refl),
    put-IsQueue no_request 16 depth16 s.queue h (record { report_id = id; requested_len = n })
        (room refl),
  )

  asked-Follows :
      (o : Option ℕ)
      → Found s.queue.slots id n h.size s.queue.tail s.queue.count o
      → Follows
          (answered (asked o))
          (listed (asks_for id (requests s)) (leb 16 (length (requests s))))
  unfolding contents
  asked-Follows none f =
      rw (f, length-contents no_request 16 s.queue)
        (added-Follows (leb 16 s.queue.count) (λ e. ground (arith, e)))
  asked-Follows (some i) f = rw f.1 (
    refl,
    f.2,
    record {
      size = length-set s.queue.slots _ _ ∙ h.size;
      tail_below = h.tail_below;
      count_below = h.count_below;
      head_behind = h.head_behind;
    },
  )

ask-Follows :
    (id n : ℕ) (s : Features)
    → IsReady s
    → Follows (step (ask id n) s) (spec_ask id (length_asked n) (requests s))
unfolding step queue_feature_request
ask-Follows id n s h = by_id (id == 0)
  where
    by_id :
        (zero_id : Bool)
        → Follows
            (answered (
              if zero_id
              then (false, s)
              else asked id
                  (length_asked n)
                  s
                  h
                  (find_queued s.queue.slots id s.queue.tail s.queue.count)))
            (if zero_id
              then (Answer.accepted false, requests s)
              else listed id
                  (length_asked n)
                  s
                  h
                  (asks_for id (requests s))
                  (leb 16 (length (requests s))))
    by_id true = (refl, refl, h)
    by_id false =
        asked-Follows id (length_asked n) s h
          (find_queued s.queue.slots id s.queue.tail s.queue.count)
          (find_queued-Found s.queue.slots id (length_asked n) h.size s.queue.tail s.queue.count
            h.count_below)

take-Follows :
    (s : Features) → IsReady s → Follows (step take_oldest s) (spec_step take_oldest (requests s))
unfolding step take_feature_request
take-Follows s h = elim (Bool-cases (ltb 0 s.queue.count)) [
  | inl some_left ↦
      let held = contents-drop_oldest no_request 16 depth16 s.queue h (ground (arith, some_left)) in
      rw (some_left, held)
        (
          refl,
          refl,
          drop_oldest-IsQueue no_request 16 depth16 s.queue h (ground (arith, some_left)),
        )
  | inr none_left ↦
      rw (none_left, contents-none no_request 16 s.queue (ground (arith, none_left)))
        (refl, refl, h)
]

store-Follows :
    (id : ℕ) (bytes : Option (List ℕ)) (s : Features)
    → IsReady s
    → Follows (step (store id bytes) s) (spec_step (store id bytes) (requests s))
unfolding step store_feature_report
store-Follows id none s h = (refl, refl, h)
store-Follows id (some []) s h = (refl, refl, h)
store-Follows id (some (x ∷ bytes)) s h =
    let kept = contents-remove_queued id s.queue h in
    rw (positive (length bytes)) (refl, kept.0, kept.1)
  where
    positive : (n : ℕ) → (suc n == 0) ≡ false
    positive n = ground arith

forget-Follows :
    (s : Features) → IsReady s → Follows (step forget s) (spec_step forget (requests s))
unfolding step clear_feature_reports contents contents_from
forget-Follows s h = (refl, refl, clear-IsQueue no_request 16 depth16 s.queue h)

step-Follows : (c : Call) (s : Features) → IsReady s → Follows (step c s) (spec_step c (requests s))
step-Follows (ask id n) s h =
    subst (λ (m : ℕ). Follows (step (ask id n) s) (spec_ask id m (requests s)))
      (wanted-length_asked n) (ask-Follows id n s h)
step-Follows take_oldest s h = take-Follows s h
step-Follows (store id bytes) s h = store-Follows id bytes s h
step-Follows forget s h = forget-Follows s h

-- Calls one after the other, and their answers.
unfoldable pub run : List Call → Features → List Answer × Features
run [] s = ([], s)
run (c ∷ cs) s = let x = step c s in let rest = run cs x.1 in (x.0 ∷ rest.0, rest.1)

abbrev pub spec_run : List Call → List Request → List Answer × List Request
spec_run [] qs = ([], qs)
spec_run (c ∷ cs) qs =
    let x = spec_step c qs in let rest = spec_run cs x.1 in (x.0 ∷ rest.0, rest.1)

run-Follows :
    (cs : List Call) (s : Features)
    → IsReady s
    → ((run cs s).0 ≡ (spec_run cs (requests s)).0)
      × (requests (run cs s).1 ≡ (spec_run cs (requests s)).1)
      × IsReady (run cs s).1
unfolding run
run-Follows [] s h = (refl, refl, h)
run-Follows (c ∷ cs) s h =
    let one = step-Follows c s h in
    let rest = run-Follows cs (step c s).1 one.2 in
    (
      ap₂ (λ (a : Answer) rest. a ∷ rest) one.0 (rest.0 ∙ ap (λ qs. (spec_run cs qs).0) one.1),
      rest.1 ∙ ap (λ qs. (spec_run cs qs).1) one.1,
      rest.2,
    )

initial-IsReady : IsReady initial
initial-IsReady = record {
  size = refl;
  tail_below = omega arith;
  count_below = omega arith;
  head_behind = refl;
}

-- From the start, the calls that ask for a report, take the oldest request, store a report and forget
-- all answer, whatever their order is, what they answer on a list of at most sixteen requests, which the
-- array, the tail and the count then hold.
pub run-spec_run :
    (cs : List Call)
    → ((run cs initial).0 ≡ (spec_run cs []).0) × (requests (run cs initial).1 ≡ (spec_run cs []).1)
unfolding contents contents_from
run-spec_run cs = let all = run-Follows cs initial initial-IsReady in (all.0, all.1)
