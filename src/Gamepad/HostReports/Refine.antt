-- ===== src/Gamepad/HostReports/Refine.antt =====
-- The reports of the host beside a place for one report and a list of at most eight.
use ds5dongle.Prelude.{
  ℕ, suc, ◌<◌, Bool, true, false, List, [], ◌∷◌, ◌++◌, map, Option, none, some, length, get_or,
  take, drop, min, if◌then◌else◌, ◌==◌, ltb, leb, ◌≡◌, refl, ap, ap₂, ◌∙◌, arith, inc32, take-take,
  take-min-length,
}
use mathlib.Core.List.{map-append}
use ds5dongle.Gamepad.Ring.{put, drop_oldest, oldest}
use ds5dongle.Gamepad.Ring.Contents.{
  Depth, contents, contents_from, length-contents, contents-none, IsQueue, contents-put,
  put-IsQueue, contents-drop_oldest, drop_oldest-IsQueue,
}
use ds5dongle.Gamepad.HostReports.{
  HostReport, HostReports, no_report, initial, written, record_last, queue_host_report,
  take_host_report,
}

depth8 : Depth 8
depth8 = record {
  positive = omega arith;
  byte = omega arith;
  wraps = λ a n. omega arith;
  apart = λ a i j h k e. omega arith;
  below = λ a. omega arith;
  small = λ a h. omega arith;
}

-- What a task sees of a report: its id, its type and its bytes.
abbrev pub Seen : Type 0
Seen = ℕ × ℕ × List ℕ

abbrev pub seen : HostReport → Seen
seen r = (r.report_id, r.report_type, take r.len r.bytes)

abbrev pub see : Option HostReport → Option Seen
see none = none
see (some r) = some (seen r)

pub data Call : Type 0 where
  queue : ℕ → ℕ → List ℕ → Call
  take_next : Call

-- What is left to take: the last report that is not for a feature, and those that are.
abbrev pub Waiting : Type 0
Waiting = Option Seen × List Seen

module _ (feature : ℕ) where
  unfoldable pub step : Call → HostReports → Option Seen × HostReports
  step (queue id type bytes) s = (none, queue_host_report feature id type (some bytes) s)
  step take_next s = let r = take_host_report s in (see r.0, r.1)

  abbrev pub spec_queue : Seen → Waiting → Waiting
  spec_queue r w =
      if r.1 == feature
      then (if leb 8 (length w.1) then w else (w.0, w.1 ++ r ∷ []))
      else (some r, w.1)

  abbrev pub spec_step : Call → Waiting → Option Seen × Waiting
  spec_step (queue id type []) w = (none, w)
  spec_step (queue id type (x ∷ bytes)) w = (none, spec_queue (id, type, take 64 (x ∷ bytes)) w)
  spec_step take_next (some r, rs) = (some r, (none, rs))
  spec_step take_next (none, []) = (none, (none, []))
  spec_step take_next (none, r ∷ rs) = (some r, (none, rs))

abbrev pub waiting : HostReports → Waiting
waiting s = (
  if s.pending_valid then some (seen s.pending) else none,
  map seen (contents no_report 8 s.queue),
)

abbrev pub IsReady : HostReports → Type 0
IsReady s = IsQueue no_report 8 s.queue

abbrev Follows : Option Seen × HostReports → Option Seen × Waiting → Type 0
Follows x y = (x.0 ≡ y.0) × (waiting x.1 ≡ y.1) × IsReady x.1

seen-written :
    (id type : ℕ) (bytes : List ℕ) (old : HostReport)
    → seen (written id type bytes (min (length bytes) 64) old) ≡ (id, type, take 64 bytes)
seen-written id type bytes old =
    ap (λ (bs : List ℕ). (id, type, bs))
      (take-take (min (length bytes) 64) (min (length bytes) 64) bytes
          (drop (min (length bytes) 64) old.bytes) (omega arith) (omega arith)
        ∙ take-min-length 64 bytes)

take-Follows :
    (feature : ℕ) (s : HostReports)
    → IsReady s
    → Follows (step feature take_next s) (spec_step feature take_next (waiting s))
unfolding step take_host_report
take-Follows feature s h =
    by_pending s.pending_valid (ltb 0 s.queue.count) refl (λ e. ground (arith, e))
      (λ e. ground (arith, e))
  where
    answer : Bool → Bool → Option HostReport × HostReports
    answer pending more =
        if pending
        then (some s.pending, record s { pending_valid = false })
        else if more
        then (some (oldest no_report s.queue), record s { queue = drop_oldest 8 s.queue })
        else (none, s)

    by_pending :
        (pending more : Bool)
        → s.pending_valid ≡ pending
        → (more ≡ true → 0 < s.queue.count)
        → (more ≡ false → s.queue.count ≡ 0)
        → Follows
            (see (answer pending more).0, (answer pending more).1)
            (spec_step feature take_next (
              if pending then some (seen s.pending) else none,
              map seen (contents no_report 8 s.queue),
            ))
    by_pending true more v p q = (refl, refl, h)
    by_pending false true v p q =
        rw (contents-drop_oldest no_report 8 depth8 s.queue h (p refl))
          (refl, rw v refl, drop_oldest-IsQueue no_report 8 depth8 s.queue h (p refl))
    by_pending false false v p q =
        rw (contents-none no_report 8 s.queue (q refl)) (refl, rw v refl, h)

length-map-seen : (rs : List HostReport) → length (map seen rs) ≡ length rs
length-map-seen [] = refl
length-map-seen (r ∷ rs) = omega (arith, length-map-seen rs)

positive : (n : ℕ) → (suc n == 0) ≡ false
positive n = ground arith

-- The queue with one report more.
longer : ℕ → ℕ → List ℕ → HostReports → HostReports
longer id type bytes s =
    let n = min (length bytes) 64 in
    let more =
      put 8 (written id type bytes n (get_or s.queue.slots s.queue.head no_report)) s.queue in
    record_last id bytes n (record s {
      queue = more;
      high_water = if ltb s.high_water more.count then more.count else s.high_water;
    })

longer-waiting :
    (id type : ℕ) (bytes : List ℕ) (s : HostReports)
    → IsReady s
    → s.queue.count < 8
    → (waiting (longer id type bytes s)
        ≡ ((waiting s).0, (waiting s).1 ++ (id, type, take 64 bytes) ∷ []))
      × IsReady (longer id type bytes s)
unfolding longer record_last
longer-waiting id type bytes s h room =
    let new : HostReport =
      written id type bytes (min (length bytes) 64) (get_or s.queue.slots s.queue.head no_report) in
    (
      ap (λ (rs : List Seen). ((waiting s).0, rs))
          (ap (map seen) (contents-put no_report 8 depth8 s.queue h new room)
            ∙ map-append seen (contents no_report 8 s.queue) (new ∷ [])
            ∙ ap (λ (r : Seen). map seen (contents no_report 8 s.queue) ++ r ∷ [])
                (seen-written id type bytes (get_or s.queue.slots s.queue.head no_report))),
      put-IsQueue no_report 8 depth8 s.queue h new room,
    )

-- The last report that is not for a feature.
kept : ℕ → ℕ → List ℕ → HostReports → HostReports
kept id type bytes s = record_last id bytes (min (length bytes) 64) (record s {
  coalesced = if s.pending_valid then inc32 s.coalesced else s.coalesced;
  pending = written id type bytes (min (length bytes) 64) s.pending;
  pending_valid = true;
})

kept-waiting :
    (id type : ℕ) (bytes : List ℕ) (s : HostReports)
    → waiting (kept id type bytes s) ≡ (some (id, type, take 64 bytes), (waiting s).1)
unfolding kept record_last
kept-waiting id type bytes s =
    ap (λ (r : Seen). (some r, (waiting s).1)) (seen-written id type bytes s.pending)

kept-IsReady :
    (id type : ℕ) (bytes : List ℕ) (s : HostReports) → IsReady s → IsReady (kept id type bytes s)
unfolding kept record_last
kept-IsReady id type bytes s h = h

queue-Follows :
    (feature id type : ℕ) (bytes : List ℕ) (s : HostReports)
    → IsReady s
    → Follows
        (step feature (queue id type bytes) s)
        (spec_step feature (queue id type bytes) (waiting s))
unfolding step queue_host_report longer kept
queue-Follows feature id type [] s h = (refl, refl, h)
queue-Follows feature id type (x ∷ bytes) s h = rw (positive (length bytes)) (
    by_type (type == feature) (leb 8 s.queue.count) (leb 8 (length (waiting s).1))
      (ap (leb 8)
        (length-map-seen (contents no_report 8 s.queue) ∙ length-contents no_report 8 s.queue))
      (λ e. ground (arith, e)))
  where
    by_type :
        (for_feature full full_list : Bool)
        → full_list ≡ full
        → (full ≡ false → s.queue.count < 8)
        → Follows
            (
              none,
              if for_feature
                  then (if full
                      then record s { dropped = inc32 s.dropped }
                      else longer id type (x ∷ bytes) s)
                  else kept id type (x ∷ bytes) s,
            )
            (
              none,
              if for_feature
                  then (if full_list
                      then waiting s
                      else ((waiting s).0, (waiting s).1 ++ (id, type, take 64 (x ∷ bytes)) ∷ []))
                  else (some (id, type, take 64 (x ∷ bytes)), (waiting s).1),
            )
    by_type false full full_list e room =
        (refl, kept-waiting id type (x ∷ bytes) s, kept-IsReady id type (x ∷ bytes) s h)
    by_type true true full_list e room = rw e (refl, refl, h)
    by_type true false full_list e room =
        let more = longer-waiting id type (x ∷ bytes) s h (room refl) in rw e (refl, more.0, more.1)

step-Follows :
    (feature : ℕ) (c : Call) (s : HostReports)
    → IsReady s
    → Follows (step feature c s) (spec_step feature c (waiting s))
step-Follows feature (queue id type bytes) s h = queue-Follows feature id type bytes s h
step-Follows feature take_next s h = take-Follows feature s h

-- Calls one after the other, and what they answer.
unfoldable pub run : ℕ → List Call → HostReports → List (Option Seen) × HostReports
run feature [] s = ([], s)
run feature (c ∷ cs) s =
    let x = step feature c s in let rest = run feature cs x.1 in (x.0 ∷ rest.0, rest.1)

abbrev pub spec_run : ℕ → List Call → Waiting → List (Option Seen) × Waiting
spec_run feature [] w = ([], w)
spec_run feature (c ∷ cs) w =
    let x = spec_step feature c w in let rest = spec_run feature cs x.1 in (x.0 ∷ rest.0, rest.1)

run-Follows :
    (feature : ℕ) (cs : List Call) (s : HostReports)
    → IsReady s
    → ((run feature cs s).0 ≡ (spec_run feature cs (waiting s)).0)
      × (waiting (run feature cs s).1 ≡ (spec_run feature cs (waiting s)).1)
unfolding run
run-Follows feature [] s h = (refl, refl)
run-Follows feature (c ∷ cs) s h =
    let one = step-Follows feature c s h in
    let rest = run-Follows feature cs (step feature c s).1 one.2 in
    (
      ap₂ (λ (a : Option Seen) answers. a ∷ answers) one.0
          (rest.0 ∙ ap (λ (w : Waiting). (spec_run feature cs w).0) one.1),
      rest.1 ∙ ap (λ (w : Waiting). (spec_run feature cs w).1) one.1,
    )

-- From the start, the task that takes the reports of the host gets, whatever the order of the calls is,
-- what a place for one report and a list of at most eight hold: the last report that is not for a feature
-- first, and then those for features in the order of arrival, each with its id, its type and at most 64
-- bytes; a report for a feature that finds eight waiting is dropped.
pub host_run-spec_run :
    (feature : ℕ) (cs : List Call)
    → ((run feature cs initial).0 ≡ (spec_run feature cs (none, [])).0)
      × (waiting (run feature cs initial).1 ≡ (spec_run feature cs (none, [])).1)
unfolding contents contents_from
host_run-spec_run feature cs = run-Follows feature cs initial (record {
  size = refl;
  tail_below = omega arith;
  count_below = omega arith;
  head_behind = refl;
})
