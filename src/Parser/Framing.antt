-- ===== src/Parser/Framing.antt =====
-- Reports of dualsense_parser.c with the byte of the HIDP transport before them.
use ds5dongle.Prelude.{
  ℕ, ◌+◌, ◌-◌, Bool, true, false, Option, none, some, ◌&&◌, ◌||◌, not, ltb, ◌==◌, if◌then◌else◌,
  ◌≡◌, ◌⊎◌, refl, ap, ap₂, arith, inl, inr, zero, suc,
}
use mathlib.Core.Path.{fun_ext}
use ds5dongle.Parser.{
  Bytes, Frame, ReportKind, State, ParseResult, find_frame, parse_framed, parse_report, basic_state,
  full_state, hidp_input, no_result,
}

abbrev pub hidp : Bytes → Bytes
hidp p zero = hidp_input
hidp p (suc i) = p i

-- Two answers that differ in the place of the payload at most.
abbrev pub SamePayload : Bool × State × ParseResult → Bool × State × ParseResult → Type 0
SamePayload x y =
    (x.0 ≡ y.0)
    × (x.1 ≡ y.1)
    × (x.2.kind ≡ y.2.kind)
    × (x.2.report_id ≡ y.2.report_id)
    × (x.2.payload_len ≡ y.2.payload_len)

abbrev answer : ReportKind → ℕ → ℕ → ℕ → ParseResult
answer kind id at n = record { kind = kind; report_id = id; payload_offset = at; payload_len = n }

behind : Frame → Frame
behind f = record f { payload_offset = f.payload_offset + 1 }

behind_frame : Option Frame → Option Frame
unfolding behind
behind_frame none = none
behind_frame (some f) = some (behind f)

find_frame-hidp :
    (p : Bytes) (len : ℕ)
    → (p 0 ≡ 0x31) ⊎ (p 0 ≡ 0x01)
    → find_frame (hidp p) (suc len) ≡ behind_frame (find_frame p len)
unfolding find_frame behind_frame
find_frame-hidp p len (inl h) = ground (arith, h)
find_frame-hidp p len (inr h) = ground (arith, h)

-- Two answers with the same tests, state, kinds, ids and lengths.
same_tests :
    (audio r r' : Bool) (old s s' : State) (id at at' n n' : ℕ)
    → r' ≡ r
    → s' ≡ s
    → n' ≡ n
    → SamePayload
        (if audio
          then (false, old, answer ReportKind.mic_audio id at' n')
          else if r'
          then (false, old, no_result)
          else (true, s', answer ReportKind.input id at' n'))
        (if audio
          then (false, old, answer ReportKind.mic_audio id at n)
          else if r
          then (false, old, no_result)
          else (true, s, answer ReportKind.input id at n))
same_tests true r r' old s s' id at at' n n' er es en = (refl, refl, refl, refl, en)
same_tests false true r' old s s' id at at' n n' er es en = rw er (refl, refl, refl, refl, refl)
same_tests false false r' old s s' id at at' n n' er es en = rw er (refl, es, refl, refl, en)

parse_framed-hidp :
    (f : Frame) (p : Bytes) (len : ℕ) (state : State)
    → SamePayload (parse_framed (behind f) (hidp p) (suc len) state) (parse_framed f p len state)
unfolding parse_framed behind basic_state
parse_framed-hidp f p len state =
    same_tests f.is_mic_audio _ _ state _ _ f.report_id _ _ _ _
      (ap₂
        (λ (o : Bool) (n : ℕ). o || f.is_full_report && ltb n 55 || not f.is_full_report && ltb n 9)
        outside lengths)
      (ap₂
        (λ (q : Bytes) (n : ℕ).
          if f.is_full_report then full_state (basic_state f q n) q else basic_state f q n)
        (fun_ext payload) lengths)
      lengths
  where
    lengths : suc len - (f.payload_offset + 1) ≡ len - f.payload_offset
    lengths = omega arith

    payload : (i : ℕ) → hidp p (f.payload_offset + 1 + i) ≡ p (f.payload_offset + i)
    payload i =
        ap (hidp p) {x = f.payload_offset + 1 + i} {y = suc (f.payload_offset + i)} (omega arith)

    outside : ltb (suc len) (f.payload_offset + 1) ≡ ltb len f.payload_offset
    outside = ground arith

by_frame :
    (p : Bytes) (len : ℕ) (state : State)
    → find_frame (hidp p) (suc len) ≡ behind_frame (find_frame p len)
    → SamePayload
        (elim (find_frame (hidp p) (suc len)) as (λ o. Bool × State × ParseResult) [
          | none ↦ (false, state, no_result)
          | some f ↦ parse_framed f (hidp p) (suc len) state
        ])
        (elim (find_frame p len) as (λ o. Bool × State × ParseResult) [
          | none ↦ (false, state, no_result)
          | some f ↦ parse_framed f p len state
        ])
unfolding behind_frame
by_frame p len state e = rw e (at_frame (find_frame p len))
  where
    at_frame :
        (o : Option Frame)
        → SamePayload
            (elim (behind_frame o) as (λ o. Bool × State × ParseResult) [
              | none ↦ (false, state, no_result)
              | some f ↦ parse_framed f (hidp p) (suc len) state
            ])
            (elim o as (λ o. Bool × State × ParseResult) [
              | none ↦ (false, state, no_result)
              | some f ↦ parse_framed f p len state
            ])
    at_frame none = (refl, refl, refl, refl, refl)
    at_frame (some f) = parse_framed-hidp f p len state

find_frame-one : (p : Bytes) → find_frame (hidp p) 1 ≡ none
unfolding find_frame
find_frame-one p = refl

positive : (n : ℕ) → (suc n == 0) ≡ false
positive n = ground arith

-- A report 0x31 or 0x01 with the byte of the HIDP transport before it is answered as the report without
-- it: with the same state, or the same refusal, and a payload of the same kind, id and length.
pub parse_report-hidp :
    (p : Bytes) (len : ℕ) (state : State)
    → (p 0 ≡ 0x31) ⊎ (p 0 ≡ 0x01)
    → SamePayload (parse_report (some (hidp p)) (suc len) state) (parse_report (some p) len state)
unfolding parse_report
parse_report-hidp p zero state h = rw (find_frame-one p) (refl, refl, refl, refl, refl)
parse_report-hidp p (suc len) state h =
    rw (positive (suc len), positive len)
      (by_frame p (suc len) state (find_frame-hidp p (suc len) h))
