-- ===== src/Parser/Bounds.antt =====
-- What the parser of dualsense_parser.c reads of the bytes that it is given.
use ds5dongle.Prelude.{
  ℕ, ◌+◌, ◌-◌, ◌≤◌, ◌<◌, Bool, true, false, Option, none, some, ◌&&◌, ◌||◌, not, ltb, ◌==◌,
  if◌then◌else◌, ◌≡◌, refl, ap, ◌∙◌, arith, Bool-cases, inl, inr, zero, suc,
}
use ds5dongle.Parser.{
  Bytes, Frame, State, ParseResult, find_frame, parse_framed, no_result, parse_report, basic_state,
  full_state, all_buttons, read_i16_le, read_u32_le,
}

-- Two memories hold the same first bytes.
abbrev pub Agree : ℕ → Bytes → Bytes → Type 0
Agree len a b = (i : ℕ) → i < len → a i ≡ b i

find_frame-Agree : (len : ℕ) (a b : Bytes) → Agree len a b → find_frame a len ≡ find_frame b len
unfolding find_frame
find_frame-Agree zero a b h = refl
find_frame-Agree (suc zero) a b h = refl
find_frame-Agree (suc (suc zero)) a b h = rw (h 0 (omega arith), h 1 (omega arith)) refl
find_frame-Agree (suc (suc (suc len))) a b h =
    rw (h 0 (omega arith), h 1 (omega arith), h 2 (omega arith)) refl

-- The bytes of a payload, where two memories agree.
module _ (n : ℕ) (a b : Bytes) (h : Agree n a b) where
  all_buttons_agree : 9 ≤ n → all_buttons a n ≡ all_buttons b n
  unfolding all_buttons
  all_buttons_agree room = elim (Bool-cases (ltb 9 n)) [
    | inl more ↦ rw (more, h 7 (omega arith), h 8 (omega arith), h 9 (ground (arith, more))) refl
    | inr none_left ↦ rw (none_left, h 7 (omega arith), h 8 (omega arith)) refl
  ]

  basic_state_agree : (f : Frame) → 9 ≤ n → basic_state f a n ≡ basic_state f b n
  unfolding basic_state
  basic_state_agree f room =
      rw
        (
          all_buttons_agree room,
          h 0 (omega arith),
          h 1 (omega arith),
          h 2 (omega arith),
          h 3 (omega arith),
          h 4 (omega arith),
          h 5 (omega arith),
          h 7 (omega arith),
        )
        refl

  read_i16_le_agree : (i : ℕ) → i + 1 < n → read_i16_le a i ≡ read_i16_le b i
  unfolding read_i16_le
  read_i16_le_agree i room = rw (h i (omega arith), h (i + 1) room) refl

  read_u32_le_agree : (i : ℕ) → i + 3 < n → read_u32_le a i ≡ read_u32_le b i
  unfolding read_u32_le
  read_u32_le_agree i room =
      rw (h i (omega arith), h (i + 1) (omega arith), h (i + 2) (omega arith), h (i + 3) room) refl

  full_state_agree : (s : State) → 55 ≤ n → full_state s a ≡ full_state s b
  unfolding full_state
  full_state_agree s room =
      rw
        (
          read_i16_le_agree 15 (omega arith),
          read_i16_le_agree 17 (omega arith),
          read_i16_le_agree 19 (omega arith),
          read_i16_le_agree 21 (omega arith),
          read_i16_le_agree 23 (omega arith),
          read_i16_le_agree 25 (omega arith),
          read_u32_le_agree 27 (omega arith),
          h 31 (omega arith),
          h 52 (omega arith),
          h 53 (omega arith),
        )
        refl

  -- The state of a payload that passed the tests of its length.
  state_agree :
      (f : Frame) (full outside long short : Bool)
      → (long ≡ false → 55 ≤ n)
      → (short ≡ false → 9 ≤ n)
      → (outside || full && long || not full && short) ≡ false
      → (if full then full_state (basic_state f a n) a else basic_state f a n)
        ≡ (if full then full_state (basic_state f b n) b else basic_state f b n)
  state_agree f true outside long short p q e =
      let room : 55 ≤ n = p (ground (arith, e)) in
      ap (λ (s : State). full_state s a) (basic_state_agree f (omega arith))
      ∙ full_state_agree (basic_state f b n) room
  state_agree f false outside long short p q e = basic_state_agree f (q (ground (arith, e)))

-- What a report answers by two tests.
by_tests :
    (audio refused : Bool) (x y : Bool × State × ParseResult) (s t : State) (r : ParseResult)
    → (refused ≡ false → s ≡ t)
    → (if audio then x else if refused then y else (true, s, r))
      ≡ (if audio then x else if refused then y else (true, t, r))
by_tests true refused x y s t r h = refl
by_tests false true x y s t r h = refl
by_tests false false x y s t r h = ap (λ (u : State). (true, u, r)) (h refl)

parse_framed-Agree :
    (f : Frame) (len : ℕ) (a b : Bytes) (state : State)
    → Agree len a b
    → parse_framed f a len state ≡ parse_framed f b len state
unfolding parse_framed
parse_framed-Agree f len a b state h = by_tests f.is_mic_audio _ _ _ _ _ _ (
    state_agree (len - f.payload_offset) (λ i. a (f.payload_offset + i))
      (λ i. b (f.payload_offset + i)) (λ i low. h (f.payload_offset + i) (omega arith)) f
      f.is_full_report (ltb len f.payload_offset) (ltb (len - f.payload_offset) 55)
      (ltb (len - f.payload_offset) 9) (enough _ _) (enough _ _))
  where
    enough : (n m : ℕ) → ltb n m ≡ false → m ≤ n
    enough n m e = ground arith

-- Where two memories hold the same first `len` bytes, a report of that length is answered the same in
-- both, in its state and its result: no answer depends on what stands behind the report.
pub parse_report-Agree :
    (len : ℕ) (a b : Bytes) (state : State)
    → Agree len a b
    → parse_report (some a) len state ≡ parse_report (some b) len state
unfolding parse_report
parse_report-Agree len a b state h = by_length (len == 0)
  where
    answer : Bytes → Option Frame → Bool × State × ParseResult
    answer p none = (false, state, no_result)
    answer p (some f) = parse_framed f p len state

    by_frame : (o : Option Frame) → answer a o ≡ answer b o
    by_frame none = refl
    by_frame (some f) = parse_framed-Agree f len a b state h

    by_length :
        (empty : Bool)
        → (if empty then (false, state, no_result) else answer a (find_frame a len))
          ≡ (if empty then (false, state, no_result) else answer b (find_frame b len))
    by_length true = refl
    by_length false = rw (find_frame-Agree len a b h) (by_frame (find_frame b len))
