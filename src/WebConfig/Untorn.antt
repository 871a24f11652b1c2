-- ===== src/WebConfig/Untorn.antt =====
-- No reader of the shared configuration returns a mixture of two.
use ds5dongle.Prelude.{ℕ, ◌+◌, ◌^◌, ◌≤◌, ◌<◌, ◌≡◌, List, [], ◌∷◌, length, arith, refl, subst}
use ds5dongle.WebConfig.Runtime.{
  Words, Writer, idle, writing, Reader, outside, reading, returned, Shared, Event, set_begin,
  set_word, set_end, get_begin, get_word, get_end, writer_word, writer_end, writer_begin,
  reader_begin, reader_word, reader_end, step, run, start,
}
use ds5dongle.WebConfig.Guarded.{
  Whole, ReaderOk, Ok, writer_begin-Ok, writer_word-Ok, writer_end-Ok, reader_begin-Ok,
  reader_word-Ok, reader_end-Ok,
}

module _ (n : ℕ) (IsGiven : Words → Type 0) where
  -- The writer is given only configs that are set.
  abbrev pub SetOnly : List Event → Type 0
  SetOnly [] = Unit
  SetOnly (set_begin new ∷ es) = IsGiven new × SetOnly es
  SetOnly (e ∷ es) = SetOnly es

  step-Ok :
      (e : Event) (s : Shared)
      → SetOnly (e ∷ [])
      → s.sequence < 2 ^ 32
      → Ok n IsGiven s
      → Ok n IsGiven (step n e s)
  unfolding step
  step-Ok (set_begin new) s (set, rest) h ok =
      writer_begin-Ok n IsGiven new s.sequence s.config s.writer s.reader set ok
  step-Ok set_word s set h ok = writer_word-Ok n IsGiven s.sequence s.config s.writer s.reader ok
  step-Ok set_end s set h ok = writer_end-Ok n IsGiven s.sequence s.config s.writer s.reader ok
  step-Ok get_begin s set h ok = reader_begin-Ok n IsGiven s.sequence s.config s.writer s.reader ok
  step-Ok get_word s set h ok = reader_word-Ok n IsGiven s.sequence s.config s.writer s.reader ok
  step-Ok get_end s set h ok = reader_end-Ok n IsGiven s.sequence s.config s.writer s.reader h ok

  sequence-step : (e : Event) (s : Shared) → (step n e s).sequence ≤ s.sequence + 1
  unfolding step
  sequence-step (set_begin new) s = begun s.writer
    where
      begun : (w : Writer) → (writer_begin n new w s).sequence ≤ s.sequence + 1
      begun idle = omega arith
      begun (writing old i) = omega arith
  sequence-step set_word s = copied s.writer
    where
      copied : (w : Writer) → (writer_word n w s).sequence ≤ s.sequence + 1
      copied idle = omega arith
      copied (writing new i) = ground arith
  sequence-step set_end s = ended s.writer
    where
      ended : (w : Writer) → (writer_end n w s).sequence ≤ s.sequence + 1
      ended idle = omega arith
      ended (writing new i) = ground arith
  sequence-step get_begin s = begun s.reader
    where
      begun : (r : Reader) → (reader_begin n r s).sequence ≤ s.sequence + 1
      begun outside = omega arith
      begun (reading before i buffer) = omega arith
      begun (returned buffer) = omega arith
  sequence-step get_word s = copied s.reader
    where
      copied : (r : Reader) → (reader_word n r s).sequence ≤ s.sequence + 1
      copied outside = omega arith
      copied (reading before i buffer) = ground arith
      copied (returned buffer) = omega arith
  sequence-step get_end s = ended s.reader
    where
      ended : (r : Reader) → (reader_end n r s).sequence ≤ s.sequence + 1
      ended outside = omega arith
      ended (reading before i buffer) = ground arith
      ended (returned buffer) = omega arith

  SetOnly-head : (e : Event) (es : List Event) → SetOnly (e ∷ es) → SetOnly (e ∷ []) × SetOnly es
  SetOnly-head (set_begin new) es (set, rest) = ((set, tt), rest)
  SetOnly-head set_word es h = (tt, h)
  SetOnly-head set_end es h = (tt, h)
  SetOnly-head get_begin es h = (tt, h)
  SetOnly-head get_word es h = (tt, h)
  SetOnly-head get_end es h = (tt, h)

  run-Ok :
      (es : List Event) (s : Shared)
      → SetOnly es
      → s.sequence + length es < 2 ^ 32
      → Ok n IsGiven s
      → Ok n IsGiven (run n es s)
  unfolding run
  run-Ok [] s set h ok = ok
  run-Ok (e ∷ es) s set h ok =
      let (first, rest) = SetOnly-head e es set in
      run-Ok es (step n e s) rest (omega (arith, sequence-step e s))
        (step-Ok e s first (omega arith) ok)

  -- In any interleaving of one writer and one reader of fewer than 2^32 steps, what the reader returns
  -- is one config that was set, or the one from the start, in all its words.
  pub run-Whole :
      (es : List Event) (words buffer : Words)
      → IsGiven words
      → SetOnly es
      → length es < 2 ^ 32
      → (run n es (start words)).reader ≡ returned buffer
      → Whole n IsGiven buffer
  run-Whole es words buffer set only h e =
      let ok =
        run-Ok es (start words) only (omega (arith, h)) ((refl, (words, set, λ j l. refl)), tt) in
      subst
        (λ (r : Reader).
          ReaderOk n IsGiven r (run n es (start words)).sequence (run n es (start words)).config)
        e ok.1
