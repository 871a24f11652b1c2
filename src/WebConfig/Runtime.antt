-- ===== src/WebConfig/Runtime.antt =====
-- The shared copy of the configuration: m61_web_runtime_set and m61_web_runtime_get of
-- m61_web_config.c, as interleavings of one writer and one reader. Each copies the struct word by
-- word; the sequence is odd while the writer copies. The copy has been initialized.
use ds5dongle.Prelude.{ℕ, ◌+◌, ◌%◌, Bool, ◌||◌, not, List, [], ◌∷◌, ltb, ◌==◌, if◌then◌else◌, u32}

-- The words of the struct, by their index.
abbrev pub Words : Type 0
Words = ℕ → ℕ

abbrev pub put_word : ℕ → ℕ → Words → Words
put_word i x words = λ j. if j == i then x else words j

-- The writer: outside of `m61_web_runtime_set`, or behind so many words of its copy.
pub data Writer : Type 0 where
  idle : Writer
  writing : Words → ℕ → Writer

-- The reader: outside of the loop of `m61_web_runtime_get`, in its copy with `before` and the words
-- read so far, or returned with the words of `*config`.
pub data Reader : Type 0 where
  outside : Reader
  reading : ℕ → ℕ → Words → Reader
  returned : Words → Reader

-- The sequence counts every increment: the variable holds it modulo 2^32.
pub record Shared : Type 0 where
  pub sequence : ℕ
  pub config : Words
  pub writer : Writer
  pub reader : Reader

-- What the two do: enter, copy a word, leave.
pub data Event : Type 0 where
  set_begin : Words → Event
  set_word set_end get_begin get_word get_end : Event

module _ (n : ℕ) where
  unfoldable pub writer_word : Writer → Shared → Shared
  writer_word idle s = s
  writer_word (writing new i) s =
      if ltb i n
      then (record s { config = put_word i (new i) s.config; writer = writing new (i + 1) })
      else s

  unfoldable pub writer_end : Writer → Shared → Shared
  writer_end idle s = s
  writer_end (writing new i) s =
      if ltb i n then s else (record s { sequence = s.sequence + 1; writer = idle })

  unfoldable pub writer_begin : Words → Writer → Shared → Shared
  writer_begin new idle s = record s { sequence = s.sequence + 1; writer = writing new 0 }
  writer_begin new (writing w i) s = s

  unfoldable pub reader_begin : Reader → Shared → Shared
  reader_begin (reading before i buffer) s = s
  reader_begin _ s = record s { reader = reading s.sequence 0 (λ j. 0) }

  unfoldable pub reader_word : Reader → Shared → Shared
  reader_word (reading before i buffer) s =
      if ltb i n
      then (record s { reader = reading before (i + 1) (put_word i (s.config i) buffer) })
      else s
  reader_word _ s = s

  -- The test of the loop: an odd or changed sequence starts it again.
  abbrev pub must_retry : ℕ → ℕ → Bool
  must_retry before after = not (u32 before % 2 == 0) || not (u32 before == u32 after)

  unfoldable pub reader_end : Reader → Shared → Shared
  reader_end (reading before i buffer) s =
      if ltb i n
      then s
      else (record s { reader = if must_retry before s.sequence then outside else returned buffer })
  reader_end _ s = s

  unfoldable pub step : Event → Shared → Shared
  unfolding writer_word writer_end writer_begin reader_begin reader_word reader_end
  step (set_begin new) s = writer_begin new s.writer s
  step set_word s = writer_word s.writer s
  step set_end s = writer_end s.writer s
  step get_begin s = reader_begin s.reader s
  step get_word s = reader_word s.reader s
  step get_end s = reader_end s.reader s

  unfoldable pub run : List Event → Shared → Shared
  unfolding step
  run [] s = s
  run (e ∷ es) s = run es (step e s)

-- Before any of the two has started, with the words that are there.
abbrev pub start : Words → Shared
start words = record { sequence = 0; config = words; writer = idle; reader = outside }
