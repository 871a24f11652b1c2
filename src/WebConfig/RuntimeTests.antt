-- ===== src/WebConfig/RuntimeTests.antt =====
-- A run of the writer and the reader of the shared configuration.
use ds5dongle.Prelude.{◌≡◌, List, [], ◌∷◌, arith, refl}
use ds5dongle.WebConfig.Runtime.{
  Words, Event, set_begin, set_word, set_end, get_begin, get_word, get_end, returned, run, start,
  put_word,
}
use ds5dongle.WebConfig.Guarded.{Whole}
use ds5dongle.WebConfig.Untorn.{run-Whole}

abbrev IsEven : Words → Type 0
IsEven words = words 0 ≡ words 1

abbrev zeros : Words
zeros j = 0

abbrev ones : Words
ones j = 1

-- The reader starts in the middle of a write, has to start again, and then returns.
abbrev events : List Event
events =
    set_begin ones
    ∷ set_word
    ∷ get_begin
    ∷ get_word
    ∷ set_word
    ∷ get_word
    ∷ set_end
    ∷ get_end
    ∷ get_begin
    ∷ get_word
    ∷ get_word
    ∷ get_end
    ∷ []

abbrev read : Words
read = put_word 1 1 (put_word 0 1 zeros)

events_return : (run 2 events (start zeros)).reader ≡ returned read
unfolding run
events_return = refl

run-Whole_example : Whole 2 IsEven read
run-Whole_example = run-Whole 2 IsEven events zeros read refl (refl, tt) (omega arith) events_return
