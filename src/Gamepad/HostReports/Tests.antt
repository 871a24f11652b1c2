-- ===== src/Gamepad/HostReports/Tests.antt =====
-- Runs of the reports of the host at concrete inputs.
use ds5dongle.Prelude.{List, [], ◌∷◌, none, some, refl, ◌≡◌}
use ds5dongle.Gamepad.HostReports.{initial}
use ds5dongle.Gamepad.HostReports.Refine.{
  Call, queue, take_next, run, spec_run, waiting, host_run-spec_run,
}

-- Two outputs and a feature report, then three attempts to take one.
abbrev calls : List Call
calls =
    queue 0 2 (0x02 ∷ 1 ∷ [])
    ∷ queue 0x80 3 (0x80 ∷ 7 ∷ [])
    ∷ queue 0 2 (0x02 ∷ 5 ∷ [])
    ∷ take_next
    ∷ take_next
    ∷ take_next
    ∷ []

calls_answers :
    (spec_run 3 calls (none, [])).0
    ≡ (none ∷ none ∷ none ∷ some (0, 2, 0x02 ∷ 5 ∷ []) ∷ some (0x80, 3, 0x80 ∷ 7 ∷ []) ∷ none ∷ [])
calls_answers = refl

host_run-spec_run_example :
    ((run 3 calls initial).0 ≡ (spec_run 3 calls (none, [])).0)
    × (waiting (run 3 calls initial).1 ≡ (spec_run 3 calls (none, [])).1)
host_run-spec_run_example = host_run-spec_run 3 calls
