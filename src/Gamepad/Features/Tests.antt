-- ===== src/Gamepad/Features/Tests.antt =====
-- Runs of the feature queue and cache at concrete inputs.
use ds5dongle.Prelude.{
  List, [], ◌∷◌, none, some, true, false, min, take, length, refl, ◌≡◌, arith, ℕ,
}
use ds5dongle.Gamepad.Features.{initial, store_feature_report, get_feature_report}
use ds5dongle.Gamepad.Features.Refine.{
  Call, Answer, ask, take_oldest, store, run, spec_run, requests, run-spec_run,
}
use ds5dongle.Gamepad.Features.Cache.{store-get}
use ds5dongle.Gamepad.Features.Distinct.{IsDistinct, run-IsDistinct}

-- Two reports are asked for, one twice; one is answered.
abbrev calls : List Call
calls =
    ask 5 20
    ∷ ask 9 0
    ∷ ask 5 41
    ∷ ask 0 7
    ∷ store 9 (some (1 ∷ 2 ∷ []))
    ∷ take_oldest
    ∷ take_oldest
    ∷ []

calls_answers : (spec_run calls []).0 ≡ (
    Answer.accepted true
    ∷ Answer.accepted true
    ∷ Answer.accepted true
    ∷ Answer.accepted false
    ∷ Answer.done
    ∷ Answer.taken (some (record { report_id = 5; requested_len = 41 }))
    ∷ Answer.taken none
    ∷ [])
calls_answers = refl

run-spec_run_example :
    ((run calls initial).0 ≡ (spec_run calls []).0)
    × (requests (run calls initial).1 ≡ (spec_run calls []).1)
run-spec_run_example = run-spec_run calls

run-IsDistinct_example : IsDistinct (requests (run (ask 5 20 ∷ ask 9 0 ∷ []) initial).1)
run-IsDistinct_example = run-IsDistinct (ask 5 20 ∷ ask 9 0 ∷ [])

abbrev report_bytes : List ℕ
report_bytes = 9 ∷ 8 ∷ 7 ∷ []

store-get_example :
    (get_feature_report 9 2 (store_feature_report 9 (some report_bytes) initial)).0
    ≡ take (min (min (min (length report_bytes) 64) 2) 64) report_bytes
store-get_example = store-get 9 2 report_bytes initial refl (omega arith)
