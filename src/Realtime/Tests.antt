-- ===== src/Realtime/Tests.antt =====
-- The realtime scheduler at concrete snapshots, and the theorems at snapshots that meet their
-- hypotheses.
use ds5dongle.Prelude.{◌+◌, ◌<◌, ◌≡◌, false, some, arith, has_bits, ◌⊎◌, refl}
use ds5dongle.Realtime.{
  Snapshot, decode, bt_window, codec_encode, ready_encode, ready_decode, job_slack_us, select,
  bt_min_window_us,
}
use ds5dongle.Realtime.Deadlines.{window_meets_deadlines}

-- Both codecs and a Bluetooth window are ready, 5000 us before the deadlines.
abbrev relaxed : Snapshot
relaxed = record {
  ready = 7;
  now_us = 10000;
  encode_deadline_us = 15000;
  decode_deadline_us = 15000;
  encode_estimated_us = 2000;
  decode_estimated_us = 2000;
  bt_window_elapsed_us = 0;
  encode_depth = 1;
  decode_depth = 1;
  last_codec = codec_encode;
}

-- The same, with the window used up.
abbrev busy : Snapshot
busy = record relaxed { bt_window_elapsed_us = 1000 }

actions : ((select (some relaxed)).action ≡ bt_window) × ((select (some busy)).action ≡ decode)
unfolding select job_slack_us
actions = (refl, refl)

window_meets_deadlines_example :
    ((has_bits 7 ready_encode ≡ false) ⊎ (10000 + bt_min_window_us + 2000 < 15000))
    × ((has_bits 7 ready_decode ≡ false) ⊎ (10000 + bt_min_window_us + 2000 < 15000))
window_meets_deadlines_example =
    window_meets_deadlines relaxed actions.0 (omega arith) (omega arith)
