-- ===== src/Gamepad/Input/Tests.antt =====
-- Runs of the input report at concrete inputs.
use ds5dongle.Prelude.{some, arith}
use ds5dongle.Parser.{State, zero_state, parse_report}
use ds5dongle.Gamepad.Input.Echo.{Echoed, report, make_payload-parse}

-- The cross and the mute button, the pad to the left, and a stick that is pushed.
abbrev pressed : State
pressed = record zero_state { left_x = 250; left_y = 130; r2 = 17; dpad = 6; buttons = 0x4002 }

make_payload-parse_example :
    Echoed pressed 8 0 (parse_report (some (report pressed 8 0)) 64 zero_state)
make_payload-parse_example = make_payload-parse pressed zero_state 8 0 (omega arith) (omega arith)
