-- ===== src/Parser/Tests.antt =====
-- Runs of the parser at concrete inputs.
use ds5dongle.Prelude.{ℕ, List, [], ◌∷◌, ◌++◌, get_or, some, inr, refl, ◌≡◌, true, arith, zero, suc}
use ds5dongle.Parser.{
  Bytes, zero_state, parse_report, find_frame, parse_framed, basic_state, all_buttons, main_buttons,
  extra_buttons, set_button,
}
use ds5dongle.Parser.Bounds.{Agree, parse_report-Agree}
use ds5dongle.Parser.Framing.{SamePayload, hidp, parse_report-hidp}

-- A basic report of ten bytes with the triangle, L1 and the PS button, and what stands behind it.
abbrev basic_bytes : List ℕ
basic_bytes = 0x01 ∷ 10 ∷ 20 ∷ 30 ∷ 40 ∷ 5 ∷ 6 ∷ 0 ∷ 0x88 ∷ 0x01 ∷ []

abbrev basic_report : Bytes
basic_report i = get_or (basic_bytes ++ 0xff ∷ []) i 0

abbrev other_report : Bytes
other_report i = get_or basic_bytes i 7

reports-Agree : Agree 10 basic_report other_report
reports-Agree zero h = refl
reports-Agree (suc zero) h = refl
reports-Agree (suc (suc zero)) h = refl
reports-Agree (suc (suc (suc zero))) h = refl
reports-Agree (suc (suc (suc (suc zero)))) h = refl
reports-Agree (suc (suc (suc (suc (suc zero))))) h = refl
reports-Agree (suc (suc (suc (suc (suc (suc zero)))))) h = refl
reports-Agree (suc (suc (suc (suc (suc (suc (suc zero))))))) h = refl
reports-Agree (suc (suc (suc (suc (suc (suc (suc (suc zero)))))))) h = refl
reports-Agree (suc (suc (suc (suc (suc (suc (suc (suc (suc zero))))))))) h = refl
reports-Agree (suc (suc (suc (suc (suc (suc (suc (suc (suc (suc i)))))))))) h = absurd (omega arith)

parse_report-Agree_example :
    parse_report (some basic_report) 10 zero_state ≡ parse_report (some other_report) 10 zero_state
parse_report-Agree_example =
    parse_report-Agree 10 basic_report other_report zero_state reports-Agree

parse_report-hidp_example :
    SamePayload
      (parse_report (some (hidp basic_report)) (suc 10) zero_state)
      (parse_report (some basic_report) 10 zero_state)
parse_report-hidp_example = parse_report-hidp basic_report 10 zero_state (inr refl)

-- The triangle is bit 3, L1 is bit 4.
buttons_run : (parse_report (some basic_report) 10 zero_state).1.buttons ≡ 0x18
unfolding parse_report find_frame parse_framed basic_state all_buttons main_buttons extra_buttons
    set_button
buttons_run = refl

accepted_run : (parse_report (some basic_report) 10 zero_state).0 ≡ true
unfolding parse_report find_frame parse_framed
accepted_run = refl
