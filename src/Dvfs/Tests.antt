-- ===== src/Dvfs/Tests.antt =====
-- Runs of the CPU frequency control at concrete inputs, and the theorems at inputs that meet their
-- hypotheses.
use ds5dongle.Prelude.{
  ℕ, ◌≡◌, ◌≤◌, ◌<◌, ◌↔◌, true, false, List, [], ◌∷◌, none, some, arith, refl, ◌==◌,
}
use ds5dongle.Dvfs.{
  Dvfs, realtime, initial, zero_client, frequency_valid, realtime_floor, tick_diff, tick_before,
}
use ds5dongle.Dvfs.Floors.{MeetsAll, realtime_floor_lem}
use ds5dongle.Dvfs.Worker.{
  Worker, worker_round, settle, choose_target, downshift_delay_ms, min_residency_ms,
}
use ds5dongle.Dvfs.Requests.{set_custom_frequency, request_boost, set_governor}
use ds5dongle.Dvfs.Valid.{Valid}
use ds5dongle.Dvfs.Run.{
  run, run-Valid, call_init, call_set_governor, call_request_boost, call_worker_round,
  call_set_custom_frequency, Call,
}
use ds5dongle.Dvfs.Saved.{SavedConfig, init, save_persistent_config, init-save_persistent_config}
use ds5dongle.Dvfs.Shifts.{worker_round-MeetsAll, worker_round_delayed}
use ds5dongle.Dvfs.Clock.{
  Sdk, band_unknown, pll, apply_hardware_frequency, runs_safely, final_selected, source_of, on_pll,
  xtal, root_xclk, tune_sdmin,
}
use ds5dongle.Dvfs.Switching.{apply_hardware_frequency_safe}

abbrev ticks : ℕ → ℕ
ticks ms = ms

abbrev works : ℕ → ℕ
works mhz = 0

-- The Bluetooth client asks for 360 MHz, and the application has a boost to 400 MHz until the tick
-- 5000; the speaker is live until 4000.
abbrev busy : Dvfs
busy = record initial {
  governor = realtime;
  current_mhz = 400;
  clients =
      zero_client
      ∷ record zero_client { floor = 360 }
      ∷ zero_client
      ∷ record { floor = 0; boost = 400; boost_until = 5000 }
      ∷ [];
  speaker_active = true;
  speaker_active_until = 4000;
}

busy_floors :
    ((realtime_floor 3000 busy).0 ≡ 400)
    × ((realtime_floor 3000 busy).1 ≡ 4000)
    × ((realtime_floor 6000 busy).0 ≡ 360)
unfolding realtime_floor tick_before
busy_floors = (refl, refl, refl)

realtime_floor_lem_example : MeetsAll 3000 400 busy ↔ ((realtime_floor 3000 busy).0 ≤ 400)
realtime_floor_lem_example = realtime_floor_lem 3000 busy 400

abbrev waiting : Worker
waiting = record { last_transition = 1000; downshift_since = 6000; pending_downshift = 360 }

worker_round-MeetsAll_example :
    MeetsAll 3000 (worker_round ticks works 3000 3001 waiting busy).2.current_mhz busy
worker_round-MeetsAll_example = worker_round-MeetsAll ticks works 3000 3001 waiting busy refl refl

downshifts : (worker_round ticks works 8000 8001 waiting busy).2.current_mhz < busy.current_mhz
unfolding worker_round settle choose_target realtime_floor tick_before
downshifts = omega arith

worker_round_delayed_example :
    (waiting.pending_downshift ≡ (realtime_floor 8000 busy).0)
    × (ticks downshift_delay_ms ≤ tick_diff 8000 waiting.downshift_since)
    × (ticks min_residency_ms ≤ tick_diff 8000 waiting.last_transition)
worker_round_delayed_example =
    worker_round_delayed ticks works 8000 8001 waiting busy refl refl (omega arith) downshifts

abbrev chosen : Dvfs
chosen = record initial { manual_mhz = 384 }

-- Start-up, a boost, a custom frequency above the validated range, and two rounds of the worker.
abbrev calls : List Call
calls =
    call_init works none true 0
    ∷ call_set_governor (some realtime)
    ∷ call_request_boost 10 3 384 50
    ∷ call_worker_round works 11 12
    ∷ call_set_custom_frequency 450 true
    ∷ call_worker_round works 20 21
    ∷ []

run-Valid_example : Valid (run ticks calls (waiting, initial)).1
run-Valid_example = run-Valid ticks calls waiting

calls_end : (run ticks calls (waiting, initial)).1.current_mhz ≡ 450
unfolding run worker_round settle init frequency_valid choose_target realtime_floor tick_before
    set_custom_frequency request_boost set_governor
calls_end = refl

abbrev saved : SavedConfig
saved = record { magic = 0x44564631; manual_mhz = 384; governor = 0; manual_profile = 0 }

abbrev loaded : Dvfs
loaded = record chosen { persistent_config_loaded = true }

saves : save_persistent_config true chosen ≡ (0, some saved, loaded)
unfolding save_persistent_config
saves = refl

abbrev started : Dvfs
started = record loaded {
  initialized = true;
  current_mhz = 384;
  requested_mhz = 384;
  transitions = 1;
  task = true;
}

starts : init works (some saved) true 320 initial ≡ (0, started)
unfolding init frequency_valid
starts = refl

init-save_persistent_config_example :
    (started.manual_mhz ≡ chosen.manual_mhz)
    × (started.governor ≡ chosen.governor)
    × (started.manual_profile ≡ chosen.manual_profile)
    × (started.current_mhz ≡ chosen.manual_mhz)
init-save_persistent_config_example =
    init-save_persistent_config works true 320 chosen (omega arith) (omega arith) saves starts

abbrev sdk : Sdk
sdk = record { div_ok = λ n. true; xtal_is_40m = true; config_ok = λ b. true }

apply_hardware_frequency_safe_example :
    let ops = (apply_hardware_frequency sdk xtal band_unknown 400).2 in
    let after = final_selected ops (on_pll xtal 3) in
    (runs_safely ops (on_pll xtal 3) ≡ true) × (after.root_is_pll ≡ true) × (after.xclk ≡ xtal)
apply_hardware_frequency_safe_example = apply_hardware_frequency_safe sdk xtal band_unknown 400 3

-- With the crystal left selected, the same requests would tune the audio PLL on the crystal.
not_on_crystal : runs_safely (root_xclk ∷ tune_sdmin 81920 ∷ []) (on_pll xtal 3) ≡ false
unfolding runs_safely
not_on_crystal = refl

-- The last setting of the divider fails: the answer is an error, but the audio PLL feeds the CPU.
abbrev sticky : Sdk
sticky = record sdk { div_ok = λ n. n == 0 }

left_on_aupll :
    ((apply_hardware_frequency sticky xtal band_unknown 400).0 ≡ 5)
    × (source_of
          (final_selected (apply_hardware_frequency sticky xtal band_unknown 400).2 (on_pll xtal 3))
        ≡ pll 1)
unfolding apply_hardware_frequency final_selected frequency_valid
left_on_aupll = (refl, refl)
