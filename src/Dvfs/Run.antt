-- ===== src/Dvfs/Run.antt =====
-- Sequences of the calls of m61_dvfs.h and of rounds of the worker, each with the answers that the flash
-- store gives at its time, and with the error that `dvfs_apply_hardware_frequency` returns for each
-- frequency: any function, of which the calls of that function in Dvfs/Clock are some. What the CPU itself runs
-- at is the matter of Dvfs/Switching.
use ds5dongle.Prelude.{ℕ, Bool, Option, List, [], ◌∷◌, arith}
use ds5dongle.Dvfs.{Dvfs, Governor, initial}
use ds5dongle.Dvfs.Requests.{
  set_profile, set_custom_frequency, set_governor, request_floor, request_boost, set_audio_enabled,
  note_audio_activity, get_status,
}
use ds5dongle.Dvfs.Worker.{Worker, worker_round, take_notification}
use ds5dongle.Dvfs.Saved.{SavedConfig, init, save_persistent_config, clear_persistent_config}
use ds5dongle.Dvfs.Valid.{Valid, worker_round-Valid}
use ds5dongle.Dvfs.Calls.{
  set_profile-Valid, set_custom_frequency-Valid, set_governor-Valid, request_floor-Valid,
  request_boost-Valid, set_audio_enabled-Valid, note_audio_activity-Valid, get_status-Valid,
  init-Valid,
}

pub data Call : Type 0 where
  call_init : (ℕ → ℕ) → Option SavedConfig → Bool → ℕ → Call
  call_set_profile : ℕ → Call
  call_set_custom_frequency : ℕ → Bool → Call
  call_set_governor : Option Governor → Call
  call_save call_clear : Bool → Call
  call_request_floor : ℕ → ℕ → Call
  call_request_boost : ℕ → ℕ → ℕ → ℕ → Call
  call_set_audio_enabled : Bool → Bool → Bool → Call
  call_note_audio_activity : ℕ → Bool → Bool → Call
  call_get_status : ℕ → Call
  call_worker_round : (ℕ → ℕ) → ℕ → ℕ → Call

module _ (ticks_of : ℕ → ℕ) where
  -- A call, and the local variables of the worker.
  unfoldable pub step : Call → Worker × Dvfs → Worker × Dvfs
  step (call_init apply stored created boot) (w, s) = (w, (init apply stored created boot s).1)
  step (call_set_profile profile) (w, s) = (w, (set_profile profile s).1)
  step (call_set_custom_frequency mhz allowed) (w, s) = (w, (set_custom_frequency mhz allowed s).1)
  step (call_set_governor g) (w, s) = (w, (set_governor g s).1)
  step (call_save written) (w, s) = (w, (save_persistent_config written s).2)
  step (call_clear deleted) (w, s) = (w, (clear_persistent_config deleted s).1)
  step (call_request_floor client mhz) (w, s) = (w, (request_floor client mhz s).1)
  step (call_request_boost now client mhz hold) (w, s) =
      (w, (request_boost ticks_of now client mhz hold s).1)
  step (call_set_audio_enabled speaker mic stereo) (w, s) =
      (w, set_audio_enabled speaker mic stereo s)
  step (call_note_audio_activity now speaker mic) (w, s) =
      (w, note_audio_activity ticks_of now speaker mic s)
  step (call_get_status now) (w, s) = (w, (get_status now s).1)
  step (call_worker_round apply now later) (w, s) =
      let (wait, v, t) = worker_round ticks_of apply now later w s in (v, take_notification t)

  unfoldable pub run : List Call → Worker × Dvfs → Worker × Dvfs
  unfolding step
  run [] x = x
  run (c ∷ cs) x = run cs (step c x)

  save-Valid : (written : Bool) (s : Dvfs) → Valid s → Valid (save_persistent_config written s).2
  unfolding save_persistent_config
  save-Valid written s v = ground arith

  clear-Valid : (deleted : Bool) (s : Dvfs) → Valid s → Valid (clear_persistent_config deleted s).1
  unfolding clear_persistent_config
  clear-Valid deleted s v = ground arith

  step-Valid : (c : Call) (w : Worker) (s : Dvfs) → Valid s → Valid (step c (w, s)).1
  unfolding step
  step-Valid (call_init apply stored created boot) w s v = init-Valid apply stored created boot s v
  step-Valid (call_set_profile profile) w s v = set_profile-Valid profile s v
  step-Valid (call_set_custom_frequency mhz allowed) w s v =
      set_custom_frequency-Valid mhz allowed s v
  step-Valid (call_set_governor g) w s v = set_governor-Valid g s v
  step-Valid (call_save written) w s v = save-Valid written s v
  step-Valid (call_clear deleted) w s v = clear-Valid deleted s v
  step-Valid (call_request_floor client mhz) w s v = request_floor-Valid client mhz s v
  step-Valid (call_request_boost now client mhz hold) w s v =
      request_boost-Valid ticks_of now client mhz hold s v
  step-Valid (call_set_audio_enabled speaker mic stereo) w s v =
      set_audio_enabled-Valid speaker mic stereo s v
  step-Valid (call_note_audio_activity now speaker mic) w s v =
      note_audio_activity-Valid ticks_of now speaker mic s v
  step-Valid (call_get_status now) w s v = get_status-Valid now s v
  step-Valid (call_worker_round apply now later) w s v =
      worker_round-Valid ticks_of apply now later w s v

  run_from-Valid : (cs : List Call) (w : Worker) (s : Dvfs) → Valid s → Valid (run cs (w, s)).1
  unfolding run
  run_from-Valid [] w s v = v
  run_from-Valid (c ∷ cs) w s v =
      run_from-Valid cs (step c (w, s)).0 (step c (w, s)).1 (step-Valid c w s v)

  -- Behind any calls of a new module, whatever error each clock switch answers and whatever the flash store
  -- answers, the frequency that the module records as the CPU's (`current_mhz`) is 320 to 480 MHz, the manual
  -- frequency lies in that range and above 400 MHz only where it is marked as experimental, and every client
  -- asks for nothing or for 320 to 400 MHz.
  pub run-Valid : (cs : List Call) (w : Worker) → Valid (run cs (w, initial)).1
  run-Valid cs w = run_from-Valid cs w initial (ground arith)
