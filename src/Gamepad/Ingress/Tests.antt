-- ===== src/Gamepad/Ingress/Tests.antt =====
-- Runs of the ring of audio packets in m61_usb_gamepad.c at concrete inputs.
use ds5dongle.Prelude.{true, false, List, [], ◌∷◌, ◌==◌, ◌≡◌, ◌≢◌, refl, arith}
use ds5dongle.AudioEpoch.Allocate.{init}
use ds5dongle.Gamepad.Ingress.{
  reset_audio_pipeline, Ingress, state_at, is_free, is_dma, is_ready, is_reading, init_ingress,
  find_from, find_free_slot, arm_begin, packet_received, take_audio_ingress,
}
use ds5dongle.Gamepad.Ingress.Tracked.{busy}
use ds5dongle.Gamepad.Ingress.Run.{Event, arm, received, take, step, run, run_keeps_packets}

abbrev boot : Ingress
boot = record {
  slots = [];
  producer_cursor = 3;
  consumer_cursor = 5;
  active_slot = 0;
  count = 9;
  high_water = 0;
  dropped = 0;
  next_sequence = 0;
  armed = true;
  audio_generation = 1;
  epochs = init 1;
}

-- Two packets arrive, the first is being read, and a third transfer is under way.
abbrev events : List Event
events =
    arm true true
    ∷ received 1000 392
    ∷ arm true true
    ∷ received 2000 392
    ∷ take
    ∷ arm true false
    ∷ []

after_events :
    ((run events (init_ingress boot)).count ≡ 2)
    × (is_reading (state_at (run events (init_ingress boot)).slots 0) ≡ true)
    × (is_ready (state_at (run events (init_ingress boot)).slots 1) ≡ true)
    × ((run events (init_ingress boot)).active_slot ≡ 2)
unfolding run step init_ingress find_from find_free_slot arm_begin packet_received
    take_audio_ingress is_free is_dma is_ready is_reading
after_events = (refl, refl, refl, refl)

run_keeps_packets_example :
    let after = run (events) (init_ingress boot) in
    let cleared = reset_audio_pipeline true after in
    (after.count ≡ busy after.slots)
    × (is_dma (state_at after.slots 2) ≡ (after.active_slot == 2))
    × (is_ready (state_at after.slots 2) ≡ true → after.active_slot ≢ 2)
    × (is_reading (state_at after.slots 2) ≡ true → after.active_slot ≢ 2)
    × (cleared.active_slot ≡ 255)
    × (cleared.armed ≡ false)
    × (is_dma (state_at cleared.slots 2) ≡ false)
    × (is_ready (state_at cleared.slots 2) ≡ false)
    × (is_reading (state_at cleared.slots 2) ≡ is_reading (state_at after.slots 2))
run_keeps_packets_example = run_keeps_packets events boot 2 true (omega arith)
