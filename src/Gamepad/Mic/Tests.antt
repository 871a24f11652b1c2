-- ===== src/Gamepad/Mic/Tests.antt =====
-- Runs of the ring of microphone packets in m61_usb_gamepad.c at concrete inputs.
use ds5dongle.Prelude.{true, false, List, [], ◌∷◌, ◌≡◌, ◌≢◌, refl, arith}
use ds5dongle.Gamepad.Mic.{
  suspend, Mic, state_of, is_unused, is_filling, is_ready, is_dma, flush, push_begin, push_next,
  push_packet, prepare_audio_in, start_failed, packet_sent, audio_in_callback,
}
use ds5dongle.Gamepad.Mic.Steps.{packets}
use ds5dongle.Gamepad.Mic.Run.{
  Event, begin, packet, prepare, refused, sent, suspended, step, run, run_fills_no_sent,
}

abbrev boot : Mic
boot = record {
  states = [];
  nonzero = [];
  producer_cursor = 3;
  consumer_cursor = 5;
  active_slot = 1;
  count = 9;
  in_busy = false;
  dropped = 0;
  underflow = 0;
}

-- Two packets are filled, the first transfer does not start, the second does, and a third packet begins.
abbrev events : List Event
events =
    begin
    ∷ packet true true 0
    ∷ packet false false 1
    ∷ prepare true true
    ∷ refused 0
    ∷ prepare true true
    ∷ begin
    ∷ []

after_events :
    ((run events (flush boot)).count ≡ 2)
    × ((run events (flush boot)).active_slot ≡ 0)
    × (is_dma (state_of (run events (flush boot)) 0) ≡ true)
    × (is_ready (state_of (run events (flush boot)) 1) ≡ true)
    × (is_filling (state_of (run events (flush boot)) 2) ≡ true)
unfolding run step flush push_begin push_next push_packet prepare_audio_in start_failed is_unused
    is_filling is_ready is_dma
after_events = (refl, refl, refl, refl, refl)

-- Both packets are sent, and then zeros, which is an underflow.
after_all :
    ((run (events) (flush boot)).underflow ≡ 0)
    × ((run (sent true true ∷ sent true true ∷ []) (run events (flush boot))).count ≡ 0)
    × ((run (sent true true ∷ sent true true ∷ []) (run events (flush boot))).underflow ≡ 1)
unfolding run step flush push_begin push_next push_packet prepare_audio_in start_failed packet_sent
    audio_in_callback is_unused is_filling is_ready is_dma
after_all = (refl, refl, refl)

-- USB is suspended while the packet of slot 0 is sent, and its transfer never ends. From then on only zeros
-- are prepared, though packet 1 is ready: the cursor stays at a slot that is marked as being sent.
abbrev events_suspended : List Event
events_suspended = suspended ∷ prepare true true ∷ sent true true ∷ sent true true ∷ []

after_suspend :
    let after = run events_suspended (run events (flush boot)) in
    (after.active_slot ≡ 255)
    × (is_dma (state_of after 0) ≡ true)
    × (is_ready (state_of after 1) ≡ true)
    × (after.consumer_cursor ≡ 0)
    × (after.underflow ≡ 3)
unfolding run step flush suspend push_begin push_next push_packet prepare_audio_in start_failed
    packet_sent audio_in_callback is_unused is_filling is_ready is_dma
after_suspend = (refl, refl, refl, refl, refl)

run_fills_no_sent_example :
    let after = run events (flush boot) in
    (after.count ≡ packets after.states)
    × (after.active_slot ≡ 2 → is_dma (state_of after 2) ≡ true)
    × (is_filling (state_of after 2) ≡ true → after.active_slot ≢ 2)
    × (is_dma (state_of after 2) ≡ true → after.consumer_cursor ≡ 2)
run_fills_no_sent_example = run_fills_no_sent events boot 2 (omega arith)
