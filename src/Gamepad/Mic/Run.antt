-- ===== src/Gamepad/Mic/Run.antt =====
-- Steps of the decoder task, the USB interrupt and the control requests on the ring of microphone
-- packets, in any order.
use ds5dongle.Prelude.{ℕ, ◌<◌, Bool, true, false, List, [], ◌∷◌, ◌≡◌, ◌≢◌, arith}
use ds5dongle.Gamepad.Mic.{
  Mic, state_of, is_filling, is_dma, flush, push_begin, push_packet, prepare_audio_in, start_failed,
  packet_sent, audio_in_callback, suspend, restart,
}
use ds5dongle.Gamepad.Mic.Steps.{IsValid, packets}
use ds5dongle.Gamepad.Mic.Kept.{
  filling-facts, begun-IsValid, packet-IsValid, prepared-IsValid, failed-IsValid, sent-IsValid,
  suspended-IsValid, flush-IsValid,
}

-- A step of the ring. `refused` is that the transfer of a slot, or of zeros with the slot 255, does not
-- start, whatever happened since it was prepared.
pub data Event : Type 0 where
  begin : Event
  packet : Bool → Bool → ℕ → Event
  prepare : Bool → Bool → Event
  refused : ℕ → Event
  sent : Bool → Bool → Event
  flushed : Event
  suspended : Event
  restarted : Event

unfoldable pub step : Event → Mic → Mic
step begin s = (push_begin s).1
step (packet samples more i) s = (push_packet samples more i s).1
step (prepare may_send wanted) s = (prepare_audio_in may_send wanted s).1
step (refused i) s = start_failed i s
step (sent may_send wanted) s = (audio_in_callback may_send wanted s).1
step flushed s = flush s
step suspended s = suspend s
step restarted s = restart s

unfoldable pub run : List Event → Mic → Mic
run [] s = s
run (e ∷ es) s = run es (step e s)

step-IsValid : (e : Event) (s : Mic) → IsValid s → IsValid (step e s)
unfolding step audio_in_callback restart
step-IsValid begin s v = begun-IsValid s v
step-IsValid (packet samples more i) s v = packet-IsValid samples more i s v
step-IsValid (prepare may_send wanted) s v = prepared-IsValid may_send wanted s v
step-IsValid (refused i) s v = failed-IsValid i s v
step-IsValid (sent may_send wanted) s v =
    prepared-IsValid may_send wanted (packet_sent s) (sent-IsValid s v)
step-IsValid flushed s v = flush-IsValid s
step-IsValid suspended s v = suspended-IsValid s v
step-IsValid restarted s v = flush-IsValid (record s { in_busy = false })

run-IsValid : (es : List Event) (s : Mic) → IsValid s → IsValid (run es s)
unfolding run
run-IsValid [] s v = v
run-IsValid (e ∷ es) s v = run-IsValid es (step e s) (step-IsValid e s v)

-- Behind the flush of initialization, in whatever order packets are filled, sent, refused and flushed, and
-- USB is suspended, reset or restarted, the count of packets is the number of slots whose packet waits or
-- is marked as being sent; the active slot is marked so, and is never one that is being filled; and a slot
-- that is marked is the one that the consumer's cursor points to, so that no two are.
pub run_fills_no_sent :
    (es : List Event) (s : Mic) (i : ℕ)
    → i < 32
    → (let after = run es (flush s) in
        (after.count ≡ packets after.states)
        × (after.active_slot ≡ i → is_dma (state_of after i) ≡ true)
        × (is_filling (state_of after i) ≡ true → after.active_slot ≢ i)
        × (is_dma (state_of after i) ≡ true → after.consumer_cursor ≡ i))
run_fills_no_sent es s i low =
    let after = run es (flush s) in
    let v = run-IsValid es (flush s) (flush-IsValid s) in
    (
      v.counted,
      v.active i low,
      (λ fill e. ground (arith, v.active i low e, (filling-facts (state_of after i) fill).0)),
      v.cursor i low,
    )
