-- ===== src/Gamepad/Ingress/Run.antt =====
-- Steps of the interrupt, the USB calls and the ingress task in any order.
use ds5dongle.Prelude.{
  if◌then◌else◌, not, ◌&&◌, false, ℕ, ◌<◌, Bool, true, List, [], ◌∷◌, ◌==◌, ◌≡◌, ◌≢◌, refl, sym,
  arith, ◌∙◌,
}
use ds5dongle.Gamepad.Ingress.{
  Ingress, state_at, is_dma, is_ready, is_reading, init_ingress, arm_begin, arm_failed,
  packet_received, take_audio_ingress, release_audio_ingress, reset_audio_pipeline,
}
use ds5dongle.Gamepad.Ingress.Tracked.{reset_slots-state, busy, reading-dma, ready-dma}
use ds5dongle.Gamepad.Ingress.Steps.{
  IsValid, held_by_transfer, arm-IsValid, arm_failed-IsValid, received-IsValid, take-IsValid,
  release-IsValid, reset-IsValid,
}

pub data Event : Type 0 where
  arm : Bool → Bool → Event
  arm_refused : ℕ → Event
  received : ℕ → ℕ → Event
  take : Event
  release : ℕ → Event
  reset : Bool → Event

unfoldable pub step : Event → Ingress → Ingress
step (arm may_arm speaker_enabled) s = (arm_begin may_arm speaker_enabled s).1
step (arm_refused i) s = arm_failed i s
step (received captured_us nbytes) s = (packet_received captured_us nbytes s).1
step take s = (take_audio_ingress s).1
step (release i) s = release_audio_ingress i s
step (reset cancel) s = reset_audio_pipeline cancel s

unfoldable pub run : List Event → Ingress → Ingress
run [] s = s
run (e ∷ es) s = run es (step e s)

step-IsValid : (e : Event) (s : Ingress) → IsValid s → IsValid (step e s)
unfolding step
step-IsValid (arm may_arm speaker_enabled) s v = arm-IsValid may_arm speaker_enabled s v
step-IsValid (arm_refused i) s v = arm_failed-IsValid i s v
step-IsValid (received captured_us nbytes) s v = received-IsValid captured_us nbytes s v
step-IsValid take s v = take-IsValid s v
step-IsValid (release i) s v = release-IsValid i s v
step-IsValid (reset cancel) s v = reset-IsValid cancel s v

run-IsValid : (es : List Event) (s : Ingress) → IsValid s → IsValid (run es s)
unfolding run
run-IsValid [] s v = v
run-IsValid (e ∷ es) s v = run-IsValid es (step e s) (step-IsValid e s v)

init-IsValid : (s : Ingress) → IsValid (init_ingress s)
unfolding init_ingress is_dma is_ready is_reading
init-IsValid s = record {
  size = refl;
  tracked = (refl, (refl, (refl, (refl, (refl, (refl, (refl, (refl, tt))))))));
  counted = refl;
}

-- In whatever order transfers are started, refused and finished, packets are taken and released, and the
-- pipeline is reset, the count of packets is the number of slots whose packet waits or is read, and a slot
-- is marked for a transfer exactly if it is the active one; so the active slot is never one whose packet
-- waits or is read. A reset behind that leaves no slot active or marked and no transfer armed where it
-- cancels the transfer, and else the active slot, its mark and the transfer as they were; no packet waits
-- behind it, and those that are read stay.
pub run_keeps_packets :
    (es : List Event) (s : Ingress) (i : ℕ) (cancel : Bool)
    → i < 8
    → (let after = run es (init_ingress s) in
        let cleared = reset_audio_pipeline cancel after in
        (after.count ≡ busy after.slots)
        × (is_dma (state_at after.slots i) ≡ (after.active_slot == i))
        × (is_ready (state_at after.slots i) ≡ true → after.active_slot ≢ i)
        × (is_reading (state_at after.slots i) ≡ true → after.active_slot ≢ i)
        × (cleared.active_slot ≡ (if cancel then 255 else after.active_slot))
        × (cleared.armed ≡ (not cancel && after.armed))
        × (is_dma (state_at cleared.slots i) ≡ (not cancel && is_dma (state_at after.slots i)))
        × (is_ready (state_at cleared.slots i) ≡ false)
        × (is_reading (state_at cleared.slots i) ≡ is_reading (state_at after.slots i)))
unfolding reset_audio_pipeline
run_keeps_packets es s i cancel low =
    let after = run es (init_ingress s) in
    let v = run-IsValid es (init_ingress s) (init-IsValid s) in
    let held = held_by_transfer after i v low in
    let kept = reset_slots-state cancel after.slots i in
    (
      v.counted,
      held,
      (λ waits e. ground (arith, sym held ∙ ready-dma (state_at after.slots i) waits, e)),
      (λ read e. ground (arith, sym held ∙ reading-dma (state_at after.slots i) read, e)),
      refl,
      disarmed cancel after.armed,
      kept.0,
      kept.1,
      kept.2,
    )
  where
    disarmed : (c armed : Bool) → (if c then false else armed) ≡ (not c && armed)
    disarmed true armed = refl
    disarmed false armed = refl
