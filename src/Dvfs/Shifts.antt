-- ===== src/Dvfs/Shifts.antt =====
-- When the worker changes the frequency: upwards at once, downwards only behind the delay and the
-- residency.
use ds5dongle.Prelude.{ℕ, ◌≤◌, ◌<◌, ◌≡◌, true, false, arith, refl, subst}
use ds5dongle.Dvfs.{Dvfs, tick_diff, realtime_floor}
use ds5dongle.Dvfs.Worker.{
  Worker, settle, worker_round, choose_target, is_manual, downshift_delay_ms, min_residency_ms,
}
use ds5dongle.Dvfs.Floors.{MeetsAll, realtime_floor_lem}

choose_target_realtime :
    (now : ℕ) (s : Dvfs) → is_manual s.governor ≡ false → choose_target now s ≡ realtime_floor now s
unfolding choose_target
choose_target_realtime now s g = rw g refl

module _ (ticks_of : ℕ → ℕ) (apply : ℕ → ℕ) where
  -- One settling without the manual governor, of a transition that succeeds.
  settle_meets :
      (now target : ℕ) (w : Worker) (s : Dvfs)
      → is_manual s.governor ≡ false
      → apply target ≡ 0
      → target ≤ (settle ticks_of apply now target w s).1.current_mhz
  unfolding settle
  settle_meets now target w s g ok = ground arith

  tick_diff_self : (now : ℕ) → tick_diff now now ≡ 0
  tick_diff_self now = omega arith

  settle_delayed :
      (now target : ℕ) (w : Worker) (s : Dvfs)
      → is_manual s.governor ≡ false
      → apply target ≡ 0
      → 0 < ticks_of downshift_delay_ms
      → (settle ticks_of apply now target w s).1.current_mhz < s.current_mhz
      → (w.pending_downshift ≡ target)
        × (ticks_of downshift_delay_ms ≤ tick_diff now w.downshift_since)
        × (ticks_of min_residency_ms ≤ tick_diff now w.last_transition)
  unfolding settle
  settle_delayed now target w s g ok positive lower = ground (arith, tick_diff_self now)

  settle_manual :
      (now target : ℕ) (w : Worker) (s : Dvfs)
      → is_manual s.governor ≡ true
      → apply target ≡ 0
      → (settle ticks_of apply now target w s).1.current_mhz ≡ target
  unfolding settle
  settle_manual now target w s g ok = ground arith

  -- Behind a round under the realtime governor, whose transition, if it makes one, succeeds, the CPU
  -- meets 320 MHz, every floor, and the boosts and audio leases that are alive at the time of the
  -- round.
  pub worker_round-MeetsAll :
      (now later : ℕ) (w : Worker) (s : Dvfs)
      → is_manual s.governor ≡ false
      → apply (realtime_floor now s).0 ≡ 0
      → MeetsAll now (worker_round ticks_of apply now later w s).2.current_mhz s
  unfolding worker_round choose_target realtime_floor
  worker_round-MeetsAll now later w s g ok =
      let (target, expiry, t) = realtime_floor now s in
      (realtime_floor_lem now s (worker_round ticks_of apply now later w s).2.current_mhz).1
        (rw g (settle_meets now target w t g ok))

  -- A round under the realtime governor that lowers the frequency, by a transition that succeeds, had
  -- the lower target pending for 2000 ms, and the last transition is 500 ms ago.
  pub worker_round_delayed :
      (now later : ℕ) (w : Worker) (s : Dvfs)
      → is_manual s.governor ≡ false
      → apply (realtime_floor now s).0 ≡ 0
      → 0 < ticks_of downshift_delay_ms
      → (worker_round ticks_of apply now later w s).2.current_mhz < s.current_mhz
      → (w.pending_downshift ≡ (realtime_floor now s).0)
        × (ticks_of downshift_delay_ms ≤ tick_diff now w.downshift_since)
        × (ticks_of min_residency_ms ≤ tick_diff now w.last_transition)
  unfolding worker_round realtime_floor
  worker_round_delayed now later w s g ok positive lower =
      let (target, expiry, t) = realtime_floor now s in
      settle_delayed now target w t g ok positive (
        subst
          (λ (r : ℕ × ℕ × Dvfs).
            (settle ticks_of apply now r.0 w r.2).1.current_mhz < s.current_mhz)
          (choose_target_realtime now s g) lower)

  -- A frequency that is set by hand is applied by the next round, up or down, where its transition
  -- succeeds.
  pub worker_round_manual :
      (now later : ℕ) (w : Worker) (s : Dvfs)
      → is_manual s.governor ≡ true
      → apply s.manual_mhz ≡ 0
      → (worker_round ticks_of apply now later w s).2.current_mhz ≡ s.manual_mhz
  unfolding worker_round choose_target
  worker_round_manual now later w s g ok = rw g (settle_manual now s.manual_mhz w s g ok)
