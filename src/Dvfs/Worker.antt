-- ===== src/Dvfs/Worker.antt =====
-- The worker of m61_dvfs.c: dvfs_record_transition and one round of the loop of dvfs_worker. `apply`
-- is the error of dvfs_apply_hardware_frequency, `ticks_of` is pdMS_TO_TICKS.
use ds5dongle.Prelude.{
  ℕ, ◌+◌, Bool, true, false, ◌&&◌, ◌||◌, not, ltb, leb, ◌==◌, if◌then◌else◌, u32, inc32, uint32_max,
}
use ds5dongle.Dvfs.{
  Dvfs, Governor, manual, realtime, default_mhz, realtime_floor, tick_diff, tick_before,
}

-- `dvfs_record_transition`
unfoldable pub record_transition : ℕ → ℕ → Dvfs → Dvfs
record_transition requested error s =
    if error == 0
    then (record s {
      requested_mhz = requested;
      last_error = error;
      current_mhz = requested;
      transitions = inc32 s.transitions;
    })
    else (record s {
      requested_mhz = requested;
      last_error = error;
      current_mhz = default_mhz;
      transition_failures = inc32 s.transition_failures;
    })

-- The local variables of the loop.
pub record Worker : Type 0 where
  pub last_transition : ℕ
  pub downshift_since : ℕ
  pub pending_downshift : ℕ

abbrev pub is_manual : Governor → Bool
is_manual manual = true
is_manual realtime = false

abbrev pub downshift_delay_ms : ℕ
downshift_delay_ms = 2000

abbrev pub min_residency_ms : ℕ
min_residency_ms = 500

abbrev pub port_max_delay : ℕ
port_max_delay = uint32_max

-- `target`, the next expiry, and the state that dvfs_realtime_floor leaves.
unfoldable pub choose_target : ℕ → Dvfs → ℕ × ℕ × Dvfs
choose_target now s = if is_manual s.governor then (s.manual_mhz, 0, s) else realtime_floor now s

module _ (ticks_of : ℕ → ℕ) (apply : ℕ → ℕ) where
  -- A transition to the target at once.
  unfoldable pub shift : ℕ → ℕ → Worker → Dvfs → Worker × Dvfs
  unfolding record_transition
  shift now target w s = (
    record { last_transition = now; downshift_since = 0; pending_downshift = 0 },
    record_transition target (apply target) s,
  )

  -- A lower target: it must have been asked for long enough, and the last transition be long ago.
  unfoldable pub downshift : ℕ → ℕ → Worker → Dvfs → Worker × Dvfs
  unfolding shift
  downshift now target w s =
      let v =
        if w.pending_downshift == target
        then w
        else (record w { pending_downshift = target; downshift_since = now }) in
      if leb (ticks_of downshift_delay_ms) (tick_diff now v.downshift_since)
        && leb (ticks_of min_residency_ms) (tick_diff now v.last_transition)
      then shift now target v s
      else (v, s)

  -- The first half of a round: the transition, if there is one.
  unfoldable pub settle : ℕ → ℕ → Worker → Dvfs → Worker × Dvfs
  unfolding downshift
  settle now target w s =
      let t = record s { requested_mhz = target } in
      if ltb s.current_mhz target || (is_manual s.governor && not (target == s.current_mhz))
      then shift now target w t
      else if ltb target s.current_mhz
      then downshift now target w t
      else (record w { pending_downshift = 0; downshift_since = 0 }, t)

  -- `wait`, from the time of the second half.
  unfoldable pub wait_ticks : ℕ → ℕ → Worker → ℕ
  wait_ticks now next_expiry w =
      let deadline = u32 (w.downshift_since + ticks_of downshift_delay_ms) in
      let pending_wait =
        if w.pending_downshift == 0
        then port_max_delay
        else if tick_before now deadline
        then tick_diff deadline now
        else 1 in
      let expiry_wait = tick_diff next_expiry now in
      if not (next_expiry == 0)
        && tick_before now next_expiry
        && ((pending_wait == port_max_delay) || ltb expiry_wait pending_wait)
      then expiry_wait
      else pending_wait

  -- One round of `dvfs_worker`, at the times of its two readings of the tick: the state, its local
  -- variables, and how long it waits for a notification.
  unfoldable pub worker_round : ℕ → ℕ → Worker → Dvfs → ℕ × Worker × Dvfs
  unfolding choose_target settle wait_ticks
  worker_round now later w s =
      let (target, next_expiry, t) = choose_target now s in
      let (v, u) = settle now target w t in (wait_ticks later next_expiry v, v, u)

-- What ulTaskNotifyTake leaves: no notification waits.
abbrev pub take_notification : Dvfs → Dvfs
take_notification s = record s { notified = false }
