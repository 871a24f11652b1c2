-- ===== src/Realtime.antt =====
-- The realtime scheduler of m61/dualsense_hidp_probe/m61_realtime_scheduler.{h,c}: which of the
-- ready works the main loop does next.
mod Deadlines
mod Tests
use ds5dongle.Prelude.{
  ℕ, ◌+◌, ◌-◌, Bool, true, false, ◌&&◌, ◌||◌, not, Option, none, some, ltb, leb, ◌==◌,
  if◌then◌else◌, u64, has_bits, bit_and, uint32_max,
}

abbrev pub ready_encode : ℕ
ready_encode = 1

abbrev pub ready_decode : ℕ
ready_decode = 2

abbrev pub ready_bt_realtime : ℕ
ready_bt_realtime = 4

abbrev pub ready_usb_mic_low : ℕ
ready_usb_mic_low = 8

abbrev pub ready_hid_input : ℕ
ready_hid_input = 16

abbrev pub ready_hid_output : ℕ
ready_hid_output = 32

abbrev pub ready_control : ℕ
ready_control = 64

-- The three bits of the control works, joined.
abbrev pub control_bits : ℕ
control_bits = 112

abbrev pub bt_min_window_us : ℕ
bt_min_window_us = 1000

abbrev pub cache_guard_us : ℕ
cache_guard_us = 500

-- `m61_rt_action_t`
pub data Action : Type 0 where
  idle encode decode bt_window usb_mic control : Action

-- `m61_rt_codec_phase_t`
pub data CodecPhase : Type 0 where
  no_codec codec_encode codec_decode : CodecPhase

-- `m61_rt_snapshot_t`
pub record Snapshot : Type 0 where
  pub ready : ℕ
  pub now_us : ℕ
  pub encode_deadline_us : ℕ
  pub decode_deadline_us : ℕ
  pub encode_estimated_us : ℕ
  pub decode_estimated_us : ℕ
  pub bt_window_elapsed_us : ℕ
  pub encode_depth : ℕ
  pub decode_depth : ℕ
  pub last_codec : CodecPhase

-- `m61_rt_decision_t`
pub record Decision : Type 0 where
  pub action : Action
  pub ready_consumed : ℕ
  pub slack_us : ℕ
  pub deadline_forced : Bool

-- `job_slack_us`
unfoldable pub job_slack_us : ℕ → ℕ → ℕ → ℕ
job_slack_us now_us deadline_us estimated_us =
    let finish_us = u64 (now_us + estimated_us) in
    let slack_us = deadline_us - finish_us in
    if leb deadline_us finish_us
    then 0
    else if ltb uint32_max slack_us
    then uint32_max
    else slack_us

abbrev pub is_codec_encode : CodecPhase → Bool
is_codec_encode codec_encode = true
is_codec_encode _ = false

abbrev pub encode_slack : Snapshot → ℕ
encode_slack s =
    if has_bits s.ready ready_encode
    then job_slack_us s.now_us s.encode_deadline_us s.encode_estimated_us
    else uint32_max

abbrev pub decode_slack : Snapshot → ℕ
decode_slack s =
    if has_bits s.ready ready_decode
    then job_slack_us s.now_us s.decode_deadline_us s.decode_estimated_us
    else uint32_max

-- `decision` as it is before the first test.
abbrev pub idle_decision : Decision
idle_decision = record {
  action = idle;
  ready_consumed = 0;
  slack_us = uint32_max;
  deadline_forced = false;
}

-- `choose_encode`, where a codec job is ready.
unfoldable pub choose_encode : Snapshot → Bool
choose_encode s =
    let encode_ready = has_bits s.ready ready_encode in
    let decode_ready = has_bits s.ready ready_decode in
    let earlier = encode_ready && (not decode_ready || ltb (encode_slack s) (decode_slack s)) in
    let alternated =
      if encode_ready && decode_ready && (encode_slack s == decode_slack s)
      then not (is_codec_encode s.last_codec)
      else earlier in
    let backlog = if ltb 1 s.encode_depth && encode_ready then true else alternated in
    if ltb 1 s.decode_depth && decode_ready then false else backlog

unfoldable pub codec_decision : Snapshot → Bool → Decision
codec_decision s true = record {
  action = encode;
  ready_consumed = ready_encode;
  slack_us = encode_slack s;
  deadline_forced = leb (encode_slack s) cache_guard_us;
}
codec_decision s false = record {
  action = decode;
  ready_consumed = ready_decode;
  slack_us = decode_slack s;
  deadline_forced = leb (decode_slack s) cache_guard_us;
}

-- The Bluetooth window may open before the codec jobs: both can still wait for it.
abbrev pub window_fits : Snapshot → Bool
window_fits s =
    has_bits s.ready ready_bt_realtime
    && ltb s.bt_window_elapsed_us bt_min_window_us
    && ltb bt_min_window_us (encode_slack s)
    && ltb bt_min_window_us (decode_slack s)

-- What is left where neither the microphone, the window nor a codec job is chosen.
unfoldable pub rest_decision : Snapshot → Decision
rest_decision s =
    if has_bits s.ready ready_bt_realtime
    then (record idle_decision { action = bt_window; ready_consumed = ready_bt_realtime })
    else if has_bits s.ready control_bits
    then (record idle_decision { action = control; ready_consumed = bit_and s.ready control_bits })
    else idle_decision

-- `m61_realtime_scheduler_select`, for a snapshot that is not NULL.
unfoldable pub select_ready : Snapshot → Decision
unfolding codec_decision choose_encode rest_decision
select_ready s =
    if has_bits s.ready ready_usb_mic_low
    then (record {
      action = usb_mic;
      ready_consumed = ready_usb_mic_low;
      slack_us = 0;
      deadline_forced = true;
    })
    else if window_fits s
    then (record {
      action = bt_window;
      ready_consumed = ready_bt_realtime;
      slack_us = if ltb (encode_slack s) (decode_slack s) then encode_slack s else decode_slack s;
      deadline_forced = false;
    })
    else if has_bits s.ready ready_encode || has_bits s.ready ready_decode
    then codec_decision s (choose_encode s)
    else rest_decision s

-- `m61_realtime_scheduler_select`: a snapshot that is NULL is `none`.
unfoldable pub select : Option Snapshot → Decision
unfolding select_ready
select none = idle_decision
select (some s) = select_ready s
