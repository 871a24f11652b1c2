-- ===== src/Realtime/Deadlines.antt =====
-- What m61_realtime_scheduler_select promises: it does only ready work, rests only where nothing is
-- ready, and serves the codec job with the least slack.
use ds5dongle.Prelude.{
  ℕ, ◌+◌, ◌≤◌, ◌<◌, ◌≡◌, ◌≢◌, Bool, true, false, ◌||◌, some, arith, has_bits, ◌⊎◌, ◌↔◌, bit_and,
  uint32_max, ◌^◌, min,
}
use ds5dongle.Realtime.{
  Snapshot, Action, CodecPhase, idle, encode, decode, bt_window, codec_encode, ready_encode,
  ready_decode, ready_bt_realtime, ready_usb_mic_low, control_bits, job_slack_us, encode_slack,
  decode_slack, select, bt_min_window_us,
}

-- Something that the scheduler serves is ready.
abbrev pub is_busy : ℕ → Bool
is_busy ready =
    has_bits ready ready_usb_mic_low
    || has_bits ready ready_bt_realtime
    || has_bits ready ready_encode
    || has_bits ready ready_decode
    || has_bits ready control_bits

-- The scheduler is idle exactly where nothing is ready; otherwise what it consumes was ready.
pub select_busy :
    (s : Snapshot)
    → (((select (some s)).action ≡ idle) ↔ (is_busy s.ready ≡ false))
      × (((select (some s)).action ≡ idle)
          ⊎ (has_bits s.ready (select (some s)).ready_consumed ≡ true)
          ⊎ ((select (some s)).ready_consumed ≡ bit_and s.ready control_bits))
unfolding select
select_busy s = ground arith

encode_slack-le : (s : Snapshot) → encode_slack s ≤ uint32_max
unfolding job_slack_us
encode_slack-le s = ground arith

decode_slack-le : (s : Snapshot) → decode_slack s ≤ uint32_max
unfolding job_slack_us
decode_slack-le s = ground arith

-- Where a codec job is ready, the microphone is not, and no codec queue is backed up, the decision is
-- bound by the smaller of the two slacks: the codec job with less slack is done, or a window that
-- both can wait for.
pub slack_us-select :
    (s : Snapshot)
    → has_bits s.ready ready_usb_mic_low ≡ false
    → (has_bits s.ready ready_encode || has_bits s.ready ready_decode) ≡ true
    → s.encode_depth ≤ 1
    → s.decode_depth ≤ 1
    → (select (some s)).slack_us ≡ min (encode_slack s) (decode_slack s)
unfolding select
slack_us-select s m r e d = ground (arith, encode_slack-le s, decode_slack-le s)

-- The window is opened only where both slacks are above its 1000 us.
select_window :
    (s : Snapshot)
    → (select (some s)).action ≡ bt_window
    → (bt_min_window_us < encode_slack s) × (bt_min_window_us < decode_slack s)
unfolding select
select_window s w = ground arith

job_slack_us-lt :
    (now deadline estimated window : ℕ)
    → now + estimated < 2 ^ 64
    → window < job_slack_us now deadline estimated
    → now + window + estimated < deadline
unfolding job_slack_us
job_slack_us-lt now deadline estimated window h w = ground arith

-- A Bluetooth window never makes a codec job late: where the scheduler opens one, each codec job that
-- is ready still ends before its deadline if it starts 1000 us later.
pub window_meets_deadlines :
    (s : Snapshot)
    → (select (some s)).action ≡ bt_window
    → s.now_us + s.encode_estimated_us < 2 ^ 64
    → s.now_us + s.decode_estimated_us < 2 ^ 64
    → ((has_bits s.ready ready_encode ≡ false)
        ⊎ (s.now_us + bt_min_window_us + s.encode_estimated_us < s.encode_deadline_us))
      × ((has_bits s.ready ready_decode ≡ false)
          ⊎ (s.now_us + bt_min_window_us + s.decode_estimated_us < s.decode_deadline_us))
window_meets_deadlines s w e d =
    let late = select_window s w in
    (
      ground (
        arith,
        late.0,
        job_slack_us-lt s.now_us s.encode_deadline_us s.encode_estimated_us bt_min_window_us,
      ),
      ground (
        arith,
        late.1,
        job_slack_us-lt s.now_us s.decode_deadline_us s.decode_estimated_us bt_min_window_us,
      ),
    )

-- The codec that ran last.
abbrev pub codec_action : CodecPhase → Action
codec_action codec_encode = encode
codec_action _ = decode

-- Two codec jobs with the same slack and no backlog take turns.
pub select_alternates :
    (s : Snapshot)
    → has_bits s.ready ready_encode ≡ true
    → has_bits s.ready ready_decode ≡ true
    → encode_slack s ≡ decode_slack s
    → s.encode_depth ≤ 1
    → s.decode_depth ≤ 1
    → (select (some s)).action ≢ codec_action s.last_codec
unfolding select
select_alternates s r q e d h = ground arith
