-- ===== src/Gamepad/HostReports.antt =====
-- The reports of the host in m61_usb_gamepad.c: those for features wait in a queue, and of the others the
-- last one is kept. All is done under the USB lock.
pub mod Refine
mod Tests
use ds5dongle.Prelude.{
  ℕ, ◌+◌, ◌-◌, ◌%◌, Bool, true, false, ◌||◌, not, List, [], ◌∷◌, ◌++◌, Option, none, some, ltb, leb,
  ◌==◌, if◌then◌else◌, get_or, take, drop, replicate, length, min, inc32,
}
use ds5dongle.Gamepad.Ring.{Ring, put, drop_oldest, oldest}

abbrev pub set_depth : ℕ
set_depth = 8

abbrev pub output_max_len : ℕ
output_max_len = 64

-- `m61_usb_gamepad_host_report_t`
pub record HostReport : Type 0 where
  pub report_id : ℕ
  pub report_type : ℕ
  pub len : ℕ
  pub bytes : List ℕ

abbrev pub no_report : HostReport
no_report = record { report_id = 0; report_type = 0; len = 0; bytes = replicate 64 0 }

-- What `usb_diag` keeps of the last state that the host set.
pub record LastOut : Type 0 where
  pub flags0 : ℕ
  pub flags1 : ℕ
  pub flags2 : ℕ
  pub rumble_right : ℕ
  pub rumble_left : ℕ
  pub audio_control : ℕ
  pub mute_light : ℕ
  pub audio_mute : ℕ
  pub player_lights : ℕ
  pub light_fade : ℕ
  pub light_brightness : ℕ
  pub led_red : ℕ
  pub led_green : ℕ
  pub led_blue : ℕ

pub record HostReports : Type 0 where
  pub pending_valid : Bool
  pub pending : HostReport
  pub queue : Ring HostReport
  pub high_water : ℕ
  pub dropped : ℕ
  pub coalesced : ℕ
  pub last_report_id : ℕ
  pub last_report_len : ℕ
  pub last_out : LastOut

abbrev pub no_last_out : LastOut
no_last_out = record {
  flags0 = 0;
  flags1 = 0;
  flags2 = 0;
  rumble_right = 0;
  rumble_left = 0;
  audio_control = 0;
  mute_light = 0;
  audio_mute = 0;
  player_lights = 0;
  light_fade = 0;
  light_brightness = 0;
  led_red = 0;
  led_green = 0;
  led_blue = 0;
}

-- The state before the first call.
abbrev pub initial : HostReports
initial = record {
  pending_valid = false;
  pending = no_report;
  queue = record { slots = replicate 8 no_report; head = 0; tail = 0; count = 0 };
  high_water = 0;
  dropped = 0;
  coalesced = 0;
  last_report_id = 0;
  last_report_len = 0;
  last_out = no_last_out;
}

-- `update_last_out_state_diag`, for `len` bytes that are not NULL.
unfoldable pub update_last_out : ℕ → List ℕ → ℕ → LastOut → LastOut
update_last_out report_id bytes len old =
    let id = if report_id == 0 then get_or bytes 0 0 else report_id in
    let p = if report_id == 0 then drop 1 bytes else bytes in
    let payload_len = if report_id == 0 then len - 1 else len in
    if len == 0 then old else if not (id == 0x02) || ltb payload_len 47 then old else record {
      flags0 = get_or p 0 0;
      flags1 = get_or p 1 0;
      flags2 = get_or p 38 0;
      rumble_right = get_or p 2 0;
      rumble_left = get_or p 3 0;
      audio_control = get_or p 7 0;
      mute_light = get_or p 8 0;
      audio_mute = get_or p 9 0;
      player_lights = get_or p 43 0;
      light_fade = get_or p 41 0;
      light_brightness = get_or p 42 0;
      led_red = get_or p 44 0;
      led_green = get_or p 45 0;
      led_blue = get_or p 46 0;
    }

-- A report in the place of an old one: `memcpy` leaves the bytes behind its length.
abbrev pub written : ℕ → ℕ → List ℕ → ℕ → HostReport → HostReport
written id type bytes n old = record {
  report_id = id;
  report_type = type;
  len = n;
  bytes = take n bytes ++ drop n old.bytes;
}

-- The last three lines of `queue_host_report`.
unfoldable pub record_last : ℕ → List ℕ → ℕ → HostReports → HostReports
unfolding update_last_out
record_last id bytes n s = record s {
  last_report_id = if id == 0 then get_or bytes 0 0 else id;
  last_report_len = n;
  last_out = update_last_out id bytes n s.last_out;
}

-- `HID_REPORT_FEATURE` is a constant of the USB stack.
module _ (hid_report_feature : ℕ) where
  -- `queue_host_report`; the length is that of the list, and `none` is NULL.
  unfoldable pub queue_host_report : ℕ → ℕ → Option (List ℕ) → HostReports → HostReports
  queue_host_report id type none s = s
  queue_host_report id type (some bytes) s =
      let n = min (length bytes) output_max_len in
      if length bytes == 0
      then s
      else if type == hid_report_feature
      then (if leb set_depth s.queue.count
          then record s { dropped = inc32 s.dropped }
          else let old = get_or s.queue.slots s.queue.head no_report in
            let more = put set_depth (written id type bytes n old) s.queue in
            record_last id bytes n (record s {
              queue = more;
              high_water = if ltb s.high_water more.count then more.count else s.high_water;
            }))
      else record_last id bytes n (record s {
        coalesced = if s.pending_valid then inc32 s.coalesced else s.coalesced;
        pending = written id type bytes n s.pending;
        pending_valid = true;
      })

-- `m61_usb_gamepad_take_host_report`
unfoldable pub take_host_report : HostReports → Option HostReport × HostReports
take_host_report s =
    if s.pending_valid
    then (some s.pending, record s { pending_valid = false })
    else if ltb 0 s.queue.count
    then (some (oldest no_report s.queue), record s { queue = drop_oldest set_depth s.queue })
    else (none, s)
