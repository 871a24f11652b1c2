-- ===== src/Dvfs.antt =====
-- The CPU frequency of m61/dualsense_hidp_probe/m61_dvfs.{h,c}: its state, the frequencies that are
-- allowed, tick comparisons, and the floors that the realtime governor obeys.
pub mod Clock
pub mod Worker
pub mod Requests
pub mod Saved
pub mod Floors
pub mod Valid
pub mod Calls
pub mod Run
pub mod Shifts
pub mod Switching
mod Tests
use ds5dongle.Prelude.{
  ℕ, ◌+◌, ◌-◌, ◌*◌, ◌/◌, ◌^◌, Bool, true, false, ◌&&◌, ◌||◌, not, List, [], ◌∷◌, ltb, leb, ◌==◌,
  if◌then◌else◌, u32,
}

-- `m61_dvfs_governor_t`
pub data Governor : Type 0 where
  manual realtime : Governor

-- The values of `m61_dvfs_profile_t`: a custom frequency has the profile COUNT.
abbrev pub profile_eco : ℕ
profile_eco = 0

abbrev pub profile_balanced : ℕ
profile_balanced = 1

abbrev pub profile_performance : ℕ
profile_performance = 2

abbrev pub profile_count : ℕ
profile_count = 3

abbrev pub default_mhz : ℕ
default_mhz = 320

abbrev pub validated_max_mhz : ℕ
validated_max_mhz = 400

abbrev pub experimental_max_mhz : ℕ
experimental_max_mhz = 480

abbrev pub client_count : ℕ
client_count = 4

-- One index of dvfs_client_floor, dvfs_client_boost and dvfs_client_boost_until.
pub record Client : Type 0 where
  pub floor : ℕ
  pub boost : ℕ
  pub boost_until : ℕ

-- The static variables. An error -n is the number n; `task` tells whether the worker was created,
-- `notified` whether a notification waits for it.
pub record Dvfs : Type 0 where
  pub initialized : Bool
  pub governor : Governor
  pub manual_profile : ℕ
  pub manual_mhz : ℕ
  pub manual_experimental : Bool
  pub current_mhz : ℕ
  pub requested_mhz : ℕ
  pub clients : List Client
  pub speaker_active : Bool
  pub mic_active : Bool
  pub speaker_enabled : Bool
  pub mic_enabled : Bool
  pub speaker_stereo : Bool
  pub speaker_active_until : ℕ
  pub mic_active_until : ℕ
  pub transitions : ℕ
  pub transition_failures : ℕ
  pub last_error : ℕ
  pub persistent_config_loaded : Bool
  pub task : Bool
  pub notified : Bool

abbrev pub zero_client : Client
zero_client = record { floor = 0; boost = 0; boost_until = 0 }

-- The static variables before the first call.
abbrev pub initial : Dvfs
initial = record {
  initialized = false;
  governor = manual;
  manual_profile = profile_eco;
  manual_mhz = default_mhz;
  manual_experimental = false;
  current_mhz = default_mhz;
  requested_mhz = default_mhz;
  clients = zero_client ∷ zero_client ∷ zero_client ∷ zero_client ∷ [];
  speaker_active = false;
  mic_active = false;
  speaker_enabled = false;
  mic_enabled = false;
  speaker_stereo = false;
  speaker_active_until = 0;
  mic_active_until = 0;
  transitions = 0;
  transition_failures = 0;
  last_error = 0;
  persistent_config_loaded = false;
  task = false;
  notified = false;
}

-- `dvfs_profile_mhz`, and m61_dvfs_profile_frequency.
unfoldable pub profile_mhz : ℕ → ℕ
profile_mhz profile =
    if profile == profile_eco
    then 320
    else if profile == profile_balanced
    then 384
    else if profile == profile_performance
    then 400
    else 0

-- `dvfs_frequency_valid`
unfoldable pub frequency_valid : ℕ → Bool → Bool
frequency_valid mhz allow_experimental =
    if ltb mhz default_mhz
    then false
    else if leb mhz validated_max_mhz
    then true
    else allow_experimental && leb mhz experimental_max_mhz

-- `dvfs_sdmin_for_mhz`
unfoldable pub sdmin_for_mhz : ℕ → ℕ
sdmin_for_mhz mhz = u32 (u32 (mhz * 1024) + 2) / 5

-- `dvfs_notify_worker`: in an interrupt and in a task the notification is the same.
abbrev pub notify_worker : Dvfs → Dvfs
notify_worker s = record s { notified = s.notified || s.task }

-- The difference of two ticks, on a TickType_t of 32 bits.
abbrev pub tick_diff : ℕ → ℕ → ℕ
tick_diff a b = u32 (a + 2 ^ 32 - b)

-- `dvfs_tick_before`: the difference is negative as an int32_t.
unfoldable pub tick_before : ℕ → ℕ → Bool
tick_before a b = leb (2 ^ 31) (tick_diff a b)

-- `*next_expiry` with a further deadline: 0 is none yet.
abbrev pub earlier : ℕ → ℕ → ℕ
earlier until next_expiry =
    if (next_expiry == 0) || tick_before until next_expiry then until else next_expiry

abbrev pub speaker_live : ℕ → Dvfs → Bool
speaker_live now s = s.speaker_active && tick_before now s.speaker_active_until

abbrev pub mic_live : ℕ → Dvfs → Bool
mic_live now s = s.mic_active && tick_before now s.mic_active_until

-- `dvfs_audio_activity_floor`: the floor, and the expiry that its caller passes as 0.
unfoldable pub audio_activity_floor : ℕ → Dvfs → ℕ × ℕ
audio_activity_floor now s =
    let speaker = speaker_live now s in
    let mic = mic_live now s in
    let by_speaker = if speaker then s.speaker_active_until else 0 in
    let expiry = if mic then earlier s.mic_active_until by_speaker else by_speaker in
    (if speaker && mic then 400 else if speaker || mic then 384 else 0, expiry)

abbrev pub raise : ℕ → ℕ → ℕ
raise request target = if ltb target request then request else target

abbrev pub boost_live : ℕ → Client → Bool
boost_live now c = not (c.boost == 0) && tick_before now c.boost_until

-- A boost that has run out is cleared.
abbrev pub expire : ℕ → Client → Client
expire now c = if boost_live now c then c else (record c { boost = 0 })

-- The loop of `dvfs_realtime_floor`: the target, the next expiry and the clients.
unfoldable pub scan_clients : ℕ → List Client → ℕ → ℕ → ℕ × ℕ × List Client
scan_clients now [] target expiry = (target, expiry, [])
scan_clients now (c ∷ cs) target expiry =
    let live = boost_live now c in
    let floored = raise c.floor target in
    let boosted = if live then raise c.boost floored else floored in
    let next = if live then earlier c.boost_until expiry else expiry in
    let (t, e, ds) = scan_clients now cs boosted next in (t, e, expire now c ∷ ds)

-- `dvfs_realtime_floor`: the target, the next expiry, and the state with the boosts that are over
-- cleared.
unfoldable pub realtime_floor : ℕ → Dvfs → ℕ × ℕ × Dvfs
unfolding scan_clients audio_activity_floor
realtime_floor now s =
    let (target, expiry, clients) = scan_clients now s.clients default_mhz 0 in
    let (audio_floor, audio_expiry) = audio_activity_floor now s in
    (
      raise audio_floor target,
      if audio_expiry == 0 then expiry else earlier audio_expiry expiry,
      record s { clients = clients },
    )
