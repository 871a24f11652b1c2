-- ===== src/Dvfs/Requests.antt =====
-- What the other tasks ask of the CPU frequency: the setters, the floors, boosts and audio leases, and
-- m61_dvfs_get_status of m61_dvfs.c. The answer -n of a function is the number n.
use ds5dongle.Prelude.{
  ℕ, ◌+◌, Bool, true, false, ◌&&◌, ◌||◌, not, Option, none, some, ltb, leb, ◌==◌, if◌then◌else◌,
  u32, set, get_or,
}
use ds5dongle.Dvfs.{
  Dvfs, Client, zero_client, Governor, manual, profile_mhz, profile_count, validated_max_mhz,
  client_count, frequency_valid, notify_worker, audio_activity_floor, realtime_floor, speaker_live,
  mic_live,
}

abbrev pub einval : ℕ
einval = 22

-- `m61_dvfs_set_profile`
unfoldable pub set_profile : ℕ → Dvfs → ℕ × Dvfs
unfolding profile_mhz
set_profile profile s =
    let mhz = profile_mhz profile in
    if mhz == 0 then (einval, s) else (
      0,
      notify_worker (record s {
        manual_profile = profile;
        manual_mhz = mhz;
        manual_experimental = false;
        governor = manual;
      }),
    )

-- `m61_dvfs_set_custom_frequency`
unfoldable pub set_custom_frequency : ℕ → Bool → Dvfs → ℕ × Dvfs
set_custom_frequency mhz allow_experimental s =
    if not (frequency_valid mhz allow_experimental) then (einval, s) else (
      0,
      notify_worker (record s {
        manual_profile = profile_count;
        manual_mhz = mhz;
        manual_experimental = ltb validated_max_mhz mhz;
        governor = manual;
      }),
    )

-- `m61_dvfs_set_governor`: `none` is a value that is no governor.
unfoldable pub set_governor : Option Governor → Dvfs → ℕ × Dvfs
set_governor none s = (einval, s)
set_governor (some g) s = (0, notify_worker (record s { governor = g }))

abbrev pub client_at : ℕ → Dvfs → Client
client_at client s = get_or s.clients client zero_client

abbrev set_client : ℕ → Client → Dvfs → Dvfs
set_client client c s = record s { clients = set s.clients client c }

-- `m61_dvfs_request_floor`
unfoldable pub request_floor : ℕ → ℕ → Dvfs → ℕ × Dvfs
request_floor client mhz s =
    if leb client_count client
    then (einval, s)
    else if not (mhz == 0) && not (frequency_valid mhz false)
    then (einval, s)
    else (0, notify_worker (set_client client (record (client_at client s) { floor = mhz }) s))

-- `m61_dvfs_request_boost`, at the tick `now`; `ticks_of` is pdMS_TO_TICKS.
unfoldable pub request_boost : (ℕ → ℕ) → ℕ → ℕ → ℕ → ℕ → Dvfs → ℕ × Dvfs
request_boost ticks_of now client mhz hold_ms s =
    if leb client_count client
    then (einval, s)
    else if not (mhz == 0) && not (frequency_valid mhz false)
    then (einval, s)
    else if not (mhz == 0) && (hold_ms == 0)
    then (einval, s)
    else (
      0,
      notify_worker (
          set_client client
            (record (client_at client s) {
              boost = mhz;
              boost_until = if mhz == 0 then now else u32 (now + ticks_of hold_ms);
            })
            s),
    )

-- `m61_dvfs_set_audio_enabled`
unfoldable pub set_audio_enabled : Bool → Bool → Bool → Dvfs → Dvfs
set_audio_enabled speaker mic stereo s =
    let stop_speaker = not speaker && s.speaker_active in
    let stop_mic = not mic && s.mic_active in
    let t = record s {
      speaker_enabled = speaker;
      mic_enabled = mic;
      speaker_stereo = stereo;
      speaker_active = if stop_speaker then false else s.speaker_active;
      speaker_active_until = if stop_speaker then 0 else s.speaker_active_until;
      mic_active = if stop_mic then false else s.mic_active;
      mic_active_until = if stop_mic then 0 else s.mic_active_until;
    } in
    if stop_speaker || stop_mic then notify_worker t else t

abbrev pub audio_activity_hold_ms : ℕ
audio_activity_hold_ms = 250

-- `m61_dvfs_note_audio_activity`, at the tick `now`.
unfoldable pub note_audio_activity : (ℕ → ℕ) → ℕ → Bool → Bool → Dvfs → Dvfs
unfolding audio_activity_floor
note_audio_activity ticks_of now speaker_work mic_work s =
    let speaker = speaker_work && s.speaker_enabled in
    let mic = mic_work && s.mic_enabled in
    let until = u32 (now + ticks_of audio_activity_hold_ms) in
    let t = record s {
      speaker_active = if speaker then true else s.speaker_active;
      speaker_active_until = if speaker then until else s.speaker_active_until;
      mic_active = if mic then true else s.mic_active;
      mic_active_until = if mic then until else s.mic_active_until;
    } in
    if not speaker && not mic
    then s
    else if ltb (audio_activity_floor now s).0 (audio_activity_floor now t).0
    then notify_worker t
    else t

-- `m61_dvfs_status_t`
pub record Status : Type 0 where
  pub initialized : Bool
  pub persistent_config_loaded : Bool
  pub experimental_requested : Bool
  pub governor : Governor
  pub manual_profile : ℕ
  pub current_mhz : ℕ
  pub requested_mhz : ℕ
  pub manual_mhz : ℕ
  pub realtime_floor_mhz : ℕ
  pub transitions : ℕ
  pub transition_failures : ℕ
  pub last_error : ℕ
  pub speaker_active : Bool
  pub mic_active : Bool
  pub speaker_stereo : Bool

-- `m61_dvfs_get_status`: it clears the boosts that are over.
unfoldable pub get_status : ℕ → Dvfs → Status × Dvfs
unfolding realtime_floor
get_status now s =
    let (target, expiry, t) = realtime_floor now s in
    (
      record {
        initialized = s.initialized;
        persistent_config_loaded = s.persistent_config_loaded;
        experimental_requested = s.manual_experimental;
        governor = s.governor;
        manual_profile = s.manual_profile;
        current_mhz = s.current_mhz;
        requested_mhz = s.requested_mhz;
        manual_mhz = s.manual_mhz;
        realtime_floor_mhz = target;
        transitions = s.transitions;
        transition_failures = s.transition_failures;
        last_error = s.last_error;
        speaker_active = speaker_live now s;
        mic_active = mic_live now s;
        speaker_stereo = s.speaker_stereo;
      },
      t,
    )
