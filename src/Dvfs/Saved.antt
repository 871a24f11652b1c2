-- ===== src/Dvfs/Saved.antt =====
-- Start-up and the legacy stored settings: m61_dvfs_init, m61_dvfs_save_persistent_config and
-- m61_dvfs_clear_persistent_config of m61_dvfs.c. EasyFlash and the creation of the task are
-- parameters.
use ds5dongle.Prelude.{
  ℕ, ◌≡◌, ◌≤◌, Bool, true, false, ◌&&◌, not, Option, none, some, ltb, leb, ◌==◌, if◌then◌else◌, u8,
  u16, arith,
}
use ds5dongle.Dvfs.{
  Dvfs, Governor, manual, realtime, initial, default_mhz, validated_max_mhz, frequency_valid,
  profile_count, profile_eco, profile_balanced, profile_performance,
}
use ds5dongle.Dvfs.Worker.{record_transition}

abbrev config_magic : ℕ
config_magic = 0x44564631

-- `m61_dvfs_persistent_config_t`
pub record SavedConfig : Type 0 where
  pub magic : ℕ
  pub manual_mhz : ℕ
  pub governor : ℕ
  pub manual_profile : ℕ

abbrev pub governor_code : Governor → ℕ
governor_code manual = 0
governor_code realtime = 1

abbrev governor_of : ℕ → Governor
governor_of n = if n == 0 then manual else realtime

-- The tests on what was read.
unfoldable pub is_usable : SavedConfig → Bool
unfolding frequency_valid
is_usable r = (r.magic == config_magic) && leb r.governor 1 && frequency_valid r.manual_mhz false

abbrev restore : SavedConfig → Dvfs → Dvfs
restore r s = record s {
  governor = governor_of r.governor;
  manual_profile = if ltb r.manual_profile profile_count then r.manual_profile else profile_count;
  persistent_config_loaded = true;
}

-- The boot frequency and the state behind the read: `none` is a blob of another length.
unfoldable pub load_saved : Option SavedConfig → ℕ → Dvfs → ℕ × Dvfs
unfolding is_usable
load_saved none boot_mhz s = (boot_mhz, s)
load_saved (some r) boot_mhz s = if is_usable r then (r.manual_mhz, restore r s) else (boot_mhz, s)

abbrev boot_profile : ℕ → ℕ
boot_profile mhz =
    if mhz == 320
    then profile_eco
    else if mhz == 384
    then profile_balanced
    else if mhz == 400
    then profile_performance
    else profile_count

-- The second half of `m61_dvfs_init`: the first transition, the manual settings and the task.
-- `created` tells whether xTaskCreateStatic gave a task.
unfoldable pub start : (ℕ → ℕ) → Bool → ℕ → Dvfs → ℕ × Dvfs
unfolding record_transition
start apply created boot_mhz s =
    let error = apply boot_mhz in
    let t = record_transition boot_mhz error s in
    let u = record t {
      manual_mhz = boot_mhz;
      manual_experimental = ltb validated_max_mhz boot_mhz;
      manual_profile =
          if t.persistent_config_loaded then t.manual_profile else boot_profile boot_mhz;
      task = created;
    } in
    if not (error == 0)
    then (error, t)
    else if not created
    then (12, u)
    else (0, record u { initialized = true })

-- `m61_dvfs_init`
unfoldable pub init : (ℕ → ℕ) → Option SavedConfig → Bool → ℕ → Dvfs → ℕ × Dvfs
unfolding load_saved start
init apply stored created boot_mhz s =
    let boot = if boot_mhz == 0 then default_mhz else boot_mhz in
    let (mhz, t) = load_saved stored boot s in
    if s.initialized
    then (0, s)
    else if not (frequency_valid boot true)
    then (22, s)
    else start apply created mhz t

-- `m61_dvfs_save_persistent_config`: the answer, what is written, and the state. `written` tells
-- whether ef_set_env_blob and ef_save_env succeed.
unfoldable pub save_persistent_config : Bool → Dvfs → ℕ × Option SavedConfig × Dvfs
save_persistent_config written s =
    let r : SavedConfig = record {
      magic = config_magic;
      manual_mhz = u16 s.manual_mhz;
      governor = u8 (governor_code s.governor);
      manual_profile = u8 s.manual_profile;
    } in
    if ltb validated_max_mhz s.manual_mhz
    then (1, none, s)
    else if not written
    then (5, none, s)
    else (0, some r, record s { persistent_config_loaded = true })

-- `m61_dvfs_clear_persistent_config`
unfoldable pub clear_persistent_config : Bool → Dvfs → ℕ × Dvfs
clear_persistent_config deleted s =
    if not deleted then (5, s) else (0, record s { persistent_config_loaded = false })

-- What was saved is restored: behind a start that succeeds, with what was written as the stored
-- settings, the manual frequency, the governor and the profile are those saved, whatever the boot
-- frequency.
pub init-save_persistent_config :
    (apply : ℕ → ℕ) (written : Bool) (boot_mhz : ℕ) (s : Dvfs) {r : SavedConfig} {t u : Dvfs}
    → default_mhz ≤ s.manual_mhz
    → s.manual_profile ≤ profile_count
    → save_persistent_config written s ≡ (0, some r, t)
    → init apply (some r) true boot_mhz initial ≡ (0, u)
    → (u.manual_mhz ≡ s.manual_mhz)
      × (u.governor ≡ s.governor)
      × (u.manual_profile ≡ s.manual_profile)
      × (u.current_mhz ≡ s.manual_mhz)
unfolding save_persistent_config init
init-save_persistent_config apply written boot_mhz s lo hi saved started = ground arith
