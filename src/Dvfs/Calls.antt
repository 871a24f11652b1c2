-- ===== src/Dvfs/Calls.antt =====
-- Every call of m61_dvfs.c keeps the state valid.
use ds5dongle.Prelude.{
  ℕ, ◌+◌, ◌≡◌, ◌≤◌, Bool, true, false, ◌&&◌, not, Option, none, some, leb, ◌==◌, if◌then◌else◌,
  arith, u32, refl, Bool-cases, inl, inr,
}
use ds5dongle.Dvfs.{Dvfs, zero_client, Governor, default_mhz, client_count, frequency_valid}
use ds5dongle.Dvfs.Requests.{
  set_profile, set_custom_frequency, set_governor, request_floor, request_boost, set_audio_enabled,
  note_audio_activity, get_status, client_at,
}
use ds5dongle.Dvfs.Saved.{SavedConfig, init, start, load_saved, is_usable}
use ds5dongle.Dvfs.Valid.{
  IsRequest, AreRequests, Valid, set-AreRequests, get_or-IsRequest, realtime_floor-Valid,
}

pub set_profile-Valid : (profile : ℕ) (s : Dvfs) → Valid s → Valid (set_profile profile s).1
unfolding set_profile
set_profile-Valid profile s v = ground arith

pub set_custom_frequency-Valid :
    (mhz : ℕ) (allowed : Bool) (s : Dvfs) → Valid s → Valid (set_custom_frequency mhz allowed s).1
unfolding set_custom_frequency frequency_valid
set_custom_frequency-Valid mhz allowed s v = ground arith

pub set_governor-Valid : (g : Option Governor) (s : Dvfs) → Valid s → Valid (set_governor g s).1
unfolding set_governor
set_governor-Valid g s v = ground arith

-- What passes the test of the two requests is one.
frequency_valid-IsRequest :
    (mhz : ℕ) → (not (mhz == 0) && not (frequency_valid mhz false)) ≡ false → IsRequest mhz
unfolding frequency_valid
frequency_valid-IsRequest mhz good = ground arith

client_at-IsRequest :
    (client : ℕ) (s : Dvfs)
    → AreRequests s.clients
    → IsRequest (client_at client s).floor × IsRequest (client_at client s).boost
client_at-IsRequest client s r =
    get_or-IsRequest s.clients client zero_client (ground arith) (ground arith) r

pub request_floor-Valid :
    (client mhz : ℕ) (s : Dvfs) → Valid s → Valid (request_floor client mhz s).1
unfolding request_floor
request_floor-Valid client mhz s v =
    let (a, b, m, c, d, r) = v in
    elim (Bool-cases (leb client_count client)) [
      | inl none_such ↦ rw none_such v
      | inr in_range ↦ elim (Bool-cases (not (mhz == 0) && not (frequency_valid mhz false))) [
        | inl bad ↦ rw (in_range, bad) v
        | inr good ↦
            let new = record (client_at client s) { floor = mhz } in
            rw (in_range, good)
              (
                a,
                b,
                m,
                c,
                d,
                set-AreRequests s.clients client new (frequency_valid-IsRequest mhz good)
                    (client_at-IsRequest client s r).1 r,
              )
      ]
    ]

pub request_boost-Valid :
    (ticks_of : ℕ → ℕ) (now client mhz hold : ℕ) (s : Dvfs)
    → Valid s
    → Valid (request_boost ticks_of now client mhz hold s).1
unfolding request_boost
request_boost-Valid ticks_of now client mhz hold s v =
    let (a, b, m, c, d, r) = v in
    elim (Bool-cases (leb client_count client)) [
      | inl none_such ↦ rw none_such v
      | inr in_range ↦ elim (Bool-cases (not (mhz == 0) && not (frequency_valid mhz false))) [
        | inl bad ↦ rw (in_range, bad) v
        | inr good ↦
            let until = if mhz == 0 then now else u32 (now + ticks_of hold) in
            let new = record (client_at client s) { boost = mhz; boost_until = until } in
            let q =
              set-AreRequests s.clients client new (client_at-IsRequest client s r).0
                (frequency_valid-IsRequest mhz good) r in
            elim (Bool-cases (not (mhz == 0) && (hold == 0))) [
              | inl no_hold ↦ rw (in_range, good, no_hold) v
              | inr held ↦ rw (in_range, good, held) (a, b, m, c, d, q)
            ]
      ]
    ]

pub set_audio_enabled-Valid :
    (speaker mic stereo : Bool) (s : Dvfs)
    → Valid s
    → Valid (set_audio_enabled speaker mic stereo s)
unfolding set_audio_enabled
set_audio_enabled-Valid speaker mic stereo s v = ground arith

pub note_audio_activity-Valid :
    (ticks_of : ℕ → ℕ) (now : ℕ) (speaker mic : Bool) (s : Dvfs)
    → Valid s
    → Valid (note_audio_activity ticks_of now speaker mic s)
unfolding note_audio_activity
note_audio_activity-Valid ticks_of now speaker mic s v = ground arith

pub get_status-Valid : (now : ℕ) (s : Dvfs) → Valid s → Valid (get_status now s).1
unfolding get_status
get_status-Valid now s v = (realtime_floor-Valid now s v).0

is_usable-range :
    (r : SavedConfig) → is_usable r ≡ true → (320 ≤ r.manual_mhz) × (r.manual_mhz ≤ 480)
unfolding is_usable
is_usable-range r h = ground (arith, h)

load_saved-Valid :
    (stored : Option SavedConfig) (boot : ℕ) (s : Dvfs)
    → frequency_valid boot true ≡ true
    → Valid s
    → Valid (load_saved stored boot s).1
      × (320 ≤ (load_saved stored boot s).0)
      × ((load_saved stored boot s).0 ≤ 480)
unfolding load_saved frequency_valid
load_saved-Valid none boot s h v = (v, ground (arith, h), ground (arith, h))
load_saved-Valid (some r) boot s h v = elim (Bool-cases (is_usable r)) [
  | inl e ↦ rw e (v, (is_usable-range r e).0, (is_usable-range r e).1)
  | inr e ↦ rw e (v, ground (arith, h), ground (arith, h))
]

start-Valid :
    (apply : ℕ → ℕ) (created : Bool) (boot : ℕ) (s : Dvfs)
    → 320 ≤ boot
    → boot ≤ 480
    → Valid s
    → Valid (start apply created boot s).1
unfolding start
start-Valid apply created boot s lo hi v = ground arith

if-Valid :
    (b : Bool) (x y : ℕ × Dvfs)
    → (b ≡ true → Valid x.1)
    → (b ≡ false → Valid y.1)
    → Valid (if b then x else y).1
if-Valid true x y p q = p refl
if-Valid false x y p q = q refl

pub init-Valid :
    (apply : ℕ → ℕ) (stored : Option SavedConfig) (created : Bool) (boot_mhz : ℕ) (s : Dvfs)
    → Valid s
    → Valid (init apply stored created boot_mhz s).1
unfolding init
init-Valid apply stored created boot_mhz s v =
    let boot = if boot_mhz == 0 then default_mhz else boot_mhz in
    let (mhz, t) = load_saved stored boot s in
    if-Valid s.initialized (0, s) _ (λ e. v)
      (λ first.
        if-Valid (not (frequency_valid boot true)) (22, s) (start apply created mhz t) (λ e. v)
          (λ good.
            let (u, lo, hi) = load_saved-Valid stored boot s (ground (arith, good)) v in
            start-Valid apply created mhz t lo hi u))
