-- ===== src/Dvfs/Floors.antt =====
-- The realtime governor's target is the least frequency that meets every request that is alive.
use ds5dongle.Prelude.{ℕ, ◌≡◌, ◌≤◌, false, List, [], ◌∷◌, if◌then◌else◌, arith, ◌↔◌, ◌⊎◌}
use ds5dongle.Dvfs.{
  Dvfs, Client, default_mhz, boost_live, raise, earlier, scan_clients, realtime_floor,
  audio_activity_floor, speaker_live, mic_live,
}

-- What a client asks of the CPU at a time: its floor, and its boost while it is alive.
abbrev pub Meets : ℕ → ℕ → List Client → Type 0
Meets now mhz [] = Unit
Meets now mhz (c ∷ cs) =
    (c.floor ≤ mhz) × ((boost_live now c ≡ false) ⊎ (c.boost ≤ mhz)) × Meets now mhz cs

-- The audio leases: 384 MHz for one direction, 400 for both.
abbrev pub MeetsAudio : ℕ → ℕ → Dvfs → Type 0
MeetsAudio now mhz s =
    ((speaker_live now s ≡ false) ⊎ (384 ≤ mhz))
    × ((mic_live now s ≡ false) ⊎ (384 ≤ mhz))
    × ((speaker_live now s ≡ false) ⊎ (mic_live now s ≡ false) ⊎ (400 ≤ mhz))

abbrev pub MeetsAll : ℕ → ℕ → Dvfs → Type 0
MeetsAll now mhz s = (default_mhz ≤ mhz) × Meets now mhz s.clients × MeetsAudio now mhz s

Meets-mono : (now a b : ℕ) (cs : List Client) → a ≤ b → Meets now a cs → Meets now b cs
Meets-mono now a b [] h m = tt
Meets-mono now a b (c ∷ cs) h (f, l, m) =
    (omega arith, ground (arith, l), Meets-mono now a b cs h m)

-- The target of the loop, against a frequency.
scan_clients_lem :
    (now : ℕ) (cs : List Client) (target expiry mhz : ℕ)
    → ((target ≤ mhz) × Meets now mhz cs) ↔ ((scan_clients now cs target expiry).0 ≤ mhz)
unfolding scan_clients
scan_clients_lem now [] target expiry mhz = (λ h. h.0, λ h. (h, tt))
scan_clients_lem now (c ∷ cs) target expiry mhz =
    let live = boost_live now c in
    let floored = raise c.floor target in
    let boosted = if live then raise c.boost floored else floored in
    let next = if live then earlier c.boost_until expiry else expiry in
    let rest = scan_clients_lem now cs boosted next mhz in
    (
      λ (h, (f, l, m)). rest.0 (ground (arith, h, f, l), m),
      λ h. let (b, m) = rest.1 h in (ground (arith, b), (ground (arith, b), ground (arith, b), m)),
    )

-- The realtime governor's target is the least frequency that meets 320 MHz, every floor, every boost
-- that is alive and the audio leases: a frequency meets them exactly if it is not below the target.
pub realtime_floor_lem :
    (now : ℕ) (s : Dvfs) (mhz : ℕ) → MeetsAll now mhz s ↔ ((realtime_floor now s).0 ≤ mhz)
unfolding realtime_floor audio_activity_floor
realtime_floor_lem now s mhz =
    let scan = scan_clients_lem now s.clients default_mhz 0 mhz in
    (
      λ (lo, cs, audio). let r = scan.0 (lo, cs) in ground (arith, r, audio),
      λ h. let r = scan.1 (ground (arith, h)) in (r.0, r.1, ground (arith, h)),
    )
