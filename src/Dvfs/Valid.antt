-- ===== src/Dvfs/Valid.antt =====
-- The frequencies in the state stay allowed, whatever is asked and whatever the hardware answers.
use ds5dongle.Prelude.{
  ℕ, zero, suc, ◌≡◌, ◌≤◌, true, List, [], ◌∷◌, if◌then◌else◌, arith, ◌⊎◌, set, get_or, Bool-cases,
  inl, inr,
}
use ds5dongle.Dvfs.{
  Dvfs, Client, boost_live, raise, earlier, scan_clients, realtime_floor, audio_activity_floor,
}
use ds5dongle.Dvfs.Worker.{Worker, worker_round, settle, choose_target, is_manual}

-- No request, or one in the validated range.
abbrev pub IsRequest : ℕ → Type 0
IsRequest mhz = (mhz ≡ 0) ⊎ ((320 ≤ mhz) × (mhz ≤ 400))

abbrev pub AreRequests : List Client → Type 0
AreRequests [] = Unit
AreRequests (c ∷ cs) = IsRequest c.floor × IsRequest c.boost × AreRequests cs

-- The manual frequency is in the range, above 400 MHz only where it is marked as experimental; the
-- CPU runs in the range; every client asks for nothing or for a validated frequency.
abbrev pub Valid : Dvfs → Type 0
Valid s =
    (320 ≤ s.manual_mhz)
    × (s.manual_mhz ≤ 480)
    × ((s.manual_mhz ≤ 400) ⊎ (s.manual_experimental ≡ true))
    × (320 ≤ s.current_mhz)
    × (s.current_mhz ≤ 480)
    × AreRequests s.clients

pub set-AreRequests :
    (cs : List Client) (i : ℕ) (c : Client)
    → IsRequest c.floor
    → IsRequest c.boost
    → AreRequests cs
    → AreRequests (set cs i c)
set-AreRequests [] i c f b r = tt
set-AreRequests (x ∷ xs) zero c f b (g, h, r) = (f, b, r)
set-AreRequests (x ∷ xs) (suc i) c f b (g, h, r) = (g, h, set-AreRequests xs i c f b r)

-- What stands at an index, or the zero client.
pub get_or-IsRequest :
    (cs : List Client) (i : ℕ) (d : Client)
    → IsRequest d.floor
    → IsRequest d.boost
    → AreRequests cs
    → IsRequest (get_or cs i d).floor × IsRequest (get_or cs i d).boost
get_or-IsRequest [] i d f b r = (f, b)
get_or-IsRequest (x ∷ xs) zero d f b (g, h, r) = (g, h)
get_or-IsRequest (x ∷ xs) (suc i) d f b (g, h, r) = get_or-IsRequest xs i d f b r

scan_clients-AreRequests :
    (now : ℕ) (cs : List Client) (target expiry : ℕ)
    → AreRequests cs
    → target ≤ 400
    → 320 ≤ target
    → AreRequests (scan_clients now cs target expiry).2
      × (320 ≤ (scan_clients now cs target expiry).0)
      × ((scan_clients now cs target expiry).0 ≤ 400)
unfolding scan_clients
scan_clients-AreRequests now [] target expiry r h l = (tt, l, h)
scan_clients-AreRequests now (c ∷ cs) target expiry (f, b, r) h l =
    let live = boost_live now c in
    let floored = raise c.floor target in
    let boosted = if live then raise c.boost floored else floored in
    let next = if live then earlier c.boost_until expiry else expiry in
    let (q, lo, hi) =
      scan_clients-AreRequests now cs boosted next r (ground (arith, f, b))
        (ground (arith, f, b)) in
    ((ground (arith, f), ground (arith, b), q), lo, hi)

-- The realtime governor's target lies in the validated range.
pub realtime_floor-Valid :
    (now : ℕ) (s : Dvfs)
    → Valid s
    → Valid (realtime_floor now s).2
      × (320 ≤ (realtime_floor now s).0)
      × ((realtime_floor now s).0 ≤ 400)
unfolding realtime_floor audio_activity_floor
realtime_floor-Valid now s (v, w, m, c, d, requests) =
    let (q, lo, hi) =
      scan_clients-AreRequests now s.clients 320 0 requests (omega arith) (omega arith) in
    ((v, w, m, c, d, q), ground (arith, lo), ground (arith, hi))

choose_target-Valid :
    (now : ℕ) (s : Dvfs)
    → Valid s
    → Valid (choose_target now s).2
      × (320 ≤ (choose_target now s).0)
      × ((choose_target now s).0 ≤ 480)
unfolding choose_target
choose_target-Valid now s v = elim (Bool-cases (is_manual s.governor)) [
  | inl e ↦ rw e (v, v.0, v.1)
  | inr e ↦ let (u, lo, hi) = realtime_floor-Valid now s v in rw e (u, lo, omega arith)
]

module _ (ticks_of : ℕ → ℕ) (apply : ℕ → ℕ) where
  settle-Valid :
      (now target : ℕ) (w : Worker) (s : Dvfs)
      → 320 ≤ target
      → target ≤ 480
      → Valid s
      → Valid (settle ticks_of apply now target w s).1
  unfolding settle
  settle-Valid now target w s lo hi v = ground arith

  pub worker_round-Valid :
      (now later : ℕ) (w : Worker) (s : Dvfs)
      → Valid s
      → Valid (worker_round ticks_of apply now later w s).2
  unfolding worker_round
  worker_round-Valid now later w s v =
      let (u, lo, hi) = choose_target-Valid now s v in
      settle-Valid now (choose_target now s).0 w (choose_target now s).2 lo hi u
