-- ===== src/Dvfs/Switching.antt =====
-- The requests of the clock switch of m61_dvfs.c, one by one, and the selections that they leave.
use ds5dongle.Prelude.{
  ℕ, ◌+◌, ◌*◌, ◌≤◌, ◌≡◌, ap, Bool, true, false, ◌&&◌, not, List, [], ◌∷◌, ◌++◌, ◌==◌, if◌then◌else◌,
  arith, refl, Bool-cases, inl, inr,
}
use ds5dongle.Dvfs.{default_mhz, frequency_valid, sdmin_for_mhz}
use ds5dongle.Dvfs.Clock.{
  Band, ClockOp, Sdk, Xclk, Selected, rc32m, band_of, same_band, retune, prepare,
  apply_hardware_frequency, runs_safely, final_selected, source_of, on_pll, connect, selected_after,
  may_run, set_xclk, root_xclk, set_div, root_pll,
}

and_assoc : (a b c : Bool) → (a && (b && c)) ≡ ((a && b) && c)
and_assoc true b c = refl
and_assoc false b c = refl

runs_safely-append :
    (xs ys : List ClockOp) (c : Selected)
    → runs_safely (xs ++ ys) c ≡ (runs_safely xs c && runs_safely ys (final_selected xs c))
unfolding runs_safely final_selected
runs_safely-append [] ys c = refl
runs_safely-append (x ∷ xs) ys c = rw (runs_safely-append xs ys (selected_after x c)) (
    and_assoc (may_run x (source_of c)) (runs_safely xs (selected_after x c))
      (runs_safely ys (final_selected xs (selected_after x c))))

final_selected-append :
    (xs ys : List ClockOp) (c : Selected)
    → final_selected (xs ++ ys) c ≡ final_selected ys (final_selected xs c)
unfolding final_selected
final_selected-append [] ys c = refl
final_selected-append (x ∷ xs) ys c = final_selected-append xs ys (selected_after x c)

-- A CPU that runs from the RC oscillator, with the PLL `sel` selected.
abbrev on_rc32m : ℕ → Selected
on_rc32m sel = record { xclk = rc32m; pll_sel = sel; root_is_pll = false }

-- Requests that are safe on the RC oscillator and leave the selections as they are.
record Quiet (sel : ℕ) (x : Bool × Band × List ClockOp) : Type 0 where
  safe : runs_safely x.2 (on_rc32m sel) ≡ true
  still : final_selected x.2 (on_rc32m sel) ≡ on_rc32m sel

retune-Quiet : (sdk : Sdk) (band : Band) (mhz sel : ℕ) → Quiet sel (retune sdk band mhz)
unfolding retune runs_safely final_selected
retune-Quiet sdk band mhz sel = elim (Bool-cases sdk.xtal_is_40m) [
  | inr e ↦ rw e (record { safe = refl; still = refl })
  | inl e ↦ elim (Bool-cases (same_band (band_of mhz) band)) [
    | inl same ↦ rw (e, same) (record { safe = refl; still = refl })
    | inr other ↦ elim (Bool-cases (sdk.config_ok (band_of mhz))) [
      | inl ok ↦ rw (e, other, ok) (record { safe = refl; still = refl })
      | inr bad ↦ rw (e, other, bad) (record { safe = refl; still = refl })
    ]
  ]
]

prepare-Quiet : (sdk : Sdk) (band : Band) (mhz sel : ℕ) → Quiet sel (prepare sdk band mhz)
unfolding prepare runs_safely final_selected
prepare-Quiet sdk band mhz sel = elim (Bool-cases (sdk.div_ok 0)) [
  | inr e ↦ rw e (record { safe = refl; still = refl })
  | inl e ↦ elim (Bool-cases (mhz == default_mhz)) [
    | inl default ↦ rw (e, default) (record { safe = refl; still = refl })
    | inr other ↦ rw (e, other) (retune-Quiet sdk band mhz sel)
  ]
]

-- The whole sequence around requests that are quiet.
abbrev around : Bool → Xclk → List ClockOp → List ClockOp
around by_aupll saved tuning =
    (set_xclk rc32m ∷ root_xclk ∷ set_div 0 ∷ tuning)
    ++ (connect by_aupll ++ (set_div 3 ∷ root_pll ∷ set_xclk saved ∷ []))

around_safe :
    (by_aupll : Bool) (saved : Xclk) (x : Bool × Band × List ClockOp) (sel : ℕ)
    → Quiet sel x
    → (runs_safely (around by_aupll saved x.2) (on_pll saved sel) ≡ true)
      × (final_selected (around by_aupll saved x.2) (on_pll saved sel)
          ≡ on_pll saved (if by_aupll then 1 else 3))
unfolding runs_safely final_selected
around_safe true saved x sel q = (
  rw (runs_safely-append x.2 _ (on_rc32m sel), q.safe, q.still) refl,
  rw (final_selected-append x.2 _ (on_rc32m sel)) refl,
)
around_safe false saved x sel q = (
  rw (runs_safely-append x.2 _ (on_rc32m sel), q.safe, q.still) refl,
  rw (final_selected-append x.2 _ (on_rc32m sel)) refl,
)

-- Whatever the SDK answers, the audio PLL is set up and the PLL selected only while the RC oscillator feeds
-- the CPU, and behind the sequence the CPU runs from a PLL and XCLK is selected as before.
pub apply_hardware_frequency_safe :
    (sdk : Sdk) (saved : Xclk) (band : Band) (mhz sel : ℕ)
    → let ops = (apply_hardware_frequency sdk saved band mhz).2 in
      let after = final_selected ops (on_pll saved sel) in
      (runs_safely ops (on_pll saved sel) ≡ true)
      × (after.root_is_pll ≡ true)
      × (after.xclk ≡ saved)
unfolding apply_hardware_frequency
apply_hardware_frequency_safe sdk saved band mhz sel =
    let by_aupll = (prepare sdk band mhz).0 && not (mhz == default_mhz) in
    let (safe, still) =
      around_safe by_aupll saved (prepare sdk band mhz) sel (prepare-Quiet sdk band mhz sel) in
    elim (Bool-cases (frequency_valid mhz true)) [
      | inl good ↦
          rw good
            (safe, ap (λ (c : Selected). c.root_is_pll) still, ap (λ (c : Selected). c.xclk) still)
      | inr bad ↦ rw bad (unfold runs_safely final_selected in (refl, refl, refl))
    ]

-- The register value is 204.8 times the frequency, to the nearest integer.
pub sdmin_for_mhz_nearest :
    (mhz : ℕ)
    → frequency_valid mhz true ≡ true
    → (5 * sdmin_for_mhz mhz ≤ 1024 * mhz + 2) × (1024 * mhz ≤ 5 * sdmin_for_mhz mhz + 2)
unfolding sdmin_for_mhz frequency_valid
sdmin_for_mhz_nearest mhz h = ground (arith, h)
