-- ===== src/Dvfs/Clock.antt =====
-- The clock switch: dvfs_apply_hardware_frequency of m61_dvfs.c for the BL616, as the sequence of
-- what it asks of the SDK. What the SDK answers is a parameter.
use ds5dongle.Prelude.{
  ℕ, Bool, true, false, ◌&&◌, not, List, [], ◌∷◌, ◌++◌, leb, ◌==◌, if◌then◌else◌,
}
use ds5dongle.Dvfs.{default_mhz, frequency_valid, sdmin_for_mhz}

-- `m61_aupll_band_t`
pub data Band : Type 0 where
  band_unknown band_384 band_400 : Band

-- The sources of HBN_Set_MCU_XCLK_Sel, HBN_MCU_XCLK_RC32M and HBN_MCU_XCLK_XTAL.
pub data Xclk : Type 0 where
  rc32m xtal : Xclk

-- What is asked of the SDK, in the order of the code: the sources of the MCU clock, the divider, the
-- audio PLL, the gates of its output or of the Wi-Fi PLL, and the selection of the PLL.
pub data ClockOp : Type 0 where
  set_xclk : Xclk → ClockOp
  root_xclk root_pll : ClockOp
  set_div : ℕ → ClockOp
  config_aupll : Band → ClockOp
  tune_sdmin : ℕ → ClockOp
  ungate_aupll ungate_wifipll : ClockOp
  select_pll : ℕ → ClockOp

-- The answers of GLB_Set_MCU_System_CLK_Div(0, n), of HBN_Get_Xtal_Type, and of the two
-- GLB_Config_AUDIO_PLL functions: true for SUCCESS.
pub record Sdk : Type 0 where
  pub div_ok : ℕ → Bool
  pub xtal_is_40m : Bool
  pub config_ok : Band → Bool

abbrev pub band_of : ℕ → Band
band_of mhz = if leb mhz 384 then band_384 else band_400

abbrev pub same_band : Band → Band → Bool
same_band band_unknown band_unknown = true
same_band band_384 band_384 = true
same_band band_400 band_400 = true
same_band _ _ = false

-- The audio PLL, where the target is not the default: whether it was set, the band that it is then
-- known to have, and the requests.
unfoldable pub retune : Sdk → Band → ℕ → Bool × Band × List ClockOp
retune sdk band mhz =
    let target = band_of mhz in
    let tune = tune_sdmin (sdmin_for_mhz mhz) in
    if not sdk.xtal_is_40m
    then (false, band, [])
    else if same_band target band
    then (true, band, tune ∷ [])
    else if sdk.config_ok target
    then (true, target, config_aupll target ∷ tune ∷ [])
    else (false, band, config_aupll target ∷ [])

-- The first part, away from the PLLs.
unfoldable pub prepare : Sdk → Band → ℕ → Bool × Band × List ClockOp
unfolding retune
prepare sdk band mhz =
    if not (sdk.div_ok 0)
    then (false, band, [])
    else if mhz == default_mhz
    then (true, band, [])
    else retune sdk band mhz

-- The way back to a PLL: the audio PLL only where it was set.
abbrev pub connect : Bool → List ClockOp
connect true = ungate_aupll ∷ select_pll 1 ∷ []
connect false = ungate_wifipll ∷ select_pll 3 ∷ []

-- 0 or -EIO.
abbrev pub error_of : Bool → ℕ
error_of success = if success then 0 else 5

-- `dvfs_apply_hardware_frequency`: the error, the band, and the requests. `saved_xclk` is the answer of
-- HBN_Get_MCU_XCLK_Sel.
unfoldable pub apply_hardware_frequency : Sdk → Xclk → Band → ℕ → ℕ × Band × List ClockOp
unfolding prepare
apply_hardware_frequency sdk saved_xclk band mhz =
    let (ready, new_band, tuning) = prepare sdk band mhz in
    let by_aupll = ready && not (mhz == default_mhz) in
    if not (frequency_valid mhz true) then (22, band, []) else (
      error_of (ready && sdk.div_ok 3),
      new_band,
      (set_xclk rc32m ∷ root_xclk ∷ set_div 0 ∷ tuning)
          ++ (connect by_aupll ++ (set_div 3 ∷ root_pll ∷ set_xclk saved_xclk ∷ [])),
    )

-- The selections that the requests leave: that of XCLK, that of the PLL, and which of the two is the root
-- of the CPU's clock.
pub record Selected : Type 0 where
  pub xclk : Xclk
  pub pll_sel : ℕ
  pub root_is_pll : Bool

-- What feeds the CPU.
pub data Source : Type 0 where
  osc : Xclk → Source
  pll : ℕ → Source

abbrev pub source_of : Selected → Source
source_of c = if c.root_is_pll then pll c.pll_sel else osc c.xclk

-- The selections behind a request.
abbrev pub selected_after : ClockOp → Selected → Selected
selected_after (set_xclk x) c = record c { xclk = x }
selected_after root_xclk c = record c { root_is_pll = false }
selected_after root_pll c = record c { root_is_pll = true }
selected_after (select_pll n) c = record c { pll_sel = n }
selected_after _ c = c

abbrev pub is_rc32m : Source → Bool
is_rc32m (osc rc32m) = true
is_rc32m (osc xtal) = false
is_rc32m (pll n) = false

-- The audio PLL is touched, and a PLL selected, only on the RC oscillator.
abbrev pub may_run : ClockOp → Source → Bool
may_run (config_aupll b) src = is_rc32m src
may_run (tune_sdmin n) src = is_rc32m src
may_run (select_pll n) src = is_rc32m src
may_run _ src = true

unfoldable pub runs_safely : List ClockOp → Selected → Bool
runs_safely [] c = true
runs_safely (op ∷ ops) c = may_run op (source_of c) && runs_safely ops (selected_after op c)

unfoldable pub final_selected : List ClockOp → Selected → Selected
final_selected [] c = c
final_selected (op ∷ ops) c = final_selected ops (selected_after op c)

-- A CPU that runs from the PLL `sel`.
abbrev pub on_pll : Xclk → ℕ → Selected
on_pll x sel = record { xclk = x; pll_sel = sel; root_is_pll = true }
