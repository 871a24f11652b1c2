-- ===== src/StickDeadzone/Tests.antt =====
-- Runs of the dead zone at concrete inputs, and its theorems at inputs that meet their hypotheses.
use ds5dongle.Prelude.{◌≡◌, arith, refl}
use ds5dongle.StickDeadzone.{apply, isqrt_u32, centre, max_magnitude, rescale}
use ds5dongle.StickDeadzone.Root.{IsRoot, isqrt_u32-IsRoot}
use ds5dongle.StickDeadzone.Centre.{apply-centre}

roots : (isqrt_u32 0 ≡ 0) × (isqrt_u32 17 ≡ 4) × (isqrt_u32 4294836225 ≡ 65535)
unfolding isqrt_u32
roots = (refl, refl, refl)

pushed : (apply 255 128 10 ≡ (255, 128)) × (apply 0 0 10 ≡ (0, 0)) × (apply 140 128 10 ≡ centre)
unfolding apply isqrt_u32 max_magnitude rescale
pushed = (refl, refl, refl)

isqrt_u32-IsRoot_example : IsRoot 17 (isqrt_u32 17)
isqrt_u32-IsRoot_example = isqrt_u32-IsRoot 17 (omega arith)

apply-centre_example : apply 136 120 10 ≡ centre
apply-centre_example =
    apply-centre 136 120 10 (omega arith) (omega arith) (omega arith) (omega arith)
