-- ===== src/StickDeadzone/Centre.antt =====
-- The stick rests at the centre inside the dead zone, and its axes are bytes.
use ds5dongle.Prelude.{
  ℕ, ◌+◌, ◌-◌, ◌*◌, ◌^◌, ◌≤◌, ◌<◌, ◌≡◌, ◌≢◌, true, false, leb, ◌==◌, arith, refl, subst, Bool-cases,
  inl, inr,
}
use ds5dongle.Prelude.Int.{abs, sub_ℕ}
use ds5dongle.StickDeadzone.{apply, isqrt_u32, deadzone_of, centre}
use ds5dongle.StickDeadzone.Root.{IsRoot, isqrt_u32-IsRoot}

-- The square of the distance of the stick from the centre.
abbrev pub distance_squared : ℕ → ℕ → ℕ
distance_squared x y = abs (sub_ℕ x 128) * abs (sub_ℕ x 128) + abs (sub_ℕ y 128) * abs (sub_ℕ y 128)

square_mono : (a b : ℕ) → a ≤ b → a * a ≤ b * b
square_mono a b h =
    let t = b - a in
    let split : a + t ≡ b = omega (arith, h) in subst (λ c. a * a ≤ c * c) split (grows a t)
  where
    grows : (a t : ℕ) → a * a ≤ (a + t) * (a + t)
    grows a t = omega arith

-- A root is not above what has a greater square behind it.
root_below : (n r z : ℕ) → IsRoot n r → n < (z + 1) * (z + 1) → r ≤ z
root_below n r z (h, u) l = elim (Bool-cases (leb r z)) [
  | inl t ↦ ground (arith, t)
  | inr f ↦
      let above : z + 1 ≤ r = ground (arith, f) in
      let no : ⊥ = omega (arith, h, l, square_mono (z + 1) r above) in elim no [ ]
]

abs-le : (x : ℕ) → x ≤ 255 → abs (sub_ℕ x 128) ≤ 128
abs-le x h = ground arith

distance-le : (x y : ℕ) → x ≤ 255 → y ≤ 255 → distance_squared x y < 2 ^ 32
distance-le x y hx hy = omega (
  arith,
  square_mono (abs (sub_ℕ x 128)) 128 (abs-le x hx),
  square_mono (abs (sub_ℕ y 128)) 128 (abs-le y hy),
)

-- Where the dead zone is on, a stick whose axes are bytes and that is nearer to the centre than one
-- more than the dead zone rests at the centre.
pub apply-centre :
    (x y percent : ℕ)
    → x ≤ 255
    → y ≤ 255
    → percent ≢ 0
    → distance_squared x y < (deadzone_of percent + 1) * (deadzone_of percent + 1)
    → apply x y percent ≡ centre
unfolding apply
apply-centre x y percent hx hy nz near =
    let d = distance_squared x y in
    let r = isqrt_u32 d in
    let below : r ≤ deadzone_of percent =
      root_below d r (deadzone_of percent) (isqrt_u32-IsRoot d (distance-le x y hx hy)) near in
    let inside : leb r (deadzone_of percent) ≡ true = ground (arith, below) in
    let on : (percent == 0) ≡ false = ground (arith, nz) in rw (on, inside) refl
