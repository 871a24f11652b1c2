-- ===== src/StickDeadzone/Root.antt =====
-- The integer square root is one.
use ds5dongle.Prelude.{
  ℕ, zero, suc, ◌+◌, ◌-◌, ◌*◌, ◌/◌, ◌^◌, ◌≤◌, ◌<◌, ◌≡◌, true, false, ltb, leb, ◌==◌, arith, refl,
  Bool-cases, inl, inr, subst, ap, sym,
}
use ds5dongle.StickDeadzone.{shrink, root, isqrt_u32}

-- A root of n: the greatest whose square is not above it.
abbrev pub IsRoot : ℕ → ℕ → Type 0
IsRoot n r = (r * r ≤ n) × (n < (r + 1) * (r + 1))

square_add : (p d : ℕ) → (p + d) * (p + d) ≡ p * p + 2 * (p * d) + d * d
square_add p d = omega arith

-- The loop without bits keeps its result.
root_done : (fuel value result : ℕ) → root fuel 0 value result ≡ result
unfolding root
root_done zero value result = refl
root_done (suc fuel) value result = refl

-- 2 ^ k, and the rounds that the loop makes from the bit of its square on, with some to spare.
abbrev pow2 : ℕ → ℕ
pow2 zero = 1
pow2 (suc k) = 2 * pow2 k

abbrev rounds : ℕ → ℕ → ℕ
rounds zero spare = suc spare
rounds (suc k) spare = suc (rounds k spare)

pow2-pos : (k : ℕ) → 0 < pow2 k
pow2-pos zero = omega arith
pow2-pos (suc k) = omega (arith, pow2-pos k)

bit_pos : (d : ℕ) → 0 < d → 0 < 2 * d * (2 * d)
bit_pos zero h = omega arith
bit_pos (suc m) h = omega arith

-- One round that takes its bit, and one that does not.
root_takes :
    (fuel bit v r b w q : ℕ)
    → 0 < bit
    → r + bit ≤ v
    → bit / 4 ≡ b
    → v - (r + bit) ≡ w
    → r / 2 + bit ≡ q
    → root (suc fuel) bit v r ≡ root fuel b w q
unfolding root
root_takes fuel bit v r b w q nz fits eb ew eq =
    let taken : leb (r + bit) v ≡ true = ground (arith, fits) in
    let live : (bit == 0) ≡ false = ground (arith, nz) in rw (live, taken, eb, ew, eq) refl

root_skips :
    (fuel bit v r b q : ℕ)
    → 0 < bit
    → v < r + bit
    → bit / 4 ≡ b
    → r / 2 ≡ q
    → root (suc fuel) bit v r ≡ root fuel b v q
unfolding root
root_skips fuel bit v r b q nz skips eb eq =
    let skipped : leb (r + bit) v ≡ false = ground (arith, skips) in
    let live : (bit == 0) ≡ false = ground (arith, nz) in rw (live, skipped, eb, eq) refl

-- The root found so far is p, and it lacks less than 2 ^ (k + 1).
root_from :
    (k spare p v n : ℕ)
    → v + p * p ≡ n
    → v < 4 * (p * pow2 k) + 4 * (pow2 k * pow2 k)
    → IsRoot n (root (rounds k spare) (pow2 k * pow2 k) v (2 * (p * pow2 k)))
root_from zero spare p v n e h = elim (Bool-cases (leb (2 * (p * 1) + 1) v)) [
  | inl t ↦
      let fits : 2 * (p * 1) + 1 ≤ v = ground (arith, t) in
      rw
        (
          root_takes spare 1 v (2 * (p * 1)) 0 (v - (2 * (p * 1) + 1)) (p + 1) (omega arith) fits
              (omega arith) refl (omega arith),
          root_done,
        )
        (omega (arith, e, h, fits), omega (arith, e, h, fits))
  | inr f ↦
      let skips : v < 2 * (p * 1) + 1 = ground (arith, f) in
      rw
        (
          root_skips spare 1 v (2 * (p * 1)) 0 p (omega arith) skips (omega arith) (omega arith),
          root_done,
        )
        (omega (arith, e, h, skips), omega (arith, e, h, skips))
]
root_from (suc k) spare p v n e h =
    let d = pow2 k in
    let bit = 2 * d * (2 * d) in
    let r = 2 * (p * (2 * d)) in
    let live : 0 < bit = bit_pos d (pow2-pos k) in
    elim (Bool-cases (leb (r + bit) v)) [
      | inl t ↦
          let fits : r + bit ≤ v = ground (arith, t) in
          rw
            (root_takes (rounds k spare) bit v r (d * d) (v - (r + bit)) (2 * ((p + 2 * d) * d))
              live fits (omega arith) refl (omega arith))
            (root_from k spare (p + 2 * d) (v - (r + bit)) n (omega (arith, e, fits))
              (omega (arith, h, fits)))
      | inr f ↦
          let skips : v < r + bit = ground (arith, f) in
          rw
            (root_skips (rounds k spare) bit v r (d * d) (2 * (p * d)) live skips (omega arith)
              (omega arith))
            (root_from k spare p v n e (omega (arith, skips)))
    ]

rounds-suc : (k spare : ℕ) → rounds k (suc spare) ≡ suc (rounds k spare)
rounds-suc zero spare = refl
rounds-suc (suc k) spare = ap suc (rounds-suc k spare)

shrink_skips :
    (fuel bit v b : ℕ) → v < bit → bit / 4 ≡ b → shrink (suc fuel) bit v ≡ shrink fuel b v
unfolding shrink
shrink_skips fuel bit v b h e =
    let skips : ltb v bit ≡ true = ground (arith, h) in rw (skips, e) refl

shrink_stops : (fuel bit v : ℕ) → bit ≤ v → shrink (suc fuel) bit v ≡ bit
unfolding shrink
shrink_stops fuel bit v h = let stops : ltb v bit ≡ false = ground (arith, h) in rw stops refl

shrink_done : (fuel v : ℕ) → shrink fuel 0 v ≡ 0
unfolding shrink
shrink_done zero v = refl
shrink_done (suc fuel) v = shrink_stops fuel 0 v (omega arith)

no_root : (k : ℕ) → 2 * (0 * pow2 k) ≡ 0
no_root k = omega arith

root_shrunk :
    (k spare v : ℕ)
    → v < 4 * (pow2 k * pow2 k)
    → IsRoot v (root (rounds k spare) (shrink (rounds k 0) (pow2 k * pow2 k) v) v 0)
root_shrunk zero spare v h = elim (Bool-cases (ltb v 1)) [
  | inl t ↦
      let none : v < 1 = ground (arith, t) in
      rw (shrink_skips 0 1 v 0 none (omega arith), shrink_done 0 v, root_done)
        (omega (arith, none), omega (arith, none))
  | inr f ↦
      let some_bit : 1 ≤ v = ground (arith, f) in
      rw (shrink_stops 0 1 v some_bit) (root_from zero spare 0 v v (omega arith) (omega (arith, h)))
]
root_shrunk (suc k) spare v h =
    let d = pow2 k in
    let bit = 2 * d * (2 * d) in
    elim (Bool-cases (ltb v bit)) [
      | inl t ↦
          let low : v < bit = ground (arith, t) in
          rw (shrink_skips (rounds k 0) bit v (d * d) low (omega arith))
            (rw (sym (rounds-suc k spare)) (root_shrunk k (suc spare) v (omega (arith, low))))
      | inr f ↦
          let high : bit ≤ v = ground (arith, f) in
          rw (shrink_stops (rounds k 0) bit v high) (
            subst (λ r. IsRoot v (root (rounds (suc k) spare) bit v r)) (no_root (suc k))
              (root_from (suc k) spare 0 v v (omega arith) (omega (arith, h))))
    ]

-- `isqrt_u32` of a uint32_t is the greatest number whose square is not above it.
pub isqrt_u32-IsRoot : (v : ℕ) → v < 2 ^ 32 → IsRoot v (isqrt_u32 v)
unfolding isqrt_u32
isqrt_u32-IsRoot v h = root_shrunk 15 0 v (omega (arith, h))
