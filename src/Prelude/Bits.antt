-- ===== src/Prelude/Bits.antt =====
-- Laws of the binary digits of words, for the code that computes with `&`, `^` and shifts.
use Prim.Native.Nat.{
  ℕ, zero, suc, ◌+◌, ◌-◌, ◌*◌, ◌/◌, ◌%◌, ◌^◌, ◌≤◌, ◌<◌, min, max, differ, bit_or, bit_or-bitwise,
  bit_and, bit_xor, digits, bit_and-bitwise, bit_xor-bitwise,
}
use mathlib.Core.Path.{◌≡◌, refl, sym, ap, ap₂, ◌∙◌}
use mathlib.Core.Bool.{Bool, true, ◌&&◌}
use native.Mathlib.Nat.{pow-suc, one-le-pow, div-div-eq-div-mul}
use native.Mathlib.Omega.{arith}
use ds5dongle.Prelude.Words.{has_bits, from_bool}

-- A test of the first `n` numbers, from 0 upward.
unfoldable pub all_below : (ℕ → Bool) → ℕ → Bool
all_below test zero = true
all_below test (suc n) = test 0 && all_below (λ k. test (suc k)) n

pub all_below-at : (test : ℕ → Bool) (n k : ℕ) → all_below test n ≡ true → k < n → test k ≡ true
unfolding all_below
all_below-at test zero k e low = absurd (omega arith)
all_below-at test (suc n) zero e low = ground (arith, e)
all_below-at test (suc n) (suc k) e low =
    all_below-at (λ i. test (suc i)) n k (ground (arith, e)) (omega arith)

-- What holds of 0, and of each other number where it holds of its half, holds of all numbers.
by_halves : (P : ℕ → Type 0) → P 0 → ((k : ℕ) → P (suc k / 2) → P (suc k)) → (x : ℕ) → P x
by_halves P base step x = go x x (omega arith)
  where
    go : (bound y : ℕ) → y ≤ bound → P y
    go bound zero h = base
    go zero (suc y) h = absurd (omega arith)
    go (suc bound) (suc y) h = step y (go bound (suc y / 2) (omega arith))

-- The native operations on bits go through the digits on fuel, which the number itself is enough of.
module _ (end : ℕ → ℕ) (op : ℕ → ℕ → ℕ) where
  digits_next : (fuel x y : ℕ) → x ≤ fuel → digits end op (suc fuel) x y ≡ digits end op fuel x y
  digits_next zero zero y h = refl
  digits_next zero (suc x) y h = absurd (omega arith)
  digits_next (suc fuel) zero y h = refl
  digits_next (suc fuel) (suc x) y h =
      omega (arith, digits_next fuel (suc x / 2) (y / 2) (omega arith))

  digits_later :
      (more fuel x y : ℕ) → x ≤ fuel → digits end op (more + fuel) x y ≡ digits end op fuel x y
  digits_later zero fuel x y h =
      ap (λ (k : ℕ). digits end op k x y) {x = 0 + fuel} {y = fuel} (omega arith)
  digits_later (suc more) fuel x y h =
      ap (λ (k : ℕ). digits end op k x y) {x = suc more + fuel} {y = suc (more + fuel)}
        (omega arith)
      ∙ digits_next (more + fuel) x y (omega arith)
      ∙ digits_later more fuel x y h

  digits_half :
      (k y : ℕ)
      → digits end op k (suc k / 2) (y / 2) ≡ digits end op (suc k / 2) (suc k / 2) (y / 2)
  digits_half k y =
      let half = suc k / 2 in
      ap (λ (fuel : ℕ). digits end op fuel half (y / 2)) {x = k} {y = k - half + half} (omega arith)
      ∙ digits_later (k - half) half half (y / 2) (omega arith)

pub and_halves : (a b : ℕ) → bit_and a b ≡ bit_and (a / 2) (b / 2) * 2 + min (a % 2) (b % 2)
and_halves zero y = omega (arith, bit_and-bitwise 0 y, bit_and-bitwise 0 (y / 2))
and_halves (suc k) y = omega (
  arith,
  digits_half (λ e. zero) min k y,
  bit_and-bitwise (suc k / 2) (y / 2),
  bit_and-bitwise (suc k) y,
)

-- The exclusive or of two digits is their sum without the carry.
differ_below : (x y : ℕ) → x < 2 → y < 2 → differ x y ≡ (x + y) % 2
differ_below zero y p q = omega arith
differ_below (suc zero) zero p q = refl
differ_below (suc zero) (suc zero) p q = refl
differ_below (suc x) (suc (suc y)) p q = absurd (omega arith)
differ_below (suc (suc x)) zero p q = absurd (omega arith)
differ_below (suc (suc x)) (suc zero) p q = absurd (omega arith)

differ_digit : (a b : ℕ) → differ (a % 2) (b % 2) ≡ (a + b) % 2
differ_digit a b = omega (arith, differ_below (a % 2) (b % 2) (omega arith) (omega arith))

pub xor_halves : (a b : ℕ) → bit_xor a b ≡ bit_xor (a / 2) (b / 2) * 2 + (a + b) % 2
xor_halves zero b = omega (arith, bit_xor-bitwise 0 b, bit_xor-bitwise 0 (b / 2))
xor_halves (suc k) y = omega (
  arith,
  digits_half (λ e. e) differ k y,
  differ_digit (suc k) y,
  bit_xor-bitwise (suc k / 2) (y / 2),
  bit_xor-bitwise (suc k) y,
)

pub zero-xor : (b : ℕ) → bit_xor 0 b ≡ b
zero-xor b = bit_xor-bitwise 0 b

pub and-zero : (a : ℕ) → bit_and a 0 ≡ 0
and-zero =
    by_halves (λ k. bit_and k 0 ≡ 0) (bit_and-bitwise 0 0)
      (λ k half. omega (arith, half, and_halves (suc k) 0))

pub xor-zero : (a : ℕ) → bit_xor a 0 ≡ a
xor-zero =
    by_halves (λ k. bit_xor k 0 ≡ k) (zero-xor 0)
      (λ k half. omega (arith, half, xor_halves (suc k) 0))

pub xor_comm : (a b : ℕ) → bit_xor a b ≡ bit_xor b a
xor_comm =
    by_halves (λ k. (y : ℕ) → bit_xor k y ≡ bit_xor y k)
      (λ y. omega (arith, zero-xor y, xor-zero y))
      (λ k half y. omega (arith, half (y / 2), xor_halves (suc k) y, xor_halves y (suc k)))

-- What half an exclusive or is, and its lowest digit.
pub half-xor : (a b : ℕ) → bit_xor a b / 2 ≡ bit_xor (a / 2) (b / 2)
half-xor a b = omega (arith, xor_halves a b)

pub parity-xor : (a b : ℕ) → bit_xor a b % 2 ≡ (a + b) % 2
parity-xor a b = omega (arith, xor_halves a b)

pub xor_assoc : (a b c : ℕ) → bit_xor (bit_xor a b) c ≡ bit_xor a (bit_xor b c)
xor_assoc =
    by_halves (λ k. (y z : ℕ) → bit_xor (bit_xor k y) z ≡ bit_xor k (bit_xor y z))
      (λ y z. rw (zero-xor y, zero-xor (bit_xor y z)) refl)
      (λ k half y z. omega (
        arith,
        half (y / 2) (z / 2),
        xor_halves (bit_xor (suc k) y) z,
        xor_halves (suc k) (bit_xor y z),
        ap (λ (t : ℕ). bit_xor t (z / 2)) (half-xor (suc k) y),
        ap (λ (t : ℕ). bit_xor (suc k / 2) t) (half-xor y z),
        parity-xor (suc k) y,
        parity-xor y z,
      ))

-- The words of a pair of sums change places.
pub xor_exchange :
    (a b c d : ℕ) → bit_xor (bit_xor a b) (bit_xor c d) ≡ bit_xor (bit_xor a c) (bit_xor b d)
xor_exchange a b c d = cc (
  xor_assoc a b (bit_xor c d),
  xor_assoc b c d,
  xor_comm b c,
  xor_assoc c b d,
  xor_assoc a c (bit_xor b d),
)

pub and-one : (a : ℕ) → bit_and a 1 ≡ a % 2
and-one a = omega (arith, and_halves a 1, and-zero (a / 2))

pub and_fifteen : (a : ℕ) → bit_and a 15 ≡ a % 16
and_fifteen a = omega (
  arith,
  and_halves a 15,
  and_halves (a / 2) 7,
  and_halves (a / 2 / 2) 3,
  and-one (a / 2 / 2 / 2),
)

-- Fields that do not meet.
pub xor_fields : (q r : ℕ) → r < 16 → bit_xor (16 * q) r ≡ 16 * q + r
xor_fields q r h = omega (
  arith,
  xor_halves (16 * q) r,
  xor_halves (16 * q / 2) (r / 2),
  xor_halves (16 * q / 2 / 2) (r / 2 / 2),
  xor_halves (16 * q / 2 / 2 / 2) (r / 2 / 2 / 2),
  top (16 * q / 2 / 2 / 2 / 2) (r / 2 / 2 / 2 / 2) (omega arith) (omega arith),
)
  where
    top : (x y : ℕ) → x ≡ q → y ≡ 0 → bit_xor x y ≡ q
    top x y ex ey = rw (ex, ey) (xor-zero q)

pub or_halves : (a b : ℕ) → bit_or a b ≡ bit_or (a / 2) (b / 2) * 2 + max (a % 2) (b % 2)
or_halves zero b = omega (arith, bit_or-bitwise 0 b, bit_or-bitwise 0 (b / 2))
or_halves (suc k) y = omega (
  arith,
  digits_half (λ e. e) max k y,
  bit_or-bitwise (suc k / 2) (y / 2),
  bit_or-bitwise (suc k) y,
)

or-double : (r t : ℕ) → bit_or r (t * 2) ≡ bit_or (r / 2) t * 2 + r % 2
or-double r t = omega (
  arith,
  or_halves r (t * 2),
  ap (λ (u : ℕ). bit_or (r / 2) u) {x = t * 2 / 2} {y = t} (omega arith),
)

-- A field of `k` digits and what stands above it.
pub or_fields : (k q r : ℕ) → r < 2 ^ k → bit_or r (q * 2 ^ k) ≡ r + q * 2 ^ k
or_fields zero q zero h = omega (arith, bit_or-bitwise 0 (q * 1))
or_fields zero q (suc r) h = absurd (omega arith)
or_fields (suc k) q r h =
    ap (bit_or r) twice
    ∙ or-double r (q * 2 ^ k)
    ∙ omega (arith, twice, or_fields k q (r / 2) (omega (arith, pow-suc 2 k)))
  where
    twice : q * 2 ^ suc k ≡ q * 2 ^ k * 2
    twice = omega (arith, ap (λ (t : ℕ). q * t) (pow-suc 2 k))

-- A bit of a number is its digit.
pub and_bit : (k v : ℕ) → bit_and v (2 ^ k) ≡ v / 2 ^ k % 2 * 2 ^ k
and_bit zero v = omega (arith, and-one v)
and_bit (suc k) v =
    ap (bit_and v) twice
    ∙ and_halves v (2 ^ k * 2)
    ∙ ap (λ (m : ℕ). bit_and (v / 2) m * 2 + min (v % 2) (2 ^ k * 2 % 2)) {x = 2 ^ k * 2 / 2}
        {y = 2 ^ k} (omega arith)
    ∙ omega (arith, ap (λ (x : ℕ). x * 2) (and_bit k (v / 2)))
    ∙ sym (ap₂ (λ (q m : ℕ). q % 2 * m) above twice)
  where
    twice : 2 ^ suc k ≡ 2 ^ k * 2
    twice = pow-suc 2 k

    above : v / 2 ^ suc k ≡ v / 2 / 2 ^ k
    above =
        ap (λ (m : ℕ). v / m) {x = 2 ^ suc k} {y = 2 * 2 ^ k} (omega (arith, twice))
        ∙ sym (div-div-eq-div-mul v 2 (2 ^ k))

pub has_bits-digit : (v k : ℕ) → from_bool (has_bits v (2 ^ k)) ≡ v / 2 ^ k % 2
has_bits-digit v k = at_digit (v / 2 ^ k % 2) (omega arith) (and_bit k v)
  where
    at_digit : (d : ℕ) → d < 2 → bit_and v (2 ^ k) ≡ d * 2 ^ k → from_bool (has_bits v (2 ^ k)) ≡ d
    at_digit zero h e = rw e (ground arith)
    at_digit (suc zero) h e = rw e (ground (arith, one-le-pow k 2))
    at_digit (suc (suc d)) h e = absurd (omega arith)
