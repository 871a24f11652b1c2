-- ===== src/Output/Table.antt =====
-- The checksum by the table of dualsense_output.c beside the one bit by bit of m61_web_config.c.
use ds5dongle.Prelude.{
  ℕ, zero, suc, ◌+◌, ◌-◌, ◌*◌, ◌/◌, ◌%◌, ◌^◌, ◌<◌, List, [], ◌∷◌, bit_and, bit_xor, u32, ◌==◌, true,
  get_or, uint32_max, ◌≡◌, refl, ap, ◌∙◌, arith, all_below, all_below-at, ==_iff, and-one,
  and_fifteen, xor_exchange, xor_fields, xor-zero, half-xor, parity-xor,
}
use ds5dongle.WebConfig.{crc_bit, crc_bits, crc_loop, crc32_ieee}
use ds5dongle.Output.{
  crc_nibble, crc32_le_update, crc32_nibble_table, output_crc32, feature_crc32, output_crc_seed,
  feature_crc_seed,
}

-- What a digit that leaves the word adds to it.
tap : ℕ → ℕ
tap zero = 0
tap (suc d) = 0xedb88320

crc_bit-tap : (c : ℕ) → crc_bit c ≡ bit_xor (c / 2) (tap (c % 2))
unfolding crc_bit tap
crc_bit-tap c = at_digit (c % 2) (omega arith) (and-one c)
  where
    at_digit :
        (d : ℕ)
        → d < 2
        → bit_and c 1 ≡ d
        → bit_xor (c / 2) (bit_and 0xedb88320 (u32 (2 ^ 32 - bit_and c 1)))
          ≡ bit_xor (c / 2) (tap d)
    at_digit zero h e = rw e refl
    at_digit (suc zero) h e = rw e refl
    at_digit (suc (suc d)) h e = absurd (omega arith)

tap-add : (a b : ℕ) → a < 2 → b < 2 → tap ((a + b) % 2) ≡ bit_xor (tap a) (tap b)
unfolding tap
tap-add zero zero p q = refl
tap-add zero (suc zero) p q = refl
tap-add (suc zero) zero p q = refl
tap-add (suc zero) (suc zero) p q = refl
tap-add (suc (suc a)) b p q = absurd (omega arith)
tap-add a (suc (suc b)) p q = absurd (omega arith)

crc_bit-xor : (a b : ℕ) → crc_bit (bit_xor a b) ≡ bit_xor (crc_bit a) (crc_bit b)
crc_bit-xor a b = cc (
  crc_bit-tap (bit_xor a b),
  crc_bit-tap a,
  crc_bit-tap b,
  half-xor a b,
  parity,
  xor_exchange (a / 2) (b / 2) (tap (a % 2)) (tap (b % 2)),
)
  where
    parity : tap (bit_xor a b % 2) ≡ bit_xor (tap (a % 2)) (tap (b % 2))
    parity =
        ap tap (parity-xor a b ∙ omega arith) ∙ tap-add (a % 2) (b % 2) (omega arith) (omega arith)

crc_bits-xor : (n a b : ℕ) → crc_bits n (bit_xor a b) ≡ bit_xor (crc_bits n a) (crc_bits n b)
unfolding crc_bits
crc_bits-xor zero a b = refl
crc_bits-xor (suc n) a b =
    ap (crc_bits n) (crc_bit-xor a b) ∙ crc_bits-xor n (crc_bit a) (crc_bit b)

crc_bit-even : (q : ℕ) → crc_bit (2 * q) ≡ q
unfolding tap
crc_bit-even q = crc_bit-tap (2 * q) ∙ step (2 * q / 2) (2 * q % 2) (omega arith) (omega arith)
  where
    step : (h d : ℕ) → h ≡ q → d ≡ 0 → bit_xor h (tap d) ≡ q
    step h d eh ed = rw (eh, ed) (xor-zero q)

-- Four digits that are 0 only shift the word.
crc_bits-shift : (q : ℕ) → crc_bits 4 (16 * q) ≡ q
unfolding crc_bits
crc_bits-shift q =
    ap (crc_bits 3) (even 8 q)
    ∙ ap (crc_bits 2) (even 4 q)
    ∙ ap (crc_bits 1) (even 2 q)
    ∙ crc_bit-even q
  where
    even : (k q : ℕ) → crc_bit (2 * k * q) ≡ k * q
    even k q = ap crc_bit (omega arith) ∙ crc_bit-even (k * q)

table : all_below (λ r. crc_bits 4 r == get_or crc32_nibble_table r 0) 16 ≡ true
unfolding all_below crc_bits
table = refl

crc_nibble-bits : (c : ℕ) → crc_nibble c ≡ crc_bits 4 c
unfolding crc_nibble
crc_nibble-bits c = cc (
  and_fifteen c,
  ap (crc_bits 4) whole,
  ap (crc_bits 4) (xor_fields (c / 16) (c % 16) (omega arith)),
  crc_bits-xor 4 (16 * (c / 16)) (c % 16),
  crc_bits-shift (c / 16),
  (==_iff (crc_bits 4 (c % 16)) (get_or crc32_nibble_table (c % 16) 0)).0 (
      all_below-at (λ r. crc_bits 4 r == get_or crc32_nibble_table r 0) 16 (c % 16) table
        (omega arith)),
)
  where
    whole : 16 * (c / 16) + c % 16 ≡ c
    whole = omega arith

-- Two lines of the table take the eight digits of a byte.
crc32_le_update-loop :
    (crc : ℕ) (input : List ℕ) (len : ℕ) → crc32_le_update crc input len ≡ crc_loop len input crc
unfolding crc32_le_update crc_loop crc_bits
crc32_le_update-loop crc input zero = refl
crc32_le_update-loop crc [] (suc len) = refl
crc32_le_update-loop crc (x ∷ input) (suc len) =
    ap (λ c. crc32_le_update c input len) (byte (bit_xor crc x))
    ∙ crc32_le_update-loop (crc_bits 8 (bit_xor crc x)) input len
  where
    byte : (c : ℕ) → crc_nibble (crc_nibble c) ≡ crc_bits 8 c
    byte c = ap crc_nibble (crc_nibble-bits c) ∙ crc_nibble-bits (crc_bits 4 c)

-- The checksums of output and of feature reports, by the table, are the one that m61_web_config.c
-- computes bit by bit over the bytes after a seed.
pub crc32_tables_agree :
    (input : List ℕ) (len : ℕ)
    → (output_crc32 input len ≡ crc32_ieee (output_crc_seed ∷ input) (len + 1))
      × (feature_crc32 input len ≡ crc32_ieee (feature_crc_seed ∷ input) (len + 1))
unfolding output_crc32 feature_crc32 crc32_ieee
crc32_tables_agree input len = (agree output_crc_seed, agree feature_crc_seed)
  where
    agree :
        (seed : ℕ)
        → uint32_max - crc32_le_update (crc32_le_update uint32_max (seed ∷ []) 1) input len
          ≡ crc32_ieee (seed ∷ input) (len + 1)
    agree seed =
        ap (λ c. uint32_max - c)
          (crc32_le_update-loop (crc32_le_update uint32_max (seed ∷ []) 1) input len
            ∙ ap (λ c. crc_loop len input c) (crc32_le_update-loop uint32_max (seed ∷ []) 1)
            ∙ ap (λ n. crc_loop n (seed ∷ input) uint32_max) {x = suc len} {y = len + 1}
                (omega arith))
