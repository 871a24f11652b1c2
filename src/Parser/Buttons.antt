-- ===== src/Parser/Buttons.antt =====
-- The mask of buttons of dualsense_parser.c as the bits of three payload bytes.
use ds5dongle.Prelude.{
  ℕ, ◌+◌, ◌*◌, ◌/◌, ◌%◌, ◌^◌, ◌<◌, Bool, true, false, has_bits, bit_or, if◌then◌else◌, ◌≡◌, refl,
  ap, sym, ◌∙◌, arith, or_fields, from_bool, has_bits-digit,
}
use ds5dongle.Parser.{set_button, main_buttons, extra_buttons}

-- A button above those that were set before.
set_button-digit :
    (buttons v j k : ℕ)
    → buttons < 2 ^ k
    → set_button buttons v (2 ^ j) (2 ^ k) ≡ buttons + v / 2 ^ j % 2 * 2 ^ k
unfolding set_button
set_button-digit buttons v j k small = at_bit (has_bits v (2 ^ j)) (has_bits-digit v j)
  where
    at_bit :
        (b : Bool)
        → from_bool b ≡ v / 2 ^ j % 2
        → (if b then bit_or buttons (2 ^ k) else buttons) ≡ buttons + v / 2 ^ j % 2 * 2 ^ k
    at_bit true e = rw (sym e) (ap (bit_or buttons) (omega arith) ∙ or_fields k 1 buttons small)
    at_bit false e = rw (sym e) (omega arith)

push :
    (b n v j k : ℕ) → b ≡ n → n < 2 ^ k → set_button b v (2 ^ j) (2 ^ k) ≡ n + v / 2 ^ j % 2 * 2 ^ k
push b n v j k e small = ap (λ m. set_button m v (2 ^ j) (2 ^ k)) e ∙ set_button-digit n v j k small

pub main_buttons-digits : (p7 p8 : ℕ) → p7 < 256 → p8 < 256 → main_buttons p7 p8 ≡ p7 / 16 + 16 * p8
unfolding main_buttons
main_buttons-digits p7 p8 h g =
    let e0 = push 0 0 p7 4 0 refl (omega arith) in
    let e1 = push _ _ p7 5 1 e0 (omega arith) in
    let e2 = push _ _ p7 6 2 e1 (omega arith) in
    let e3 = push _ _ p7 7 3 e2 (omega arith) in
    let e4 = push _ _ p8 0 4 e3 (omega arith) in
    let e5 = push _ _ p8 1 5 e4 (omega arith) in
    let e6 = push _ _ p8 2 6 e5 (omega arith) in
    let e7 = push _ _ p8 3 7 e6 (omega arith) in
    let e8 = push _ _ p8 4 8 e7 (omega arith) in
    let e9 = push _ _ p8 5 9 e8 (omega arith) in
    let e10 = push _ _ p8 6 10 e9 (omega arith) in
    let e11 = push _ _ p8 7 11 e10 (omega arith) in omega (arith, e11)

pub extra_buttons-digits :
    (p9 buttons : ℕ)
    → p9 < 256
    → buttons < 4096
    → extra_buttons p9 buttons ≡ buttons + 4096 * (p9 % 8)
unfolding extra_buttons
extra_buttons-digits p9 buttons h g =
    let e0 = push buttons buttons p9 0 12 refl (omega arith) in
    let e1 = push _ _ p9 1 13 e0 (omega arith) in
    let e2 = push _ _ p9 2 14 e1 (omega arith) in omega (arith, e2)
