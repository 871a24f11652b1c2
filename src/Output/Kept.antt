-- ===== src/Output/Kept.antt =====
-- The length of a buffer that is written to, and the bytes elsewhere.
use ds5dongle.Prelude.{
  ℕ, zero, suc, ◌+◌, ◌-◌, ◌≤◌, ◌<◌, List, [], ◌∷◌, ◌++◌, length, get_or, set, drop, replicate,
  if◌then◌else◌, ◌==◌, ◌≡◌, refl, ap, ◌∙◌, arith, length-set, bit_xor, ltb, leb, ◌&&◌,
}
use ds5dongle.Output.{copy, put_crc, crc_nibble, crc32_le_update}

module _ {ℓ} {A : Type ℓ} where
  pub length-append : (xs ys : List A) → length (xs ++ ys) ≡ length xs + length ys
  length-append [] ys = omega arith
  length-append (x ∷ xs) ys = omega (arith, length-append xs ys)

  pub length-replicate : (n : ℕ) (a : A) → length (replicate n a) ≡ n
  length-replicate zero a = refl
  length-replicate (suc n) a = omega (arith, length-replicate n a)

  pub length-drop : (n : ℕ) (xs : List A) → length (drop n xs) ≡ length xs - n
  length-drop zero xs = omega arith
  length-drop (suc n) [] = omega arith
  length-drop (suc n) (x ∷ xs) = omega (arith, length-drop n xs)

  pub get_or-drop :
      (n : ℕ) (xs : List A) (i : ℕ) (d : A) → get_or (drop n xs) i d ≡ get_or xs (n + i) d
  get_or-drop zero xs i d = ap (λ j. get_or xs j d) (omega arith)
  get_or-drop (suc n) [] i d = refl
  get_or-drop (suc n) (x ∷ xs) i d =
      get_or-drop n xs i d
      ∙ ap (λ j. get_or (x ∷ xs) j d) {x = suc (n + i)} {y = suc n + i} (omega arith)

  pub get_or-set :
      (xs : List A) (i j : ℕ) (v d : A)
      → i < length xs
      → get_or (set xs i v) j d ≡ (if j == i then v else get_or xs j d)
  get_or-set [] i j v d h = absurd (omega arith)
  get_or-set (x ∷ xs) zero zero v d h = refl
  get_or-set (x ∷ xs) zero (suc j) v d h = ground arith
  get_or-set (x ∷ xs) (suc i) zero v d h = ground arith
  get_or-set (x ∷ xs) (suc i) (suc j) v d h = ground (arith, get_or-set xs i j v d)

pub length-copy :
    (dst : List ℕ) (at : ℕ) (src : List ℕ) (n : ℕ) → length (copy dst at src n) ≡ length dst
unfolding copy
length-copy dst at src zero = refl
length-copy dst at [] (suc n) = refl
length-copy dst at (x ∷ src) (suc n) =
    length-copy (set dst at x) (at + 1) src n ∙ length-set dst at x

get_or-behind : (x : ℕ) (src : List ℕ) (i : ℕ) → 0 < i → get_or (x ∷ src) i 0 ≡ get_or src (i - 1) 0
get_or-behind x src zero h = absurd (omega arith)
get_or-behind x src (suc i) h = ap (λ j. get_or src j 0) (omega arith)

-- A copy that fits changes the bytes of its range, and no other.
pub get_or-copy :
    (dst : List ℕ) (at : ℕ) (src : List ℕ) (n j : ℕ)
    → n ≤ length src
    → at + n ≤ length dst
    → get_or (copy dst at src n) j 0
      ≡ (if leb at j && ltb j (at + n) then get_or src (j - at) 0 else get_or dst j 0)
unfolding copy
get_or-copy dst at src zero j h k = ground arith
get_or-copy dst at [] (suc n) j h k = absurd (omega arith)
get_or-copy dst at (x ∷ src) (suc n) j h k = ground (
  arith,
  length-set dst at x,
  get_or-set dst at j x 0 (omega arith),
  get_or-copy (set dst at x) (at + 1) src n j (omega arith) (omega (arith, length-set dst at x)),
  get_or-behind x src (j - at),
  ap (λ i. get_or src i 0) {x = j - at - 1} {y = j - (at + 1)} (omega arith),
)

pub length-put_crc : (report : List ℕ) (at crc : ℕ) → length (put_crc report at crc) ≡ length report
unfolding put_crc
length-put_crc report at crc = simp length-set refl

-- A write behind the first bytes does not change their checksum.
pub crc32_le_update-set :
    (report : List ℕ) (n i v crc : ℕ)
    → n ≤ i
    → crc32_le_update crc (set report i v) n ≡ crc32_le_update crc report n
unfolding crc32_le_update
crc32_le_update-set report zero i v crc h = refl
crc32_le_update-set [] (suc n) i v crc h = refl
crc32_le_update-set (x ∷ report) (suc n) zero v crc h = absurd (omega arith)
crc32_le_update-set (x ∷ report) (suc n) (suc i) v crc h =
    crc32_le_update-set report n i v (crc_nibble (crc_nibble (bit_xor crc x))) (omega arith)
