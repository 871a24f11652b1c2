-- ===== src/AudioEpoch/Haptics.antt =====
-- The haptics samples of m61_audio_epoch.c: read_i16_le, div_pow2_toward_zero, pcm16_to_i8 with its
-- unity path, and update_haptics_metrics.
use ds5dongle.Prelude.{
  ℕ, zero, suc, ◌+◌, ◌*◌, ◌/◌, ◌^◌, ◌≡◌, arith, refl, ltb, ◌==◌, if◌then◌else◌, ap, ◌∙◌, Bool-cases,
  inl, inr,
}
use ds5dongle.Prelude.Int.{ℤ, pos, negsuc, neg, neg_parts, abs, scale, signed16, ◌≤ℤ◌, ltb_ℤ}
use ds5dongle.AudioEpoch.{Slot}

-- The bits of `read_i16_le`: the low byte first.
abbrev pub word_le : ℕ → ℕ → ℕ
word_le lo hi = lo + 2 ^ 8 * hi

-- `read_i16_le`
abbrev pub read_i16_le : ℕ → ℕ → ℤ
read_i16_le lo hi = signed16 (word_le lo hi)

-- `div_pow2_toward_zero`
unfoldable pub div_pow2_toward_zero : ℤ → ℕ → ℤ
div_pow2_toward_zero (pos n) shift = pos (n / 2 ^ shift)
div_pow2_toward_zero (negsuc n) shift = let magnitude = n + 1 in neg (magnitude / 2 ^ shift)

-- The two tests against INT16_MAX and INT16_MIN.
abbrev pub clamp_i16 : ℤ → ℤ
clamp_i16 x =
    let y = if ltb_ℤ (pos 32767) x then pos 32767 else x in
    if ltb_ℤ y (negsuc 32767) then negsuc 32767 else y

-- `pcm16_to_i8`
unfoldable pub pcm16_to_i8 : ℤ → ℕ → ℤ
unfolding div_pow2_toward_zero
pcm16_to_i8 sample gain_q8 =
    let scaled = clamp_i16 (div_pow2_toward_zero (scale sample gain_q8) 8) in
    div_pow2_toward_zero (scale scaled 127) 15

-- `pcm16_to_i8_unity`
unfoldable pub pcm16_to_i8_unity : ℤ → ℤ
unfolding div_pow2_toward_zero
pcm16_to_i8_unity sample = div_pow2_toward_zero (scale sample 127) 15

-- `convert_haptics_sample`
unfoldable pub convert_haptics_sample : ℤ → ℕ → ℤ
unfolding pcm16_to_i8 pcm16_to_i8_unity
convert_haptics_sample sample gain_q8 =
    if gain_q8 == 256 then pcm16_to_i8_unity sample else pcm16_to_i8 sample gain_q8

-- `update_haptics_metrics`: the magnitude of INT8_MIN is 128, as that of any other sample is its
-- absolute value.
unfoldable pub update_haptics_metrics : ℤ → Slot → Slot
update_haptics_metrics sample slot =
    let magnitude = abs sample in
    record slot {
      haptics_nonzero = if magnitude == 0 then slot.haptics_nonzero else 1;
      haptics_peak = if ltb slot.haptics_peak magnitude then magnitude else slot.haptics_peak;
    }

abbrev pub IsI16 : ℤ → Type 0
IsI16 x = (negsuc 32767 ≤ℤ x) × (x ≤ℤ pos 32767)

abbrev pub IsI7 : ℤ → Type 0
IsI7 x = (negsuc 126 ≤ℤ x) × (x ≤ℤ pos 127)

module _ (m : ℕ) where
  divide_15 : div_pow2_toward_zero (neg m) 15 ≡ neg (m / 2 ^ 15)
  unfolding div_pow2_toward_zero
  divide_15 = elim m as (λ k. div_pow2_toward_zero (neg k) 15 ≡ neg (k / 2 ^ 15)) [
    | zero ↦ refl
    | suc k ↦ ap (λ (t : ℕ). neg (t / 2 ^ 15)) (omega arith)
  ]

  divide_8 : div_pow2_toward_zero (neg m) 8 ≡ neg (m / 2 ^ 8)
  unfolding div_pow2_toward_zero
  divide_8 = elim m as (λ k. div_pow2_toward_zero (neg k) 8 ≡ neg (k / 2 ^ 8)) [
    | zero ↦ refl
    | suc k ↦ ap (λ (t : ℕ). neg (t / 2 ^ 8)) (omega arith)
  ]

-- The division keeps the sign and cuts the magnitude, so a value in the range of an int16_t, times
-- 127 and without 15 bits, lies in -127 to 127.
scaled_down-IsI7 : (x : ℤ) → IsI16 x → IsI7 (div_pow2_toward_zero (scale x 127) 15)
unfolding div_pow2_toward_zero
scaled_down-IsI7 (pos n) h = omega arith
scaled_down-IsI7 (negsuc n) h =
    rw (divide_15 (suc n * 127)) (omega (arith, neg_parts (suc n * 127 / 2 ^ 15)))

clamp_i16-IsI16 : (x : ℤ) → IsI16 (clamp_i16 x)
clamp_i16-IsI16 x = ground arith

-- The sample of a haptics block lies in -127 to 127, at any gain: the cast to int8_t loses nothing.
pub convert_haptics_sample-IsI7 :
    (x : ℤ) (gain_q8 : ℕ) → IsI16 x → IsI7 (convert_haptics_sample x gain_q8)
unfolding convert_haptics_sample
convert_haptics_sample-IsI7 x gain_q8 h = elim (Bool-cases (gain_q8 == 256)) [
  | inl e ↦ rw e (scaled_down-IsI7 x h)
  | inr n ↦
      let scaled = div_pow2_toward_zero (scale x gain_q8) 8 in
      rw n (scaled_down-IsI7 (clamp_i16 scaled) (clamp_i16-IsI16 scaled))
]

clamp_i16-id : (x : ℤ) → IsI16 x → clamp_i16 x ≡ x
clamp_i16-id x h = ground arith

unity_shift : (x : ℤ) → div_pow2_toward_zero (scale x 256) 8 ≡ x
unfolding div_pow2_toward_zero
unity_shift (pos n) = ap pos (omega arith)
unity_shift (negsuc n) = divide_8 (suc n * 256) ∙ ap neg {y = suc n} (omega arith)

-- The unity path is the general one at the gain 256.
pub pcm16_to_i8-unity : (x : ℤ) → IsI16 x → pcm16_to_i8 x 256 ≡ pcm16_to_i8_unity x
unfolding pcm16_to_i8 pcm16_to_i8_unity
pcm16_to_i8-unity x h = rw (unity_shift x, clamp_i16-id x h)
