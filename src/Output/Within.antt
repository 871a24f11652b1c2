-- ===== src/Output/Within.antt =====
-- Writes that stay in a range of a buffer.
use ds5dongle.Prelude.{
  ℕ, zero, suc, ◌+◌, ◌≤◌, ◌<◌, List, [], ◌∷◌, length, get_or, set, ◌≡◌, ◌⊎◌, inl, inr, refl, ◌∙◌,
  arith, length-set, get_or-set_other,
}
use ds5dongle.Output.{copy, put_crc}

-- `after` has the length of `before`, and its bytes outside of lo … hi - 1.
pub record Within (lo hi : ℕ) (before after : List ℕ) : Type 0 where
  pub same_length : length after ≡ length before
  pub elsewhere : (j : ℕ) → (j < lo) ⊎ (hi ≤ j) → get_or after j 0 ≡ get_or before j 0

module _ {lo hi : ℕ} {before after : List ℕ} (w : Within lo hi before after) where
  pub set-Within : (i v : ℕ) → lo ≤ i → i < hi → Within lo hi before (set after i v)
  set-Within i v h k = record {
    same_length = length-set after i v ∙ w.same_length;
    elsewhere = other;
  }
    where
      other : (j : ℕ) → (j < lo) ⊎ (hi ≤ j) → get_or (set after i v) j 0 ≡ get_or before j 0
      other j (inl o) = get_or-set_other after i j v 0 (inl (omega arith)) ∙ w.elsewhere j (inl o)
      other j (inr o) = get_or-set_other after i j v 0 (inr (omega arith)) ∙ w.elsewhere j (inr o)

pub copy-Within :
    {lo hi : ℕ} {before : List ℕ} (src : List ℕ) (n at : ℕ) {after : List ℕ}
    → Within lo hi before after
    → lo ≤ at
    → at + n ≤ hi
    → Within lo hi before (copy after at src n)
unfolding copy
copy-Within src zero at w h k = w
copy-Within [] (suc n) at w h k = w
copy-Within (x ∷ src) (suc n) at w h k =
    copy-Within src n (at + 1) (set-Within w at x h (omega arith)) (omega arith) (omega arith)

pub put_crc-Within :
    {lo hi : ℕ} {before after : List ℕ} (at crc : ℕ)
    → Within lo hi before after
    → lo ≤ at
    → at + 4 ≤ hi
    → Within lo hi before (put_crc after at crc)
unfolding put_crc
put_crc-Within at crc w h k =
    set-Within
      (set-Within
        (set-Within (set-Within w at _ h (omega arith)) (at + 1) _ (omega arith) (omega arith))
        (at + 2) _ (omega arith) (omega arith))
      (at + 3) _ (omega arith) (omega arith)

pub nothing-Within : (lo hi : ℕ) (r : List ℕ) → Within lo hi r r
nothing-Within lo hi r = record { same_length = refl; elsewhere = λ j h. refl }

-- Writes one after the other.
pub Within-trans :
    {lo hi : ℕ} {r s t : List ℕ} → Within lo hi r s → Within lo hi s t → Within lo hi r t
Within-trans v w = record {
  same_length = w.same_length ∙ v.same_length;
  elsewhere = λ j h. w.elsewhere j h ∙ v.elsewhere j h;
}

pub Within-wider :
    {lo hi lo' hi' : ℕ} {r s : List ℕ} → Within lo hi r s → lo' ≤ lo → hi ≤ hi' → Within lo' hi' r s
Within-wider {lo = lo} {hi = hi} {lo' = lo'} {hi' = hi'} {r = r} {s = s} w h k = record {
  same_length = w.same_length;
  elsewhere = outside;
}
  where
    outside : (j : ℕ) → (j < lo') ⊎ (hi' ≤ j) → get_or s j 0 ≡ get_or r j 0
    outside j (inl o) = w.elsewhere j (inl (omega arith))
    outside j (inr o) = w.elsewhere j (inr (omega arith))
