-- ===== src/Prelude/Writes.antt =====
-- What a write into an array changes, and the first elements of one.
use Prim.Native.Nat.{ℕ, zero, suc, ◌<◌, ◌≤◌, min, compare, Ordering}
use mathlib.Core.Path.{◌≡◌, refl, ap, ◌∙◌}
use mathlib.Core.Logic.{◌≢◌, ◌⊎◌, inl, inr}
use mathlib.Core.List.{List, [], ◌∷◌, ◌++◌}
use native.Mathlib.Omega.{arith}
use ds5dongle.Prelude.Lists.{length, get_or, set, take}

module _ {ℓ} {A : Type ℓ} where
  pub length-set : (xs : List A) (i : ℕ) (v : A) → length (set xs i v) ≡ length xs
  length-set [] i v = refl
  length-set (x ∷ xs) zero v = refl
  length-set (x ∷ xs) (suc i) v = omega (arith, length-set xs i v)

  pub set-outside : (xs : List A) (i : ℕ) (v : A) → length xs ≤ i → set xs i v ≡ xs
  set-outside [] i v h = refl
  set-outside (x ∷ xs) zero v h = absurd (omega arith)
  set-outside (x ∷ xs) (suc i) v h = ap (λ ys. x ∷ ys) (set-outside xs i v (omega arith))

  pub get_or-set_self :
      (xs : List A) (i : ℕ) (v d : A) → i < length xs → get_or (set xs i v) i d ≡ v
  get_or-set_self [] i v d h = absurd (omega arith)
  get_or-set_self (x ∷ xs) zero v d h = refl
  get_or-set_self (x ∷ xs) (suc i) v d h = get_or-set_self xs i v d (omega arith)

  pub get_or-set_other :
      (xs : List A) (i j : ℕ) (v d : A)
      → (j < i) ⊎ (i < j)
      → get_or (set xs i v) j d ≡ get_or xs j d
  get_or-set_other [] i j v d h = refl
  get_or-set_other (x ∷ xs) zero zero v d (inl h) = absurd (omega arith)
  get_or-set_other (x ∷ xs) zero zero v d (inr h) = absurd (omega arith)
  get_or-set_other (x ∷ xs) zero (suc j) v d h = refl
  get_or-set_other (x ∷ xs) (suc i) zero v d h = refl
  get_or-set_other (x ∷ xs) (suc i) (suc j) v d (inl h) =
      get_or-set_other xs i j v d (inl (omega arith))
  get_or-set_other (x ∷ xs) (suc i) (suc j) v d (inr h) =
      get_or-set_other xs i j v d (inr (omega arith))

  pub get_or-set_ne :
      (xs : List A) (i j : ℕ) (v d : A) → j ≢ i → get_or (set xs i v) j d ≡ get_or xs j d
  get_or-set_ne xs i j v d h =
      elim (compare j i) as (λ o. compare j i ≡ o → get_or (set xs i v) j d ≡ get_or xs j d) [
        | Ordering.lt ↦ λ e. get_or-set_other xs i j v d (inl (ground arith))
        | Ordering.eq ↦ λ e. absurd (h (ground arith))
        | Ordering.gt ↦ λ e. get_or-set_other xs i j v d (inr (ground arith))
      ]
        refl

  pub take-take :
      (m k : ℕ) (xs ys : List A) → m ≤ k → k ≤ length xs → take m (take k xs ++ ys) ≡ take m xs
  take-take zero k xs ys h g = refl
  take-take (suc m) zero xs ys h g = absurd (omega arith)
  take-take (suc m) (suc k) [] ys h g = absurd (omega arith)
  take-take (suc m) (suc k) (x ∷ xs) ys h g =
      ap (λ zs. x ∷ zs) (take-take m k xs ys (omega arith) (omega arith))

  pub take-min-length : (k : ℕ) (xs : List A) → take (min (length xs) k) xs ≡ take k xs
  take-min-length k xs =
      elim (compare (length xs) k)
          as (λ o. compare (length xs) k ≡ o → take (min (length xs) k) xs ≡ take k xs) [
            | Ordering.lt ↦ λ e.
                ap (λ (m : ℕ). take m xs) {x = min (length xs) k} {y = length xs} (ground arith)
                ∙ take-all k xs (ground arith)
            | Ordering.eq ↦
                λ e. ap (λ (m : ℕ). take m xs) {x = min (length xs) k} {y = k} (ground arith)
            | Ordering.gt ↦
                λ e. ap (λ (m : ℕ). take m xs) {x = min (length xs) k} {y = k} (ground arith)
          ]
        refl
    where
      take-all : (m : ℕ) (ys : List A) → length ys ≤ m → take (length ys) ys ≡ take m ys
      take-all zero [] h = refl
      take-all (suc m) [] h = refl
      take-all zero (y ∷ ys) h = absurd (omega arith)
      take-all (suc m) (y ∷ ys) h = ap (λ zs. y ∷ zs) (take-all m ys (omega arith))
