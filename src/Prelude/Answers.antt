-- ===== src/Prelude/Answers.antt =====
-- What a C function returns that answers with a negative number where it fails.
use Prim.Native.Nat.{ℕ}

-- `err n` is the answer -n.
pub data Result {ℓ} (A : Type ℓ) : Type ℓ where
  ok : A → Result A
  err : ℕ → Result A
