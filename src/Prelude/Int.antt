-- ===== src/Prelude/Int.antt =====
-- Signed integers over the native numbers: the C types int and int32_t, read as numbers.
use Prim.Native.Nat.{ℕ}
use mathlib.Core.Bool.{Bool, true, false}
use wamr_ext.Prelude.Tests.{◌==◌}

-- `negsuc n` is -(n + 1).
pub data ℤ : Type 0 where
  pos : ℕ → ℤ
  negsuc : ℕ → ℤ

-- a < 0
abbrev pub is_neg : ℤ → Bool
is_neg (pos n) = false
is_neg (negsuc n) = true

-- Equality with a constant that is not negative.
abbrev pub eq_ℕ : ℤ → ℕ → Bool
eq_ℕ (pos n) k = n == k
eq_ℕ (negsuc n) k = false
