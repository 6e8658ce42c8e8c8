-- ===== src/Base/Int.antt =====
-- Integers, for numbers that a caller may give as negative.
use Prim.Native.Nat.{ℕ}
use mathlib.Core.Bool.{Bool, true}
use ssrfguard.Base.Tests.{ltb}

-- `negsuc n` is -(n + 1).
pub data ℤ : Type 0 where
  pos : ℕ → ℤ
  negsuc : ℕ → ℤ

-- `i < n`, for a number `n` that is not negative
abbrev pub is_below : ℤ → ℕ → Bool
is_below (pos m) n = ltb m n
is_below (negsuc m) n = true

abbrev pub to_ℕ : ℤ → ℕ
to_ℕ (pos n) = n
to_ℕ (negsuc n) = 0
