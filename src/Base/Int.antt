-- ===== src/Base/Int.antt =====
-- The integers, for numbers that the source reads from a file and has not yet bounded.
use Prim.Native.Nat.{ℕ}
use mathlib.Core.Bool.{Bool, true, false}
use latchkit.Base.Tests.{ltb}

-- `negsuc n` is -(n + 1).
pub data ℤ : Type 0 where
  pos : ℕ → ℤ
  negsuc : ℕ → ℤ

abbrev pub is_negative : ℤ → Bool
is_negative (pos n) = false
is_negative (negsuc n) = true

abbrev pub below : ℤ → ℕ → Bool
below (pos n) m = ltb n m
below (negsuc n) m = true

abbrev pub above : ℤ → ℕ → Bool
above (pos n) m = ltb m n
above (negsuc n) m = false
