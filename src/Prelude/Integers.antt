-- ===== src/Prelude/Integers.antt =====
-- Integers over the native numbers, with the tests that the program makes of them.
use Prim.Native.Nat.{ℕ}
use mathlib.Core.Bool.{Bool, false}
use miradex_client.Prelude.Tests.{ltb, ◌==◌}

pub data ℤ : Type 0 where
  pos negsuc : ℕ → ℤ

abbrev pub above_zero : ℤ → Bool
above_zero (pos n) = ltb 0 n
above_zero (negsuc n) = false

abbrev pub is_zero : ℤ → Bool
is_zero (pos n) = n == 0
is_zero (negsuc n) = false

abbrev pub same_int : ℤ → ℤ → Bool
same_int (pos m) (pos n) = m == n
same_int (pos m) (negsuc n) = false
same_int (negsuc m) (pos n) = false
same_int (negsuc m) (negsuc n) = m == n
