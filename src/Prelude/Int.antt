-- ===== src/Prelude/Int.antt =====
-- Integers over the native numbers, for the arguments that Python tests for a negative value.
use Prim.Native.Nat.{ℕ}
use mathlib.Core.Bool.{Bool, true}
use personal_secure_node.Prelude.Tests.{ltb}

-- `negsuc n` is -(n + 1).
pub data ℤ : Type 0 where
  pos : ℕ → ℤ
  negsuc : ℕ → ℤ

-- the integer, with every negative one sent to 0
abbrev pub to_ℕ : ℤ → ℕ
to_ℕ (pos n) = n
to_ℕ (negsuc n) = 0

-- `i < n` for a literal `n`
abbrev pub int_ltb : ℤ → ℕ → Bool
int_ltb (pos m) n = ltb m n
int_ltb (negsuc m) n = true
