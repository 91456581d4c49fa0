-- ===== src/Prelude/Int.antt =====
-- Integers over the native numbers: exit codes, which are negative after a signal, and JSON numbers.
use Prim.Native.Nat.{ℕ}

-- `negsuc n` is -(n + 1).
pub data ℤ : Type 0 where
  pos : ℕ → ℤ
  negsuc : ℕ → ℤ
