-- ===== src/Prelude/Integers.antt =====
-- Numbers that may be negative, as the protocol and JSON carry them.
use Prim.Native.Nat.{ℕ}

-- `negsuc n` is -(n + 1)
pub data ℤ : Type 0 where
  pos negsuc : ℕ → ℤ
