-- ===== src/Base/Int.antt =====
-- The signed results of the C interface: a count, or a negative code.
use Prim.Native.Nat.{ℕ}

-- `negsuc n` is -(n + 1).
pub data ℤ : Type 0 where
  pos : ℕ → ℤ
  negsuc : ℕ → ℤ
