-- ===== src/Base/Int.antt =====
-- Signed numbers: the changes of capacity that the scaling steps name.
use Prim.Native.Nat.{ℕ}

-- `negsuc n` is -(n + 1).
pub data ℤ : Type 0 where
  pos : ℕ → ℤ
  negsuc : ℕ → ℤ
