-- ===== src/Base/Int.antt =====
-- Integers over the native numbers, with the library's constructors.
use Prim.Native.Nat.{ℕ}

pub data ℤ : Type 0 where
  pos : ℕ → ℤ
  -- The integer -1 - n.
  negsuc : ℕ → ℤ
