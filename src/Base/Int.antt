-- ===== src/Base/Int.antt =====
-- Signed status codes: zero, or a negated error number, where `negsuc n` is -(n + 1).
use Prim.Native.Nat.{ℕ}

pub data ℤ : Type 0 where
  pos : ℕ → ℤ
  negsuc : ℕ → ℤ
