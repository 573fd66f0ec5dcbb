-- ===== src/Common/Int.antt =====
-- C's `int` as an integer over the native numbers; `negsuc n` is -(n + 1).
use Prim.Native.Nat.{ℕ, suc}

pub data ℤ : Type 0 where
  pos : ℕ → ℤ
  negsuc : ℕ → ℤ

abbrev pub pos_part : ℤ → ℕ
pos_part (pos n) = n
pos_part (negsuc n) = 0

abbrev pub neg_part : ℤ → ℕ
neg_part (pos n) = 0
neg_part (negsuc n) = suc n
