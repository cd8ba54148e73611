-- ===== src/Prelude/Int.antt =====
-- Signed integers over the native numbers: `negsuc n` is -(n + 1).
use ezfadvance_iii.Prelude.Tests.{if◌then◌else◌, leb, ltb}
use Prim.Native.Nat.{ℕ, suc, ◌-◌, ◌^◌}

pub data ℤ : Type 0 where
  pos : ℕ → ℤ
  negsuc : ℕ → ℤ

abbrev pub pos_part : ℤ → ℕ
pos_part (pos n) = n
pos_part (negsuc n) = 0

abbrev pub neg_part : ℤ → ℕ
neg_part (pos n) = 0
neg_part (negsuc n) = suc n

-- a - b, as an integer.
abbrev pub sub_ℕ : ℕ → ℕ → ℤ
sub_ℕ a b = if leb b a then pos (a - b) else negsuc (b - a - 1)

-- The integer that `width` bits stand for in two's complement.
abbrev pub sign_extend : ℕ → ℕ → ℤ
sign_extend width v = if ltb v (2 ^ (width - 1)) then pos v else sub_ℕ v (2 ^ width)
