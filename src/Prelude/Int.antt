-- ===== src/Prelude/Int.antt =====
-- Signed integers over the native numbers, under the library's names, with C's division.
use fsdyn.Prelude.Tests.{ltb, leb, if◌then◌else◌}
use mathlib.Core.Bool.{Bool, true, false}
use Prim.Native.Nat.{ℕ, zero, suc, ◌+◌, ◌-◌, ◌*◌, ◌/◌, ◌%◌}

-- `negsuc n` is -(n + 1).
pub data ℤ : Type 0 where
  pos : ℕ → ℤ
  negsuc : ℕ → ℤ

-- -n
abbrev pub neg_ℕ : ℕ → ℤ
neg_ℕ zero = pos 0
neg_ℕ (suc n) = negsuc n

-- a - b, as an integer.
abbrev pub sub_ℕ : ℕ → ℕ → ℤ
sub_ℕ a b = if leb b a then pos (a - b) else negsuc (b - a - 1)

infixl 65 ◌+ℤ◌
abbrev pub ◌+ℤ◌ : ℤ → ℤ → ℤ
pos a +ℤ pos b = pos (a + b)
pos a +ℤ negsuc b = sub_ℕ a (suc b)
negsuc a +ℤ pos b = sub_ℕ b (suc a)
negsuc a +ℤ negsuc b = negsuc (a + b + 1)

-- The product by a number.
abbrev pub scale : ℕ → ℤ → ℤ
scale k (pos a) = pos (k * a)
scale k (negsuc a) = neg_ℕ (k * suc a)

-- C's `/` and `%` by a positive divisor: the quotient is rounded towards zero, and the remainder
-- has the sign of the dividend.
abbrev pub div_trunc : ℤ → ℕ → ℤ
div_trunc (pos a) d = pos (a / d)
div_trunc (negsuc a) d = neg_ℕ (suc a / d)

abbrev pub mod_trunc : ℤ → ℕ → ℤ
mod_trunc (pos a) d = pos (a % d)
mod_trunc (negsuc a) d = neg_ℕ (suc a % d)

-- The value of a type with the range -m .. m - 1.
abbrev pub fits : ℕ → ℤ → Bool
fits m (pos a) = ltb a m
fits m (negsuc a) = ltb a m

abbrev pub neg_ℤ : ℤ → ℤ
neg_ℤ (pos a) = neg_ℕ a
neg_ℤ (negsuc a) = pos (suc a)

-- z ≤ 0 and 0 ≤ z
abbrev pub nonpos : ℤ → Bool
nonpos (pos zero) = true
nonpos (pos (suc a)) = false
nonpos (negsuc a) = true

abbrev pub nonneg : ℤ → Bool
nonneg (pos a) = true
nonneg (negsuc a) = false
