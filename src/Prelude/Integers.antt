-- ===== src/Prelude/Integers.antt =====
-- Python's whole numbers over the native numbers, under the library's names.
use Prim.Native.Nat.{ℕ, zero, suc, ◌+◌, ◌-◌}
use mathlib.Core.Bool.{Bool, true, false}
use switch_ops.Prelude.Tests.{ltb, ◌==◌, if◌then◌else◌}

-- `negsuc n` is -(n + 1).
pub data ℤ : Type 0 where
  pos negsuc : ℕ → ℤ

infixl 65 ◌+ℤ◌
abbrev pub ◌+ℤ◌ : ℤ → ℤ → ℤ
pos a +ℤ pos b = pos (a + b)
pos a +ℤ negsuc b = if ltb b a then pos (a - suc b) else negsuc (b - a)
negsuc a +ℤ pos b = if ltb a b then pos (b - suc a) else negsuc (a - b)
negsuc a +ℤ negsuc b = negsuc (suc (a + b))

-- -n
abbrev pub minus : ℕ → ℤ
minus zero = pos 0
minus (suc n) = negsuc n

abbrev pub ltb_ℤ : ℤ → ℤ → Bool
ltb_ℤ (pos a) (pos b) = ltb a b
ltb_ℤ (pos a) (negsuc b) = false
ltb_ℤ (negsuc a) (pos b) = true
ltb_ℤ (negsuc a) (negsuc b) = ltb b a

abbrev pub eqb_ℤ : ℤ → ℤ → Bool
eqb_ℤ (pos a) (pos b) = a == b
eqb_ℤ (pos a) (negsuc b) = false
eqb_ℤ (negsuc a) (pos b) = false
eqb_ℤ (negsuc a) (negsuc b) = a == b
