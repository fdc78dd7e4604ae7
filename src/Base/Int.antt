-- ===== src/Base/Int.antt =====
-- C++ `int` and `long`: comparisons and arithmetic, on values that fit.
use Prim.Native.Nat.{ℕ, zero, suc, ◌+◌, ◌-◌, ◌*◌, ◌/◌, ◌%◌, ◌^◌}
use mathlib.Core.Bool.{Bool, true, false}
use embed_agent.Base.Tests.{leb, if◌then◌else◌}

-- `negsuc n` is -(n + 1).
pub data ℤ : Type 0 where
  pos : ℕ → ℤ
  negsuc : ℕ → ℤ

-- `a <= b`.
abbrev pub leb_ℤ : ℤ → ℤ → Bool
leb_ℤ (pos a) (pos b) = leb a b
leb_ℤ (pos a) (negsuc b) = false
leb_ℤ (negsuc a) (pos b) = true
leb_ℤ (negsuc a) (negsuc b) = leb b a

-- `a + 1`.
abbrev pub suc_ℤ : ℤ → ℤ
suc_ℤ (pos a) = pos (suc a)
suc_ℤ (negsuc zero) = pos 0
suc_ℤ (negsuc (suc a)) = negsuc a

-- static_cast<std::size_t> of an int.
abbrev pub to_size : ℤ → ℕ
to_size (pos a) = a
to_size (negsuc a) = 2 ^ 64 - 1 - a

-- Minus a number.
abbrev pub opposite : ℕ → ℤ
opposite zero = pos 0
opposite (suc n) = negsuc n

-- The difference of two numbers.
abbrev pub difference : ℕ → ℕ → ℤ
difference a b = if leb b a then pos (a - b) else negsuc (b - suc a)

-- `a - b`, `a * k`, `a / k` and `a % k`; the quotient is rounded to 0.
abbrev pub sub_ℤ : ℤ → ℤ → ℤ
sub_ℤ (pos a) (pos b) = difference a b
sub_ℤ (pos a) (negsuc b) = pos (a + suc b)
sub_ℤ (negsuc a) (pos b) = negsuc (a + b)
sub_ℤ (negsuc a) (negsuc b) = difference b a

abbrev pub scale_ℤ : ℤ → ℕ → ℤ
scale_ℤ (pos a) k = pos (a * k)
scale_ℤ (negsuc a) k = opposite (suc a * k)

abbrev pub quot_ℤ : ℤ → ℕ → ℤ
quot_ℤ (pos a) k = pos (a / k)
quot_ℤ (negsuc a) k = opposite (suc a / k)

abbrev pub rem_ℤ : ℤ → ℕ → ℤ
rem_ℤ (pos a) k = pos (a % k)
rem_ℤ (negsuc a) k = opposite (suc a % k)
