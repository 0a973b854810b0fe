-- ===== src/Common/Ints.antt =====
-- The products and conversions of C++ `int` that the program makes. An `int` product that overflows
-- is undefined there; here it is the exact one.
use Prim.Native.Nat.{ℕ, zero, suc, ◌-◌, ◌*◌, ◌%◌, ◌^◌}
use minicam_hal.Common.Tests.{ℤ, pos, negsuc}

abbrev pub negated : ℕ → ℤ
negated zero = pos 0
negated (suc n) = negsuc n

infixl 70 ◌*ℤ◌
unfoldable pub ◌*ℤ◌ : ℤ → ℤ → ℤ
pos a *ℤ pos b = pos (a * b)
pos a *ℤ negsuc b = negated (a * suc b)
negsuc a *ℤ pos b = negated (suc a * b)
negsuc a *ℤ negsuc b = pos (suc a * suc b)

-- `static_cast<size_t>`, and to `uint64_t`.
unfoldable pub to_size : ℤ → ℕ
to_size (pos n) = n % 2 ^ 64
to_size (negsuc n) = 2 ^ 64 - 1 - n % 2 ^ 64

-- A product of `size_t`.
abbrev pub mul_size : ℕ → ℕ → ℕ
mul_size a b = a * b % 2 ^ 64
