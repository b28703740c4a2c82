-- ===== src/Common/Int.antt =====
-- The C type `int` as an integer over the native numbers (`negsuc n` is -(n + 1)).
pub mod Laws
use Prim.Native.Nat.{ℕ, zero, suc, ◌+◌, ◌-◌}
use mathlib.Core.Bool.{Bool, true, false}
use textreaderrpi.Common.Tests.{ltb, leb, if◌then◌else◌}

pub data ℤ : Type 0 where
  pos : ℕ → ℤ
  negsuc : ℕ → ℤ

-- The largest value of a 32-bit `int`.
abbrev pub int_max : ℕ
int_max = 2147483647

-- `-n`
unfoldable pub negated : ℕ → ℤ
negated zero = pos 0
negated (suc n) = negsuc n

-- `x + n`
unfoldable pub plus : ℤ → ℕ → ℤ
plus (pos a) n = pos (a + n)
plus (negsuc a) n = if ltb a n then pos (n - suc a) else negsuc (a - n)

-- `x >= n`
unfoldable pub at_least : ℤ → ℕ → Bool
at_least (pos a) n = leb n a
at_least (negsuc a) n = false

-- `x < 0 ? 0 : x`
unfoldable pub clip : ℤ → ℕ
clip (pos a) = a
clip (negsuc a) = 0

-- The integer `a - b`.
unfoldable pub minus : ℕ → ℕ → ℤ
minus a b = if ltb a b then negsuc (b - suc a) else pos (a - b)
