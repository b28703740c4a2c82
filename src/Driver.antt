-- ===== src/Driver.antt =====
-- What the display drivers share: the clamping of their parameters, the reversed copy of a text, and
-- the shapes of their loops.
pub mod Loops
pub mod Reverse
pub mod Script
pub mod Timing
use textreaderrpi.Common.{ℕ, zero, suc, Bool, ltb, if◌then◌else◌}
use textreaderrpi.Common.Int.{ℤ, pos, negsuc}

-- `s < 1 ? 1 : s > 5000 ? 5000 : s`; the result is positive.
unfoldable pub clamp_speed : ℤ → ℕ
clamp_speed (negsuc n) = 1
clamp_speed (pos s) = if ltb s 1 then 1 else if ltb 5000 s then 5000 else s

-- `if (v <= 0) v = d;`
unfoldable pub positive_or : ℕ → ℤ → ℕ
positive_or d (negsuc n) = d
positive_or d (pos zero) = d
positive_or d (pos (suc n)) = suc n
