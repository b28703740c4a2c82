-- ===== src/Driver/Timing.antt =====
-- The waiting time of the counted loops.
use textreaderrpi.Common.{ℕ, zero, suc, ◌*◌, ◌≡◌, arith, ◌≤◌}
use textreaderrpi.Common.Int.{ℤ, pos, negsuc}
use textreaderrpi.Machine.{Trace}
use textreaderrpi.Machine.Trace.{total_ms, total_ms-append}
use textreaderrpi.Driver.{clamp_speed}
use textreaderrpi.Driver.Loops.{traces_up, traces_down}

pub clamp_speed-le : (v : ℤ) → clamp_speed v ≤ 5000
unfolding clamp_speed
clamp_speed-le (negsuc n) = omega arith
clamp_speed-le (pos n) = ground arith

pub total_ms-traces_up :
    (ms n k : ℕ) (f : ℕ → Trace)
    → ((i : ℕ) → total_ms (f i) ≡ ms)
    → total_ms (traces_up n k f) ≡ n * ms
unfolding traces_up
total_ms-traces_up ms zero k f h = omega arith
total_ms-traces_up ms (suc n) k f h =
    omega (
      arith,
      total_ms-append (f k) (traces_up n (suc k) f),
      h k,
      total_ms-traces_up ms n (suc k) f h,
    )

pub total_ms-traces_down :
    (ms n : ℕ) (f : ℕ → Trace)
    → ((i : ℕ) → total_ms (f i) ≡ ms)
    → total_ms (traces_down n f) ≡ n * ms
unfolding traces_down
total_ms-traces_down ms zero f h = omega arith
total_ms-traces_down ms (suc n) f h =
    omega (arith, total_ms-append (f n) (traces_down n f), h n, total_ms-traces_down ms n f h)
