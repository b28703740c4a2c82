-- ===== src/Machine/Trace.antt =====
-- Measures of a trace.
use textreaderrpi.Common.{if_both, Bool, if◌then◌else◌, ℕ, ◌+◌, ◌≡◌, [], ◌∷◌, ◌++◌, arith}
use textreaderrpi.Machine.{Trace, i2c_write, spi_write, gpio_put, delay, setup}

-- The time that a trace waits, in milliseconds.
abbrev pub total_ms : Trace → ℕ
total_ms [] = 0
total_ms (i2c_write a bytes ∷ t) = total_ms t
total_ms (spi_write bytes ∷ t) = total_ms t
total_ms (gpio_put p l ∷ t) = total_ms t
total_ms (delay ms ∷ t) = ms + total_ms t
total_ms (setup c ∷ t) = total_ms t

pub total_ms-append : (t u : Trace) → total_ms (t ++ u) ≡ total_ms t + total_ms u
total_ms-append [] u = omega arith
total_ms-append (i2c_write a bytes ∷ t) u = total_ms-append t u
total_ms-append (spi_write bytes ∷ t) u = total_ms-append t u
total_ms-append (gpio_put p l ∷ t) u = total_ms-append t u
total_ms-append (delay ms ∷ t) u = omega (arith, total_ms-append t u)
total_ms-append (setup c ∷ t) u = total_ms-append t u

pub if_total_ms :
    (b : Bool) (t t' : Trace) {n n' : ℕ}
    → total_ms t ≡ n
    → total_ms t' ≡ n'
    → total_ms (if b then t else t') ≡ (if b then n else n')
if_total_ms b t t' = if_both (λ u n. total_ms u ≡ n) b
