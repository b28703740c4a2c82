-- ===== src/Max7219/Registers/Latch.antt =====
-- The value that a register of a device of the chain has after a trace.
use textreaderrpi.Common.{
  ℕ, zero, suc, ◌+◌, ◌*◌, ◌≡◌, List, [], ◌∷◌, ◌++◌, ◌<◌, ◌≤◌, if◌then◌else◌, get_or, arith, ◌==◌,
  refl,
}
use textreaderrpi.Machine.{Trace, delay, i2c_write, spi_write, gpio_put, setup}
use textreaderrpi.Driver.Loops.{traces_up, traces_down}
use textreaderrpi.Max7219.{register_pairs}
use textreaderrpi.Max7219.Spec.{row_bytes}

-- Register `reg` of the device at place `d` of the chain, from the value `v` before the trace: a
-- transfer hands each device one pair of a register and a value.
abbrev pub latched : ℕ → ℕ → ℕ → Trace → ℕ
latched reg d v [] = v
latched reg d v (i2c_write a bytes ∷ t) = latched reg d v t
latched reg d v (spi_write bytes ∷ t) =
    latched reg d (if get_or bytes (2 * d) 0 == reg then get_or bytes (2 * d + 1) 0 else v) t
latched reg d v (gpio_put p l ∷ t) = latched reg d v t
latched reg d v (delay ms ∷ t) = latched reg d v t
latched reg d v (setup c ∷ t) = latched reg d v t

pub latched-append :
    (reg d v : ℕ) (t u : Trace) → latched reg d v (t ++ u) ≡ latched reg d (latched reg d v t) u
latched-append reg d v [] u = refl
latched-append reg d v (i2c_write a bytes ∷ t) u = latched-append reg d v t u
latched-append reg d v (spi_write bytes ∷ t) u =
    latched-append reg d (if get_or bytes (2 * d) 0 == reg then get_or bytes (2 * d + 1) 0 else v) t
      u
latched-append reg d v (gpio_put p l ∷ t) u = latched-append reg d v t u
latched-append reg d v (delay ms ∷ t) u = latched-append reg d v t u
latched-append reg d v (setup c ∷ t) u = latched-append reg d v t u

pub get_or-register_pairs :
    (n reg val d : ℕ)
    → d < n
    → (get_or (register_pairs n reg val) (2 * d) 0 ≡ reg)
      × (get_or (register_pairs n reg val) (2 * d + 1) 0 ≡ val)
unfolding register_pairs
get_or-register_pairs zero reg val d h = absurd (omega arith)
get_or-register_pairs (suc n) reg val zero h = (refl, refl)
get_or-register_pairs (suc n) reg val (suc d) h =
    rw (twice, twice_one) (get_or-register_pairs n reg val d (omega arith))
  where
    twice : 2 * suc d ≡ suc (suc (2 * d))
    twice = omega arith

    twice_one : suc (suc (2 * d)) + 1 ≡ suc (suc (2 * d + 1))
    twice_one = omega arith

pub get_or-row_bytes :
    (num_devices : ℕ) (b : List ℕ) (offset row n k d : ℕ)
    → d < n
    → get_or (row_bytes num_devices b offset row n k) (2 * d) 0 ≡ 1 + row
unfolding row_bytes
get_or-row_bytes num_devices b offset row zero k d h = absurd (omega arith)
get_or-row_bytes num_devices b offset row (suc n) k zero h = refl
get_or-row_bytes num_devices b offset row (suc n) k (suc d) h =
    rw (twice) (get_or-row_bytes num_devices b offset row n (suc k) d (omega arith))
  where
    twice : 2 * suc d ≡ suc (suc (2 * d))
    twice = omega arith

-- A trace that takes the register from `v` back to `v`.
abbrev pub Stable : ℕ → ℕ → ℕ → Trace → Type 0
Stable reg d v t = latched reg d v t ≡ v

module _ (reg d v : ℕ) where
  pub Stable-append : (t u : Trace) → Stable reg d v t → Stable reg d v u → Stable reg d v (t ++ u)
  Stable-append t u p q = rw (latched-append, p) q

  pub Stable-traces_up :
      (n k hi : ℕ) (f : ℕ → Trace)
      → k + n ≤ hi
      → ((i : ℕ) → i < hi → Stable reg d v (f i))
      → Stable reg d v (traces_up n k f)
  unfolding traces_up
  Stable-traces_up zero k hi f fits h = refl
  Stable-traces_up (suc n) k hi f fits h =
      Stable-append (f k) (traces_up n (suc k) f) (h k (omega arith))
        (Stable-traces_up n (suc k) hi f (omega arith) h)

  pub Stable-traces_down :
      (n : ℕ) (f : ℕ → Trace) → ((i : ℕ) → Stable reg d v (f i)) → Stable reg d v (traces_down n f)
  unfolding traces_down
  Stable-traces_down zero f h = refl
  Stable-traces_down (suc n) f h =
      Stable-append (f n) (traces_down n f) (h n) (Stable-traces_down n f h)

-- `transmit` hands the whole buffer to the chain, and nothing else.
