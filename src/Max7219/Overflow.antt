-- ===== src/Max7219/Overflow.antt =====
-- The FADE effect with more steps than `step * 15` has room for in an `int`.
use textreaderrpi.Max7219.Laws.{set_text-columns}
use textreaderrpi.Max7219.Spec.{max_fade_steps}
use textreaderrpi.Common.{
  ℕ, zero, suc, ◌≡◌, none, some, List, lt→not_leb, ◌<◌, ◌*◌, ◌≤◌, length, ◌+◌, arith, refl,
  if◌then◌else◌, ltb, ◌-◌,
}
use textreaderrpi.Common.Int.{ℤ, pos, int_max}
use textreaderrpi.Machine.{M, Trace, ◌>>◌}
use native.Mathlib.Decide.{dec_lt}
use textreaderrpi.Driver.Loops.{for_up}
use textreaderrpi.Driver.{positive_or, clamp_speed}
use textreaderrpi.Max7219.Laws.{drawn, render_columns-frame}
use textreaderrpi.Common.Text.{codes}
use textreaderrpi.Max7219.{State, mul_int, display_text, run_effect, fade, fade_step}

then_none : (m r : M (Unit {0})) → r ≡ none → (m >> r) ≡ none
then_none none r h = refl
then_none (some (a, t)) r h = rw h

-- A loop is undefined if any round that it reaches is.
for_up-none :
    (n k j : ℕ) (body : ℕ → M (Unit {0}))
    → k ≤ j
    → j < k + n
    → body j ≡ none
    → for_up n k body ≡ none
unfolding for_up
for_up-none zero k j body low high h = absurd (omega arith)
for_up-none (suc n) k j body low high h = elim (dec_lt k j) [
  | yes later ↦ then_none (body k) _ (for_up-none n (suc k) j body (omega arith) (omega arith) h)
  | no now ↦ (let e : k ≡ j = omega arith in rw (e, h))
]

mul_int-none : (a b : ℕ) → int_max < a * b → mul_int a b ≡ none
unfolding mul_int
mul_int-none a b h = rw (lt→not_leb (a * b) int_max h)

positive_or-pos : (d n : ℕ) → 0 < n → positive_or d (pos n) ≡ n
unfolding positive_or
positive_or-pos d zero h = absurd (omega arith)
positive_or-pos d (suc n) h = refl

fade_step-none :
    (num_devices : ℕ) (transmit : List ℕ → Trace) (ms fade_steps div : ℕ)
    → fade_step num_devices transmit ms fade_steps div max_fade_steps ≡ none
unfolding fade_step
fade_step-none n transmit ms fade_steps div = rw (mul_int-none max_fade_steps 15 (omega arith))

fade-none :
    (num_devices : ℕ) (transmit : List ℕ → Trace) (b out : List ℕ) (ms steps : ℕ)
    → max_fade_steps < steps
    → fade num_devices transmit (drawn b out) ms steps ≡ none
unfolding fade
fade-none n transmit b out ms steps many =
    let div : ℕ = if ltb 1 steps then steps - 1 else 1 in
    rw (
      render_columns-frame n transmit b out 0,
      for_up-none steps 0 max_fade_steps (fade_step n transmit ms steps div) (omega arith)
          (omega arith) (fade_step-none n transmit ms steps div),
    )

-- For at least one device and an `s_bitmap` of the declared size, a FADE with more than
-- 143165577 steps is undefined behaviour for every text and speed: `step * 15` overflows in the
-- first loop.
pub display_text-overflow :
    (num_devices : ℕ) (transmit : List ℕ → Trace) (s : State) (text : List ℕ)
    (speed_ms blink_period_ms : ℤ) (steps : ℕ)
    → 1 ≤ num_devices
    → length s.s_bitmap ≡ 256 + num_devices * 8
    → max_fade_steps < steps
    → display_text num_devices transmit s text (codes "FADE") speed_ms blink_period_ms (pos steps)
      ≡ none
unfolding display_text run_effect
display_text-overflow n transmit s text speed_ms blink_period_ms steps one size many = rw (
  set_text-columns n s text one size,
  positive_or-pos 8 steps (omega arith),
  fade-none n transmit _ s.s_bitmap (clamp_speed speed_ms) steps many,
)
