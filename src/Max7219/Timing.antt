-- ===== src/Max7219/Timing.antt =====
-- How long `display_text` keeps its caller waiting.
use textreaderrpi.Driver.Timing.{total_ms-traces_up, total_ms-traces_down, clamp_speed-le}
use textreaderrpi.Driver.Loops.{traces_up, traces_down}
use textreaderrpi.Machine.Trace.{if_total_ms, total_ms, total_ms-append}
use native.Mathlib.Nat.{mul-div-le, mul-le-mul, le_trans}
use textreaderrpi.Common.{
  inl, inr, true, false, some, ◌≤◌, ℕ, suc, ◌≡◌, List, ◌∙◌, arith, length, ◌*◌, if◌then◌else◌, ◌∷◌,
  ◌/◌, [], ◌+◌, ◌++◌, ◌-◌, Bool-cases,
}
use textreaderrpi.Common.Text.{codes, same_text}
use textreaderrpi.Common.Int.{ℤ}
use textreaderrpi.Driver.{clamp_speed, positive_or}
use textreaderrpi.Bitmap.Laws.{length-bitmap-le}
use textreaderrpi.Max7219.Laws.{drawn, display_text-effect_trace}
use textreaderrpi.Machine.{Trace, delay}
use textreaderrpi.Max7219.{State, display_text, write_reg, reg_intensity, reg_shutdown}
use textreaderrpi.Max7219.Spec.{
  columns, max_fade_steps, frame, shown, flash, level_shown, fade_level, fade_trace, effect_trace,
  scroll_trace, reverse_trace, blink_trace,
}

-- The waiting time of each effect, for `cols` drawn columns on a display `w` columns wide.
abbrev pub duration : ℕ → ℕ → List ℕ → ℕ → ℕ → ℕ → ℕ
duration cols w effect speed_ms blink_period_ms fade_steps =
    if same_text effect (codes "SCROLL")
    then (cols + 1 - w) * speed_ms
    else if same_text effect (codes "BLINK")
    then 12 * blink_period_ms
    else if same_text effect (codes "REVERSE")
    then suc (cols - w) * speed_ms
    else if same_text effect (codes "FADE")
    then 2 * (fade_steps * (speed_ms / fade_steps))
    else 2000

-- A transfer takes no time of its own.
module _ (num_devices : ℕ) (transmit : List ℕ → Trace)
    (silent : (buf : List ℕ) → total_ms (transmit buf) ≡ 0) where
  module _ (b : List ℕ) where
    total_ms-frame : (offset : ℕ) → total_ms (frame num_devices transmit b offset) ≡ 0
    unfolding frame
    total_ms-frame offset = total_ms-traces_up 0 8 0 _ (λ row. silent _) ∙ omega arith

    total_ms-shown : (ms offset : ℕ) → total_ms (shown num_devices transmit b ms offset) ≡ ms
    unfolding shown
    total_ms-shown ms offset = omega (
      arith,
      total_ms-append (frame num_devices transmit b offset) (delay ms ∷ []),
      total_ms-frame offset,
    )

    total_ms-write_reg : (reg val : ℕ) → total_ms (write_reg num_devices transmit reg val) ≡ 0
    unfolding write_reg
    total_ms-write_reg reg val = silent _

    total_ms-flash : (ms : ℕ) → total_ms (flash num_devices transmit b ms) ≡ 2 * ms
    unfolding flash
    total_ms-flash ms = omega (
      arith,
      total_ms-append (write_reg num_devices transmit reg_shutdown 0) (
          delay ms ∷ write_reg num_devices transmit reg_shutdown 1
          ++ frame num_devices transmit b 0),
      total_ms-append (write_reg num_devices transmit reg_shutdown 1)
          (frame num_devices transmit b 0),
      total_ms-write_reg reg_shutdown 0,
      total_ms-write_reg reg_shutdown 1,
      total_ms-frame 0,
    )

    total_ms-level_shown :
        (ms fade_steps step : ℕ)
        → total_ms (level_shown num_devices transmit ms fade_steps step) ≡ ms / fade_steps
    unfolding level_shown
    total_ms-level_shown ms fade_steps step = omega (
      arith,
      total_ms-append (write_reg num_devices transmit reg_intensity (fade_level fade_steps step))
          (delay (ms / fade_steps) ∷ []),
      total_ms-write_reg reg_intensity (fade_level fade_steps step),
    )

    total_ms-fade_trace :
        (ms fade_steps : ℕ)
        → total_ms (fade_trace num_devices transmit b ms fade_steps)
          ≡ 2 * (fade_steps * (ms / fade_steps))
    unfolding fade_trace
    total_ms-fade_trace ms fade_steps =
        let up = traces_up fade_steps 0 (level_shown num_devices transmit ms fade_steps) in
        let down = traces_down fade_steps (level_shown num_devices transmit ms fade_steps) in
        let last = write_reg num_devices transmit reg_intensity 4 in
        omega (
          arith,
          total_ms-append (frame num_devices transmit b 0) (up ++ (down ++ last)),
          total_ms-append up (down ++ last),
          total_ms-append down last,
          total_ms-frame 0,
          total_ms-write_reg reg_intensity 4,
          total_ms-traces_up (ms / fade_steps) fade_steps 0
              (level_shown num_devices transmit ms fade_steps) (total_ms-level_shown ms fade_steps),
          total_ms-traces_down (ms / fade_steps) fade_steps
              (level_shown num_devices transmit ms fade_steps) (total_ms-level_shown ms fade_steps),
        )

    total_ms-effect_trace :
        (effect : List ℕ) (ms blink_ms fade_steps : ℕ)
        → total_ms (effect_trace num_devices transmit b effect ms blink_ms fade_steps)
          ≡ duration (length b) (num_devices * 8) effect ms blink_ms fade_steps
    unfolding effect_trace scroll_trace reverse_trace blink_trace
    total_ms-effect_trace effect ms blink_ms fade_steps =
        if_total_ms (same_text effect (codes "SCROLL")) _ _
          (total_ms-traces_up ms (length b + 1 - num_devices * 8) 0 _ (total_ms-shown ms))
          (if_total_ms (same_text effect (codes "BLINK")) _ _ blinking (
            if_total_ms (same_text effect (codes "REVERSE")) _ _
              (total_ms-traces_down ms (suc (length b - num_devices * 8)) _ (total_ms-shown ms))
              (if_total_ms (same_text effect (codes "FADE")) _ _ (total_ms-fade_trace ms fade_steps)
                (omega (
                  arith,
                  total_ms-append (frame num_devices transmit b 0) (delay 2000 ∷ []),
                  total_ms-frame 0,
                )))))
      where
        blinking :
            total_ms (
              frame num_devices transmit b 0
              ++ traces_up 6 0 (λ i. flash num_devices transmit b blink_ms))
            ≡ 12 * blink_ms
        blinking = omega (
          arith,
          total_ms-append (frame num_devices transmit b 0)
              (traces_up 6 0 (λ i. flash num_devices transmit b blink_ms)),
          total_ms-frame 0,
          total_ms-traces_up (2 * blink_ms) 6 0 (λ i. flash num_devices transmit b blink_ms)
              (λ i. total_ms-flash blink_ms),
        )

  -- For at least one device, an `s_bitmap` of the declared size, a `transmit` that does not
  -- wait, and at most 143165577 steps in a FADE: `display_text` succeeds, and its waits add up
  -- to the duration that the effect has for the drawn columns and the clamped parameters.
  pub display_text-duration :
      (s : State) (text effect : List ℕ) (speed_ms blink_period_ms fade_steps : ℤ)
      → 1 ≤ num_devices
      → length s.s_bitmap ≡ 256 + num_devices * 8
      → (same_text effect (codes "FADE") ≡ true → positive_or 8 fade_steps ≤ max_fade_steps)
      → (t : Trace) × (display_text num_devices transmit s text effect speed_ms blink_period_ms
            fade_steps
          ≡ some (drawn (columns num_devices text) s.s_bitmap, t))
        × (total_ms t
            ≡ duration
                (length (columns num_devices text))
                (num_devices * 8)
                effect
                (clamp_speed speed_ms)
                (positive_or 500 blink_period_ms)
                (positive_or 8 fade_steps))
  display_text-duration s text effect speed_ms blink_period_ms fade_steps one size fits = (
    effect_trace num_devices transmit (columns num_devices text) effect (clamp_speed speed_ms)
        (positive_or 500 blink_period_ms) (positive_or 8 fade_steps),
    display_text-effect_trace num_devices transmit s text effect speed_ms blink_period_ms fade_steps
        one size fits,
    total_ms-effect_trace (columns num_devices text) effect (clamp_speed speed_ms)
        (positive_or 500 blink_period_ms) (positive_or 8 fade_steps),
  )

columns-room : (n : ℕ) (text : List ℕ) → 1 ≤ n → length (columns n text) ≤ 256 + n * 8
unfolding columns
columns-room n text one = length-bitmap-le 255 (n * 8) (256 + n * 8) text (omega arith)

-- For at least one device, no text, speed or step count makes an effect other than BLINK wait
-- longer than 1285 seconds.
pub duration-le :
    (n : ℕ) (text effect : List ℕ) (speed_ms : ℤ) (blink_ms fade_steps : ℕ)
    → 1 ≤ n
    → same_text effect (codes "BLINK") ≡ false
    → duration (length (columns n text)) (n * 8) effect (clamp_speed speed_ms) blink_ms fade_steps
      ≤ 1285000
duration-le n text effect speed_ms blink_ms fade_steps one other =
    elim (Bool-cases (same_text effect (codes "SCROLL"))) [
      | inl t ↦ rw t (product _ (omega (arith, columns-room n text one)))
      | inr f ↦
          rw (f, other)
            (elim (Bool-cases (same_text effect (codes "REVERSE"))) [
              | inl t ↦ rw t (product _ (omega (arith, columns-room n text one)))
              | inr f' ↦ rw f' (elim (Bool-cases (same_text effect (codes "FADE"))) [
                | inl t ↦ rw t (
                    omega (
                      arith,
                      mul-div-le (clamp_speed speed_ms) fade_steps,
                      clamp_speed-le speed_ms,
                    ))
                | inr f'' ↦ rw f'' (omega arith)
              ])
            ])
    ]
  where
    product : (k : ℕ) → k ≤ 257 → k * clamp_speed speed_ms ≤ 1285000
    product k h = le_trans (mul-le-mul h (clamp_speed-le speed_ms)) (omega arith)

-- For at least one device, an `s_bitmap` of the declared size, a `transmit` that does not wait, an
-- effect other than BLINK, and at most 143165577 steps in a FADE: `display_text` succeeds and waits
-- at most 1285 seconds, whatever text, speed and periods the message asks for.
pub display_text-bounded :
    (num_devices : ℕ) (transmit : List ℕ → Trace)
    → ((buf : List ℕ) → total_ms (transmit buf) ≡ 0)
    → (s : State) (text effect : List ℕ) (speed_ms blink_period_ms fade_steps : ℤ) → 1 ≤ num_devices
    → length s.s_bitmap ≡ 256 + num_devices * 8
    → (same_text effect (codes "FADE") ≡ true → positive_or 8 fade_steps ≤ max_fade_steps)
    → same_text effect (codes "BLINK") ≡ false
    → (t : Trace) × (display_text num_devices transmit s text effect speed_ms blink_period_ms
          fade_steps
        ≡ some (drawn (columns num_devices text) s.s_bitmap, t))
      × (total_ms t ≤ 1285000)
display_text-bounded n transmit silent s text effect speed_ms blink_period_ms fade_steps one size
      fits other =
    let (t, runs, lasts) =
      display_text-duration n transmit silent s text effect speed_ms blink_period_ms fade_steps one
        size fits in
    (
      t,
      runs,
      rw lasts (
          duration-le n text effect speed_ms (positive_or 500 blink_period_ms)
            (positive_or 8 fade_steps) one other),
    )
