-- ===== src/Max7219/Registers.antt =====
-- The power and brightness registers of the MAX7219 chain after `display_text`.
pub mod Latch
use textreaderrpi.Max7219.Registers.Latch.{
  latched, latched-append, get_or-register_pairs, get_or-row_bytes, Stable, Stable-append,
  Stable-traces_up, Stable-traces_down,
}
use textreaderrpi.Max7219.Laws.{drawn, display_text-effect_trace}
use textreaderrpi.Common.{
  ℕ, zero, suc, ◌+◌, ◌*◌, ◌≡◌, List, [], ◌∷◌, ◌++◌, ◌<◌, ◌≤◌, if◌then◌else◌, get_or, arith, ◌==◌,
  refl, ◌∙◌, ◌/◌, length, ◌-◌, Bool, true, false, some,
}
use textreaderrpi.Machine.{Trace, delay, i2c_write, spi_write, gpio_put, setup}
use textreaderrpi.Driver.Loops.{traces_up, traces_down}
use textreaderrpi.Max7219.{
  register_pairs, write_reg, reg_shutdown, reg_intensity, State, ℤ, same_text, codes, positive_or,
  display_text, clamp_speed,
}
use textreaderrpi.Max7219.Spec.{
  row_bytes, frame, shown, flash, level_shown, fade_level, fade_trace, effect_trace, scroll_trace,
  blink_trace, reverse_trace, max_fade_steps, columns,
}

module _ (num_devices : ℕ) (transmit : List ℕ → Trace)
    (wired : (reg d v : ℕ) (buf : List ℕ)
      → latched reg d v (transmit buf) ≡ latched reg d v (spi_write buf ∷ []))
    (d : ℕ) (on_chain : d < num_devices) where
  latched-write_reg :
      (reg v r x : ℕ)
      → latched reg d v (write_reg num_devices transmit r x) ≡ (if r == reg then x else v)
  unfolding write_reg
  latched-write_reg reg v r x = rw (
    wired,
    (get_or-register_pairs num_devices r x d on_chain).0,
    (get_or-register_pairs num_devices r x d on_chain).1,
  )

  latched-write_reg_append :
      (reg v r x : ℕ) (u : Trace)
      → latched reg d v (write_reg num_devices transmit r x ++ u)
        ≡ latched reg d (if r == reg then x else v) u
  latched-write_reg_append reg v r x u = rw (latched-append, latched-write_reg)

  module _ (b : List ℕ) where
    frame-Stable :
        (reg v offset : ℕ) → 9 ≤ reg → Stable reg d v (frame num_devices transmit b offset)
    unfolding frame
    frame-Stable reg v offset high = Stable-traces_up reg d v 8 0 8 _ (omega arith) λ row lt.
        rw (wired, get_or-row_bytes num_devices b offset row num_devices 0 d on_chain)
          (ground arith)

    shown-Stable :
        (reg v ms offset : ℕ) → 9 ≤ reg → Stable reg d v (shown num_devices transmit b ms offset)
    unfolding shown
    shown-Stable reg v ms offset high =
        Stable-append reg d v (frame num_devices transmit b offset) (delay ms ∷ [])
          (frame-Stable reg v offset high) refl

    -- A flash ends with the display on.
    flash-power : (ms : ℕ) → Stable reg_shutdown d 1 (flash num_devices transmit b ms)
    unfolding flash
    flash-power ms =
        latched-write_reg_append reg_shutdown 1 reg_shutdown 0 _
        ∙ latched-write_reg_append reg_shutdown 0 reg_shutdown 1 _
        ∙ frame-Stable reg_shutdown 1 0 (omega arith)

    flash-brightness : (ms : ℕ) → Stable reg_intensity d 4 (flash num_devices transmit b ms)
    unfolding flash
    flash-brightness ms =
        latched-write_reg_append reg_intensity 4 reg_shutdown 0 _
        ∙ latched-write_reg_append reg_intensity 4 reg_shutdown 1 _
        ∙ frame-Stable reg_intensity 4 0 (omega arith)

    level_shown-power :
        (ms fade_steps step : ℕ)
        → Stable reg_shutdown d 1 (level_shown num_devices transmit ms fade_steps step)
    unfolding level_shown
    level_shown-power ms fade_steps step =
        latched-write_reg_append reg_shutdown 1 reg_intensity (fade_level fade_steps step)
          (delay (ms / fade_steps) ∷ [])

    fade_trace-power :
        (ms fade_steps : ℕ)
        → Stable reg_shutdown d 1 (fade_trace num_devices transmit b ms fade_steps)
    unfolding fade_trace
    fade_trace-power ms fade_steps =
        Stable-append reg_shutdown d 1 (frame num_devices transmit b 0) _
          (frame-Stable reg_shutdown 1 0 (omega arith))
          (Stable-append reg_shutdown d 1
            (traces_up fade_steps 0 (level_shown num_devices transmit ms fade_steps)) _
            (Stable-traces_up reg_shutdown d 1 fade_steps 0 fade_steps _ (omega arith)
              (λ i lt. level_shown-power ms fade_steps i))
            (Stable-append reg_shutdown d 1
              (traces_down fade_steps (level_shown num_devices transmit ms fade_steps)) _
              (Stable-traces_down reg_shutdown d 1 fade_steps _ (level_shown-power ms fade_steps))
              (latched-write_reg reg_shutdown 1 reg_intensity 4)))

    -- The last action of a FADE sets the brightness, whatever the steps before it did.
    fade_trace-brightness :
        (ms fade_steps : ℕ)
        → Stable reg_intensity d 4 (fade_trace num_devices transmit b ms fade_steps)
    unfolding fade_trace
    fade_trace-brightness ms fade_steps =
        rw (latched-append, latched-append, latched-append)
          (latched-write_reg reg_intensity _ reg_intensity 4)

    effect_trace-Stable :
        (reg v : ℕ) (effect : List ℕ) (ms blink_ms fade_steps : ℕ)
        → 9 ≤ reg
        → Stable reg d v (flash num_devices transmit b blink_ms)
        → Stable reg d v (fade_trace num_devices transmit b ms fade_steps)
        → Stable reg d v (effect_trace num_devices transmit b effect ms blink_ms fade_steps)
    unfolding effect_trace scroll_trace blink_trace reverse_trace
    effect_trace-Stable reg v effect ms blink_ms fade_steps high flashing fading =
        choose (same_text effect (codes "SCROLL")) _ _
          (Stable-traces_up reg d v rounds 0 rounds _ (omega arith)
            (λ i lt. shown-Stable reg v ms i high))
          (choose (same_text effect (codes "BLINK")) _ _
            (Stable-append reg d v (frame num_devices transmit b 0) _ (frame-Stable reg v 0 high)
              (Stable-traces_up reg d v 6 0 6 _ (omega arith) (λ i lt. flashing)))
            (choose (same_text effect (codes "REVERSE")) _ _
              (Stable-traces_down reg d v (suc (length b - num_devices * 8)) _
                (λ i. shown-Stable reg v ms i high))
              (choose (same_text effect (codes "FADE")) _ _ fading (shown-Stable_static high))))
      where
        rounds : ℕ
        rounds = length b + 1 - num_devices * 8

        choose :
            (t : Bool) (x y : Trace)
            → Stable reg d v x
            → Stable reg d v y
            → Stable reg d v (if t then x else y)
        choose true x y p q = p
        choose false x y p q = q

        shown-Stable_static :
            9 ≤ reg → Stable reg d v (frame num_devices transmit b 0 ++ delay 2000 ∷ [])
        shown-Stable_static h =
            Stable-append reg d v (frame num_devices transmit b 0) (delay 2000 ∷ [])
              (frame-Stable reg v 0 h) refl

  -- For every device of the chain, an `s_bitmap` of the declared size, a `transmit` that a
  -- device sees as one plain write, and at most 143165577 steps in a FADE: `display_text`
  -- succeeds, and from a display that is on at brightness 4, as `display_init` leaves it, the
  -- display is on at brightness 4 again, whatever the effect.
  pub display_text-registers :
      (s : State) (text effect : List ℕ) (speed_ms blink_period_ms fade_steps : ℤ)
      → length s.s_bitmap ≡ 256 + num_devices * 8
      → (same_text effect (codes "FADE") ≡ true → positive_or 8 fade_steps ≤ max_fade_steps)
      → (t : Trace) × (display_text num_devices transmit s text effect speed_ms blink_period_ms
            fade_steps
          ≡ some (drawn (columns num_devices text) s.s_bitmap, t))
        × (latched reg_shutdown d 1 t ≡ 1)
        × (latched reg_intensity d 4 t ≡ 4)
  display_text-registers s text effect speed_ms blink_period_ms fade_steps size fits =
      let b = columns num_devices text in
      let ms = clamp_speed speed_ms in
      let blink_ms = positive_or 500 blink_period_ms in
      let steps = positive_or 8 fade_steps in
      (
        effect_trace num_devices transmit b effect ms blink_ms steps,
        display_text-effect_trace num_devices transmit s text effect speed_ms blink_period_ms
            fade_steps (omega arith) size fits,
        effect_trace-Stable b reg_shutdown 1 effect ms blink_ms steps (omega arith)
            (flash-power b blink_ms) (fade_trace-power b ms steps),
        effect_trace-Stable b reg_intensity 4 effect ms blink_ms steps (omega arith)
            (flash-brightness b blink_ms) (fade_trace-brightness b ms steps),
      )
