-- ===== src/Max7219/Laws.antt =====
-- The operations of the MAX7219 driver against their specification.
use textreaderrpi.Common.{
  ℕ, zero, suc, ◌+◌, ◌-◌, ◌*◌, ◌/◌, ◌≤◌, ◌<◌, ◌≡◌, refl, List, [], ◌∷◌, some, ltb, if◌then◌else◌,
  length, arith, le→leb, true, Bool-cases, inl, append-nil, inr,
}
use textreaderrpi.Machine.{if_emit, Trace, delay, emit, M, pure, ◌>>◌}
use native.Mathlib.Nat.{div-le_of_le-mul, mod-eq_of_lt}
use textreaderrpi.Common.Int.{int_max, ℤ}
use textreaderrpi.Driver.Loops.{for_up-traces_up, for_down-traces_down}
use textreaderrpi.Bitmap.Spec.{over}
use textreaderrpi.Bitmap.Laws.{build-bitmap, column-over}
use textreaderrpi.Max7219.{
  State, mul_int, set_text, row_buffer, render_columns, scroll, blink, reverse, fade, fade_step,
  write_reg, reg_shutdown, run_effect, display_text, same_text, codes, positive_or, clamp_speed,
}
use textreaderrpi.Max7219.Spec.{
  columns, row_bytes, frame, shown, scroll_trace, flash, blink_trace, reverse_trace, fade_level,
  level_shown, fade_trace, max_fade_steps, effect_trace,
}

-- The driver's variables after a text has been drawn over an earlier content.
abbrev pub drawn : List ℕ → List ℕ → State
drawn b out = record { s_bitmap = over b out; s_bitmap_len = length b }

level-le : (step div : ℕ) → step ≤ div → step * 15 / div ≤ 15
level-le step div h = div-le_of_le-mul div (omega arith)

mul_int_lem : (a b : ℕ) → a * b ≤ int_max → mul_int a b ≡ pure (a * b)
unfolding mul_int
mul_int_lem a b h = rw (le→leb (a * b) int_max h)

fade_level-le : (fade_steps step : ℕ) → step < fade_steps → fade_level fade_steps step ≤ 15
unfolding fade_level
fade_level-le fade_steps step h = level-le step _ (ground arith)

pub set_text-columns :
    (num_devices : ℕ) (s : State) (text : List ℕ)
    → 1 ≤ num_devices
    → length s.s_bitmap ≡ 256 + num_devices * 8
    → set_text num_devices s text ≡ some (drawn (columns num_devices text) s.s_bitmap, [])
unfolding set_text columns
set_text-columns num_devices s text one size = rw (
  limit,
  build-bitmap 255 (num_devices * 8) (256 + num_devices * 8) text (omega arith) s.s_bitmap size,
)
  where
    limit : 256 + num_devices * 8 - (num_devices * 8 + 1) ≡ 255
    limit = omega arith

row_buffer-row_bytes :
    (num_devices : ℕ) (b out : List ℕ) (offset row n d : ℕ)
    → row_buffer (over b out) (length b) num_devices offset row n d
      ≡ some (row_bytes num_devices b offset row n d)
unfolding row_buffer row_bytes
row_buffer-row_bytes num_devices b out offset row zero d = refl
row_buffer-row_bytes num_devices b out offset row (suc n) d = rw (
  column-over b out (offset + (num_devices - 1 - d) * 8 + row),
  row_buffer-row_bytes num_devices b out offset row n (suc d),
)

module _ (num_devices : ℕ) (transmit : List ℕ → Trace) (b out : List ℕ) where
  pub render_columns-frame :
      (offset : ℕ)
      → render_columns num_devices transmit (drawn b out) offset
        ≡ emit (frame num_devices transmit b offset)
  unfolding render_columns frame
  render_columns-frame offset =
      for_up-traces_up 8 0 8 _ _ (omega arith)
        (λ row lt. rw (row_buffer-row_bytes num_devices b out offset row num_devices 0))

  abbrev frames : ℕ → ℕ → Trace
  frames = shown num_devices transmit b

  render_columns-shown :
      (ms offset : ℕ)
      → (render_columns num_devices transmit (drawn b out) offset >> emit (delay ms ∷ []))
        ≡ emit (frames ms offset)
  unfolding shown
  render_columns-shown ms offset = rw (render_columns-frame offset)

  scroll-scroll_trace :
      (ms : ℕ)
      → scroll num_devices transmit (drawn b out) ms ≡ emit (scroll_trace num_devices transmit b ms)
  unfolding scroll scroll_trace
  scroll-scroll_trace ms =
      let rounds = length b + 1 - num_devices * 8 in
      for_up-traces_up rounds 0 rounds _ (frames ms) (omega arith)
        (λ i lt. render_columns-shown ms i)

  blink_body : ℕ → M (Unit {0})
  blink_body ms = do
    emit (delay ms ∷ [])
    emit (write_reg num_devices transmit reg_shutdown 0x00)
    emit (delay ms ∷ [])
    emit (write_reg num_devices transmit reg_shutdown 0x01)
    render_columns num_devices transmit (drawn b out) 0

  blink_body-flash : (ms : ℕ) → blink_body ms ≡ emit (flash num_devices transmit b ms)
  unfolding blink_body flash
  blink_body-flash ms = rw (render_columns-frame 0)

  blink-blink_trace :
      (ms : ℕ)
      → blink num_devices transmit (drawn b out) ms ≡ emit (blink_trace num_devices transmit b ms)
  unfolding blink blink_trace blink_body
  blink-blink_trace ms = rw (
    for_up-traces_up 6 0 6 (λ i. blink_body ms) (λ i. flash num_devices transmit b ms) (omega arith)
        (λ i lt. blink_body-flash ms),
    render_columns-frame 0,
  )

  reverse-reverse_trace :
      (ms : ℕ)
      → reverse num_devices transmit (drawn b out) ms
        ≡ emit (reverse_trace num_devices transmit b ms)
  unfolding reverse reverse_trace
  reverse-reverse_trace ms = rw (start) (
      for_down-traces_down (suc (length b - num_devices * 8)) _ (frames ms)
        (λ i lt. render_columns-shown ms i))
    where
      start :
          (if ltb (num_devices * 8) (length b) then length b - num_devices * 8 else 0)
          ≡ length b - num_devices * 8
      start = ground arith

  fade_step-level_shown :
      (ms fade_steps step : ℕ)
      → step < fade_steps
      → fade_steps ≤ max_fade_steps
      → fade_step num_devices transmit ms fade_steps
          (if ltb 1 fade_steps then fade_steps - 1 else 1)
          step
        ≡ emit (level_shown num_devices transmit ms fade_steps step)
  unfolding fade_step level_shown fade_level
  fade_step-level_shown ms fade_steps step lt fits = rw (
    mul_int_lem step 15 (omega arith),
    mod-eq_of_lt {n = step * 15 / (if ltb 1 fade_steps then fade_steps - 1 else 1)} {m = 256} small,
  )
    where
      small : step * 15 / (if ltb 1 fade_steps then fade_steps - 1 else 1) < 256
      small = unfold fade_level in omega (arith, fade_level-le fade_steps step lt)

  fade-fade_trace :
      (ms fade_steps : ℕ)
      → fade_steps ≤ max_fade_steps
      → fade num_devices transmit (drawn b out) ms fade_steps
        ≡ emit (fade_trace num_devices transmit b ms fade_steps)
  unfolding fade fade_trace
  fade-fade_trace ms fade_steps fits = rw (
    render_columns-frame 0,
    for_up-traces_up fade_steps 0 fade_steps _ _ (omega arith)
        (λ i lt. fade_step-level_shown ms fade_steps i lt fits),
    for_down-traces_down fade_steps _ _ (λ i lt. fade_step-level_shown ms fade_steps i lt fits),
  )

  run_effect-effect_trace :
      (effect : List ℕ) (ms blink_ms fade_steps : ℕ)
      → (same_text effect (codes "FADE") ≡ true → fade_steps ≤ max_fade_steps)
      → run_effect num_devices transmit (drawn b out) effect ms blink_ms fade_steps
        ≡ emit (effect_trace num_devices transmit b effect ms blink_ms fade_steps)
  unfolding run_effect effect_trace
  run_effect-effect_trace effect ms blink_ms fade_steps fits =
      if_emit (same_text effect (codes "SCROLL")) (scroll-scroll_trace ms) (
        if_emit (same_text effect (codes "BLINK")) (blink-blink_trace blink_ms) (
          if_emit (same_text effect (codes "REVERSE")) (reverse-reverse_trace ms)
            (elim (Bool-cases (same_text effect (codes "FADE"))) [
              | inl t ↦ rw t (fade-fade_trace ms fade_steps (fits t))
              | inr f ↦ rw f (rw (render_columns-frame 0))
            ])))

-- For at least one device and an `s_bitmap` of 256 + 8 * devices bytes, the text is first drawn
-- at the front of `s_bitmap`, with no access outside it, and the actions are those of the
-- specification for the clamped parameters, for every text and effect. FADE is asked for at
-- most 143165577 steps.
pub display_text-effect_trace :
    (num_devices : ℕ) (transmit : List ℕ → Trace) (s : State) (text effect : List ℕ)
    (speed_ms blink_period_ms fade_steps : ℤ)
    → 1 ≤ num_devices
    → length s.s_bitmap ≡ 256 + num_devices * 8
    → (same_text effect (codes "FADE") ≡ true → positive_or 8 fade_steps ≤ max_fade_steps)
    → display_text num_devices transmit s text effect speed_ms blink_period_ms fade_steps
      ≡ some (
        drawn (columns num_devices text) s.s_bitmap,
        effect_trace num_devices transmit
            (columns num_devices text)
            effect
            (clamp_speed speed_ms)
            (positive_or 500 blink_period_ms)
            (positive_or 8 fade_steps),
      )
unfolding display_text
display_text-effect_trace n transmit s text effect speed_ms blink_period_ms fade_steps one size
      fits =
    rw (
      set_text-columns n s text one size,
      run_effect-effect_trace n transmit (columns n text) s.s_bitmap effect (clamp_speed speed_ms)
          (positive_or 500 blink_period_ms) (positive_or 8 fade_steps) fits,
      append-nil,
    )
