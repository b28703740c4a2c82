-- ===== src/Max7219/Spec.antt =====
-- What `display_text` is to send, from the columns of the text alone.
use textreaderrpi.Common.{
  ℕ, zero, suc, ◌+◌, ◌-◌, ◌*◌, ◌/◌, List, [], ◌∷◌, ◌++◌, ltb, if◌then◌else◌, length, get_or,
}
use textreaderrpi.Common.Text.{codes, same_text}
use textreaderrpi.Machine.{Trace, delay}
use textreaderrpi.Driver.Loops.{traces_up, traces_down}
use textreaderrpi.Bitmap.Spec.{bitmap}
use textreaderrpi.Max7219.{write_reg, reg_intensity, reg_shutdown, reg_row_base}

-- The largest FADE step count for which `step * 15` stays within `int`.
abbrev pub max_fade_steps : ℕ
max_fade_steps = 143165577

-- The brightness of a FADE step, from 0 to 15.
unfoldable pub fade_level : ℕ → ℕ → ℕ
fade_level fade_steps step = step * 15 / (if ltb 1 fade_steps then fade_steps - 1 else 1)

module _ (num_devices : ℕ) where
  -- The drawn columns of a text.
  unfoldable pub columns : List ℕ → List ℕ
  columns text = bitmap 255 (num_devices * 8) (256 + num_devices * 8) text

  -- The bytes of one row: device `d` of the chain shows the column that lies
  -- `num_devices - 1 - d` modules to the right of the offset.
  unfoldable pub row_bytes : List ℕ → ℕ → ℕ → ℕ → ℕ → List ℕ
  row_bytes b offset row zero d = []
  row_bytes b offset row (suc n) d =
      (reg_row_base + row)
      ∷ get_or b (offset + (num_devices - 1 - d) * 8 + row) 0
      ∷ row_bytes b offset row n (suc d)

module _ (num_devices : ℕ) (transmit : List ℕ → Trace) where
  unfoldable pub frame : List ℕ → ℕ → Trace
  frame b offset =
      traces_up 8 0 (λ row. transmit (row_bytes num_devices b offset row num_devices 0))

  -- A frame that stays for some time.
  unfoldable pub shown : List ℕ → ℕ → ℕ → Trace
  shown b ms offset = frame b offset ++ delay ms ∷ []

  unfoldable pub scroll_trace : List ℕ → ℕ → Trace
  scroll_trace b ms = traces_up (length b + 1 - num_devices * 8) 0 (shown b ms)

  unfoldable pub flash : List ℕ → ℕ → Trace
  flash b ms =
      delay ms ∷ write_reg num_devices transmit reg_shutdown 0
      ++ (delay ms ∷ write_reg num_devices transmit reg_shutdown 1 ++ frame b 0)

  unfoldable pub blink_trace : List ℕ → ℕ → Trace
  blink_trace b ms = frame b 0 ++ traces_up 6 0 (λ i. flash b ms)

  unfoldable pub reverse_trace : List ℕ → ℕ → Trace
  reverse_trace b ms = traces_down (suc (length b - num_devices * 8)) (shown b ms)

  unfoldable pub level_shown : ℕ → ℕ → ℕ → Trace
  level_shown ms fade_steps step =
      write_reg num_devices transmit reg_intensity (fade_level fade_steps step)
      ++ delay (ms / fade_steps) ∷ []

  unfoldable pub fade_trace : List ℕ → ℕ → ℕ → Trace
  fade_trace b ms fade_steps =
      frame b 0
      ++ (traces_up fade_steps 0 (level_shown ms fade_steps)
          ++ (traces_down fade_steps (level_shown ms fade_steps)
              ++ write_reg num_devices transmit reg_intensity 4))

  unfoldable pub effect_trace : List ℕ → List ℕ → ℕ → ℕ → ℕ → Trace
  effect_trace b effect speed_ms blink_period_ms fade_steps =
      if same_text effect (codes "SCROLL")
      then scroll_trace b speed_ms
      else if same_text effect (codes "BLINK")
      then blink_trace b blink_period_ms
      else if same_text effect (codes "REVERSE")
      then reverse_trace b speed_ms
      else if same_text effect (codes "FADE")
      then fade_trace b speed_ms fade_steps
      else frame b 0 ++ delay 2000 ∷ []
