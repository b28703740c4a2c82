-- ===== src/Tft.antt =====
-- The drivers of the colour panels: ili9225.c, st7735.c and st7789.c under firmware/esp32/main/driver
-- and firmware/pico/src/driver are one program over their panel, its `fill_rect`, and the actions
-- with which BLINK hides and shows the text.
pub mod Draw
pub mod Picture
pub mod Spec
pub mod Laws
pub mod Timing
use textreaderrpi.Common.{
  ℕ, zero, suc, ◌+◌, ◌-◌, ◌*◌, ◌/◌, ◌%◌, List, [], ◌∷◌, ◌++◌, if◌then◌else◌, length, bit_or,
}
use textreaderrpi.Common.Int.{ℤ}
use textreaderrpi.Common.Text.{codes, same_text}
use textreaderrpi.Machine.{M, Trace, pure, emit, lift, delay, ◌>>◌, ◌>>=◌}
use textreaderrpi.Driver.{clamp_speed}
use textreaderrpi.Driver.Loops.{for_up, for_down}
use textreaderrpi.Driver.Reverse.{reversed}
use textreaderrpi.Tft.Draw
use textreaderrpi.Tft.Draw.{Panel}

abbrev pub white : ℕ
white = 0xFFFF

abbrev pub black : ℕ
black = 0x0000

-- `(uint16_t)((v << 11) | (v * 2 << 5) | v)`
unfoldable pub gray : ℕ → ℕ
gray v = bit_or (bit_or (v * 2048) (v * 2 * 32)) v % 65536

module _ (panel : Panel) (fill_rect : (x y w h color : ℕ) → Trace) where
  unfoldable pub display_clear : M (Unit {0})
  display_clear = emit (fill_rect 0 0 panel.width panel.height black)

  unfoldable pub render_text : List ℕ → (x_offset fg bg : ℕ) → M (Unit {0})
  render_text text x_offset fg bg = do
    drawn ← lift (Draw.render_text panel fill_rect text x_offset fg bg)
    emit drawn

  -- `for (offset = 0; offset <= text_px; offset++)`
  unfoldable pub scroll : List ℕ → ℕ → M (Unit {0})
  scroll text sp =
      for_up (length text * 6 + 1) 0
        λ offset. render_text text offset white black >> emit (delay sp ∷ [])

  unfoldable pub blink : (hide show : M (Unit {0})) → List ℕ → ℕ → M (Unit {0})
  blink hide show text sp = do
    render_text text 0 white black
    for_up 6 0 λ i. emit (delay sp ∷ []) >> (hide >> (emit (delay sp ∷ []) >> show))

  unfoldable pub reverse : List ℕ → ℕ → M (Unit {0})
  reverse text sp = do rev ← lift (reversed text); scroll rev sp

  -- `v` goes from 0 to 31 and back.
  unfoldable pub fade_step : List ℕ → ℕ → ℕ → M (Unit {0})
  fade_step text step_delay v = render_text text 0 (gray v) black >> emit (delay step_delay ∷ [])

  unfoldable pub fade : List ℕ → ℕ → M (Unit {0})
  fade text sp = do
    render_text text 0 white black
    for_up 32 0 (fade_step text (sp / 32 + 1))
    for_down 32 (fade_step text (sp / 32 + 1))
    render_text text 0 white black

  unfoldable pub display_text :
      (hide : M (Unit {0})) (show : List ℕ → M (Unit {0})) → List ℕ → List ℕ → ℤ → M (Unit {0})
  display_text hide show text effect speed_ms =
      let sp = clamp_speed speed_ms in
      if same_text effect (codes "SCROLL")
      then scroll text sp
      else if same_text effect (codes "BLINK")
      then blink hide (show text) text sp
      else if same_text effect (codes "REVERSE")
      then reverse text sp
      else if same_text effect (codes "FADE")
      then fade text sp
      else pure tt
