-- ===== src/Tests/Tft.antt =====
-- Runs of the programs for the colour panels, and their properties at concrete inputs.
use textreaderrpi.Common.{◌*◌, ◌∙◌, ℕ, ◌≡◌, refl, some, List, [], ◌∷◌, arith, ◌*◌}
use textreaderrpi.Common.Int.{pos, negsuc}
use textreaderrpi.Common.Text.{codes}
use textreaderrpi.Machine.{Trace, emit, spi_write, gpio_put}
use textreaderrpi.Machine.Trace.{total_ms}
use textreaderrpi.Driver.{clamp_speed}
use textreaderrpi.Driver.Timing.{total_ms-traces_up}
use textreaderrpi.Tft.Draw.{render_text}
use textreaderrpi.Tft.Draw.Laws.{HasRoom}
use textreaderrpi.Pixels.{Rect, rect, color_at}
use textreaderrpi.Tft.Picture.{pixel}
use textreaderrpi.Tft.Picture.Laws.{render_text-pixel}
use textreaderrpi.Tft.Picture.Bounds.{Within, render_text-Within, render_text-one_character}
use textreaderrpi.Tft.Laws.{display_text-pictures}
use textreaderrpi.Tft.Timing.{duration, display_text-waits}
use textreaderrpi.Tft.Spec.{effect_trace}
use textreaderrpi.Tft.{display_text}
use textreaderrpi.Pico.Ili9225.{
  panel, fill_rect, ili9225_write_reg, ili9225_write_data16, ili9225_set_window,
}

panel-HasRoom : HasRoom panel
panel-HasRoom = record { columns = omega arith; rows = omega arith; some_width = omega arith }

abbrev hidden : Trace
unfolding ili9225_write_reg
hidden = ili9225_write_reg 0x07 0x1013

abbrev shown : Trace
unfolding ili9225_write_reg
shown = ili9225_write_reg 0x07 0x1017

one_pixel :
    ili9225_write_data16 0xF81F
    ≡ gpio_put 20 1 ∷ gpio_put 17 0 ∷ spi_write (0xF8 ∷ 0x1F ∷ []) ∷ gpio_put 17 1 ∷ []
unfolding ili9225_write_data16
one_pixel = refl

display_text-pictures_example :
    display_text panel fill_rect
      (emit hidden)
      (λ text. emit shown)
      (codes "Hi")
      (codes "BLINK")
      (negsuc 4)
    ≡ emit (
        effect_trace panel fill_rect hidden shown
          (codes "Hi")
          (codes "BLINK")
          (clamp_speed (negsuc 4)))
display_text-pictures_example =
    display_text-pictures panel fill_rect panel-HasRoom hidden (λ text. emit shown) shown
      (codes "Hi") (codes "BLINK") (negsuc 4) refl

fill_rect-silent : (x y w h color : ℕ) → total_ms (fill_rect x y w h color) ≡ 0
unfolding fill_rect ili9225_set_window ili9225_write_reg ili9225_write_data16
fill_rect-silent x y w h color =
    total_ms-traces_up 0 (w * h) 0 (λ i. ili9225_write_data16 color) (λ i. refl) ∙ no_time (w * h)
  where
    no_time : (n : ℕ) → n * 0 ≡ 0
    no_time n = omega arith

display_text-waits_example :
    (t : Trace) × (display_text panel fill_rect
        (emit hidden)
        (λ text. emit shown)
        (codes "Hi")
        (codes "SCROLL")
        (pos 100)
      ≡ emit t)
    × (total_ms t ≡ duration 2 (codes "SCROLL") (clamp_speed (pos 100)))
unfolding hidden shown
display_text-waits_example =
    display_text-waits panel fill_rect fill_rect-silent panel-HasRoom hidden (λ text. emit shown)
      shown (codes "Hi") (codes "SCROLL") (pos 100) refl refl refl

-- A dot of the second letter's stem.
render_text-pixel_example :
    (rects : List Rect) × (render_text panel rect (codes "Hi") 6 0xFFFF 0 ≡ some rects)
    × (color_at rects 2 5 7 ≡ pixel panel (codes "Hi") 6 0xFFFF 0 2 5)
render_text-pixel_example =
    render_text-pixel panel panel-HasRoom (codes "Hi") 6 0xFFFF 0 2 5 7 (omega arith) (omega arith)
      (omega arith) (λ edge. refl)

render_text-Within_example :
    (rects : List Rect) × (render_text panel rect (codes "Hi") 3 0xFFFF 0 ≡ some rects)
    × Within 180 16 rects
render_text-Within_example =
    render_text-Within panel panel-HasRoom 0xFFFF 0 (omega arith) (codes "Hi") 3

render_text-one_character_example :
    render_text panel rect (codes "H") 3 0xFFFF 0 ≡ render_text panel rect (codes "H") 0 0xFFFF 0
render_text-one_character_example =
    render_text-one_character panel rect panel-HasRoom 0x48 3 0xFFFF 0 (omega arith)
