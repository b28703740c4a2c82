-- ===== src/Tests/Slides.antt =====
-- Runs of the HT16K33 programs, and their properties at concrete inputs.
use textreaderrpi.Common.{◌≡◌, refl, [], ◌∷◌, some, replicate}
use textreaderrpi.Common.Int.{pos}
use textreaderrpi.Common.Text.{codes}
use textreaderrpi.Font.{glyph, font5x8, font_index}
use textreaderrpi.Driver.{clamp_speed}
use textreaderrpi.Ht16k33.{render_char, display_text}
use textreaderrpi.Ht16k33.Spec.{transposed, effect_trace, row_bits}
use textreaderrpi.Ht16k33.Char.Laws.{render_char-transposed}
use textreaderrpi.Ht16k33.Laws.{Sends, display_text-slides}

render_char-transposed_example : render_char b'A' ≡ some (transposed (glyph b'A'))
render_char-transposed_example = render_char-transposed b'A'

display_text-slides_example :
    Sends
      (display_text (replicate 8 0) (codes "Hi") (codes "REVERSE") (pos 200))
      (effect_trace (codes "Hi") (codes "REVERSE") (clamp_speed (pos 200)))
display_text-slides_example =
    display_text-slides (replicate 8 0) (codes "Hi") (codes "REVERSE") (pos 200)

-- The letter T of the font, seen as rows.
letter_T : transposed (glyph b'T') ≡ 31 ∷ 4 ∷ 4 ∷ 4 ∷ 4 ∷ 4 ∷ 4 ∷ 0 ∷ []
unfolding transposed glyph row_bits font5x8 font_index
letter_T = refl
