-- ===== src/Tft/Draw.antt =====
-- `draw_char` and `render_text` of the drivers of the colour panels: ili9225.c, st7735.c and st7789.c
-- under firmware/esp32/main/driver and firmware/pico/src/driver. A panel differs from the others
-- in its size, the text's place on it, the width of its coordinates and its `fill_rect`, whose
-- result is a list: of the actions on the bus, or of the rectangles themselves.
pub mod Spec
pub mod Laws
use textreaderrpi.Common.{
  ℕ, zero, suc, ◌+◌, ◌/◌, ◌%◌, ◌^◌, ◌==◌, List, [], ◌∷◌, ◌++◌, Option, some, if◌then◌else◌,
}
use textreaderrpi.Common.Int.{ℤ, pos, negated, plus, at_least, clip}
use textreaderrpi.Memory.{◌>>=◌}
use textreaderrpi.Driver.Loops.{traces_up}
use textreaderrpi.Font.{font_index, font_row}

pub record Panel : Type 0 where
  pub width : ℕ
  pub height : ℕ
  -- The height of the bar that is cleared for a text, and the text's first row.
  pub bar : ℕ
  pub top : ℕ
  -- The number of values of the coordinates' type: 2 ^ 8 for `uint8_t`, 2 ^ 16 for `uint16_t`.
  pub coordinates : ℕ

module _ {A : Type 0} (panel : Panel) (fill_rect : (x y w h color : ℕ) → List A) where
  open panel use {width, bar, top, coordinates}

  -- `uint16_t color = ((column_byte >> row) & 1) ? fg : bg; fill_rect(x + col, y + row, 1, 1, color);`
  unfoldable pub draw_pixel : (x y fg bg col column_byte row : ℕ) → List A
  draw_pixel x y fg bg col column_byte row =
      fill_rect ((x + col) % coordinates) ((y + row) % coordinates) 1 1
        (if column_byte / 2 ^ row % 2 == 0 then bg else fg)

  -- The loop over `col`, from column `col` on.
  unfoldable pub draw_columns : (x y fg bg col : ℕ) → List ℕ → List A
  draw_columns x y fg bg col [] = []
  draw_columns x y fg bg col (column_byte ∷ columns) =
      traces_up 8 0 (draw_pixel x y fg bg col column_byte)
      ++ draw_columns x y fg bg (suc col) columns

  unfoldable pub draw_char : (x y c fg bg : ℕ) → Option (List A)
  draw_char x y c fg bg = do
    columns ← font_row (font_index c)
    some (draw_columns x y fg bg 0 columns)

  -- `if (x + FONT_CHAR_WIDTH > 0) draw_char(x < 0 ? 0 : x, ...);`
  unfoldable pub draw_visible : ℤ → (c fg bg : ℕ) → Option (List A)
  draw_visible x c fg bg =
      if at_least (plus x 5) 1 then draw_char (clip x % coordinates) top c fg bg else some []

  -- The loop over the text, from position `x` on.
  unfoldable pub draw_text : ℤ → List ℕ → (fg bg : ℕ) → Option (List A)
  draw_text x [] fg bg = some []
  draw_text x (c ∷ text) fg bg = if at_least x width then some [] else (do
    drawn ← draw_visible x c fg bg
    rest ← draw_text (plus x 6) text fg bg
    some (drawn ++ rest))

  unfoldable pub render_text : List ℕ → (x_offset fg bg : ℕ) → Option (List A)
  render_text text x_offset fg bg = do
    drawn ← draw_text (negated x_offset) text fg bg
    some (fill_rect 0 0 width bar bg ++ drawn)
