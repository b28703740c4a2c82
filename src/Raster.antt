-- ===== src/Raster.antt =====
-- The loops that draw a text's pixels into a frame buffer, which the e-paper driver ssd1680.c and the
-- SCROLL-like default of ssd1327.c share (firmware/esp32/main/driver, firmware/pico/src/driver). They
-- differ in the width, the first row and `put`, the write of one pixel.
pub mod Dots
pub mod Surface
pub mod Laws
use textreaderrpi.Common.{
  ℕ, zero, suc, ◌+◌, ◌/◌, ◌%◌, ◌^◌, ◌==◌, ◌&&◌, ◌||◌, not, Bool, List, [], ◌∷◌, Option, some,
  if◌then◌else◌,
}
use textreaderrpi.Common.Int.{ℤ, plus, at_least, clip}
use textreaderrpi.Memory.{◌>>=◌}
use textreaderrpi.Font.{font_index, font_row}

module _ (width top : ℕ) (put : (x y : ℕ) → List ℕ → Option (List ℕ)) where
  -- `for (; n rounds; row++) if ((column_byte >> row) & 1) put(x, row + top);`
  unfoldable pub put_rows : (n row x column_byte : ℕ) → List ℕ → Option (List ℕ)
  put_rows zero row x column_byte fb = some fb
  put_rows (suc n) row x column_byte fb = do
    fb' ← (if column_byte / 2 ^ row % 2 == 0 then some fb else put x (row + top) fb)
    put_rows n (suc row) x column_byte fb'

  -- `if (x < 0 || x >= width) continue;`
  unfoldable pub put_column : ℤ → ℕ → List ℕ → Option (List ℕ)
  put_column x column_byte fb =
      if not (at_least x 0) || at_least x width
      then some fb
      else put_rows 8 0 (clip x) column_byte fb

  -- `for (int col = 0; col < FONT_CHAR_WIDTH; col++, x++)`
  unfoldable pub put_columns : ℤ → List ℕ → List ℕ → Option (List ℕ)
  put_columns x [] fb = some fb
  put_columns x (column_byte ∷ columns) fb = do
    fb' ← put_column x column_byte fb
    put_columns (plus x 1) columns fb'

  -- The loop over the text. Where `stops` holds it has `if (x >= width) break;` at its end.
  unfoldable pub put_text : Bool → ℤ → List ℕ → List ℕ → Option (List ℕ)
  put_text stops x [] fb = some fb
  put_text stops x (c ∷ text) fb = do
    columns ← font_row (font_index c)
    fb' ← put_columns x columns fb
    if stops && at_least (plus x 6) width then some fb' else put_text stops (plus x 6) text fb'
