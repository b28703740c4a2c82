-- ===== src/Ssd1327/Frame.antt =====
-- The frame buffer of the SSD1327, four bits to a pixel: `render_text_to_fb` of
-- firmware/esp32/main/driver/ssd1327.c and firmware/pico/src/driver/ssd1327.c.
mod Nibble
pub mod Pixel
mod Run
pub mod Laws
use textreaderrpi.Common.{
  ℕ, suc, ◌+◌, ◌*◌, ◌/◌, ◌%◌, ◌==◌, List, [], ◌∷◌, Option, some, if◌then◌else◌, leb, ltb, bit_and,
  bit_or, replicate,
}
use textreaderrpi.Memory.{◌>>=◌, load, store}
use textreaderrpi.Font.{font_index, font_row}
use textreaderrpi.Raster.{put_rows}

abbrev pub width : ℕ
width = 128

abbrev pub height : ℕ
height = 128

abbrev pub stride : ℕ
stride = 64

-- The nibble of pixel `x`, `row` becomes `brightness`; the other one of its byte stays.
unfoldable pub put_pixel : (brightness x row : ℕ) → List ℕ → Option (List ℕ)
put_pixel brightness x row s_fb = do
  let byte_idx = row * stride + x / 2
  b ← load s_fb byte_idx
  store s_fb byte_idx (
      if x % 2 == 0
      then bit_or (bit_and b 0x0F) (brightness * 16) % 256
      else bit_or (bit_and b 0xF0) (bit_and brightness 0x0F))

-- `for (int col = 0; col < FONT_CHAR_WIDTH && x < SSD1327_WIDTH; col++, x++)`; the result has the last `x`.
unfoldable pub put_run : (brightness x : ℕ) → List ℕ → List ℕ → Option (List ℕ × ℕ)
put_run brightness x [] s_fb = some (s_fb, x)
put_run brightness x (column_byte ∷ columns) s_fb =
    if ltb x width
    then (do
      s_fb' ← put_rows width 0 (put_pixel brightness) 8 0 x column_byte s_fb
      put_run brightness (suc x) columns s_fb')
    else some (s_fb, x)

-- The loop over the text, with `x++; if (x >= SSD1327_WIDTH) break;` at its end.
unfoldable pub put_runs : (brightness x : ℕ) → List ℕ → List ℕ → Option (List ℕ)
put_runs brightness x [] s_fb = some s_fb
put_runs brightness x (c ∷ text) s_fb = do
  columns ← font_row (font_index c)
  (s_fb', x') ← put_run brightness x columns s_fb
  if leb width (suc x') then some s_fb' else put_runs brightness (suc x') text s_fb'

unfoldable pub render_text_to_fb : List ℕ → (brightness : ℕ) → Option (List ℕ)
render_text_to_fb text brightness = put_runs brightness 0 text (replicate 8192 0)
