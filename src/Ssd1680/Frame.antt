-- ===== src/Ssd1680/Frame.antt =====
-- The frame buffer of the SSD1680, one bit to a pixel: `set_pixel` and `render_text_to_fb` of
-- firmware/esp32/main/driver/ssd1680.c and firmware/pico/src/driver/ssd1680.c.
pub mod Laws
use textreaderrpi.Common.{
  ℕ, ◌+◌, ◌-◌, ◌*◌, ◌/◌, ◌%◌, ◌^◌, ◌==◌, ◌||◌, not, true, List, Option, some, if◌then◌else◌, leb,
  bit_and, bit_or, replicate,
}
use textreaderrpi.Common.Int.{ℤ, pos, negated, at_least, clip}
use textreaderrpi.Memory.{◌>>=◌, load, store}
use textreaderrpi.Raster.{put_text}

abbrev pub width : ℕ
width = 250

abbrev pub height : ℕ
height = 122

-- `(SSD1680_WIDTH + 7) / 8`
abbrev pub stride : ℕ
stride = 32

-- The byte keeps its other bits: `255 - 2 ^ bit` is `~(1 << bit)` in a byte. No caller passes a
-- negative `y`.
unfoldable pub set_pixel : ℤ → (y black : ℕ) → List ℕ → Option (List ℕ)
set_pixel x y black s_fb =
    if not (at_least x 0) || at_least x width || leb height y then some s_fb else (do
      let byte_idx = y * stride + clip x / 8
      let bit = 7 - clip x % 8
      b ← load s_fb byte_idx
      store s_fb byte_idx (if black == 0 then bit_or b (2 ^ bit) else bit_and b (255 - 2 ^ bit)))

unfoldable pub render_text_to_fb : List ℕ → ℕ → Option (List ℕ)
render_text_to_fb text x_offset =
    put_text width 8 (λ x y s_fb. set_pixel (pos x) y 1 s_fb) true (negated x_offset) text
      (replicate (height * stride) 0xFF)
