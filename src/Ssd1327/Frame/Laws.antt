-- ===== src/Ssd1327/Frame/Laws.antt =====
-- The frame that a text leaves in the frame buffer of the SSD1327.
use textreaderrpi.Common.{
  ℕ, ◌%◌, ◌<◌, ◌≡◌, ◌∙◌, ap, false, List, [], some, length, arith, replicate,
}
use textreaderrpi.Common.Int.{negated}
use textreaderrpi.Common.Int.Laws.{negated-minus}
use textreaderrpi.Font.{text_columns}
use textreaderrpi.Pixels.{color_at}
use textreaderrpi.Raster.{put_text}
use textreaderrpi.Raster.Dots.{dots, dot_color}
use textreaderrpi.Raster.Dots.Laws.{dots-dot_color}
use textreaderrpi.Raster.Laws.{put_text-Draws}
use textreaderrpi.Ssd1327.Frame.{put_pixel, render_text_to_fb}
use textreaderrpi.Ssd1327.Frame.Pixel.{pixel, IsFrame, surface, black-IsFrame, pixel-black}
use textreaderrpi.Ssd1327.Frame.Run.{Pixels, put_runs-Draws}

-- The frame shows a text from column `x_offset` on, in rows 0 to 7: the set bits of its columns have
-- the brightness, and every other pixel is dark.
pub record Shows (fb text : List ℕ) (x_offset brightness : ℕ) : Type 0 where
  pub size : length fb ≡ 8192
  pub pixels :
      (px py : ℕ)
      → px < 128
      → py < 128
      → pixel fb px py ≡ dot_color 0 brightness 0 (text_columns text) x_offset px py

module _ (brightness : ℕ) (is_byte : brightness < 256) where
  drawn_Shows :
      (fb text : List ℕ) (x_offset : ℕ)
      → IsFrame fb
      → Pixels brightness is_byte
          (replicate 8192 0)
          fb
          (dots 128 0 (brightness % 16) x_offset 0 (text_columns text))
      → Shows fb text x_offset (brightness % 16)
  drawn_Shows fb text x_offset v pixels = record {
    size = v.size;
    pixels = λ px py on below.
        pixels px py on below
        ∙ ap (color_at (dots 128 0 (brightness % 16) x_offset 0 (text_columns text)) px py)
            (pixel-black px py)
        ∙ dots-dot_color 0 (brightness % 16) px py 128 x_offset (text_columns text) 0 on;
  }

  -- For every text and every brightness that is a byte, `render_text_to_fb` stays inside the frame buffer
  -- and leaves a frame that shows the text from its first column on, in the low four bits of the
  -- brightness.
  pub render_text_to_fb-Shows_start :
      (text : List ℕ)
      → (fb : List ℕ) × (render_text_to_fb text brightness ≡ some fb)
        × Shows fb text 0 (brightness % 16)
  unfolding render_text_to_fb surface
  render_text_to_fb-Shows_start text =
      let drawn = put_runs-Draws brightness is_byte 0 text (replicate 8192 0) black-IsFrame in
      (drawn.0, drawn.1, drawn_Shows drawn.0 text 0 drawn.2 drawn.3)

  -- The same for a frame that is drawn from column `x_offset` on.
  pub scrolled-Shows :
      (text : List ℕ) (x_offset : ℕ)
      → (fb : List ℕ) × (put_text 128 0
            (put_pixel brightness)
            false
            (negated x_offset)
            text
            (replicate 8192 0)
          ≡ some fb)
        × Shows fb text x_offset (brightness % 16)
  unfolding surface
  scrolled-Shows text x_offset =
      let drawn =
        put_text-Draws (surface brightness is_byte) 0 (omega arith) x_offset false 0 text
          (replicate 8192 0) black-IsFrame in
      (
        drawn.0,
        rw (negated-minus x_offset) drawn.1,
        drawn_Shows drawn.0 text x_offset drawn.2 drawn.3,
      )

pub black-Shows : (brightness : ℕ) → Shows (replicate 8192 0) [] 0 brightness
unfolding dots text_columns color_at
black-Shows brightness = record {
  size = black-IsFrame.size;
  pixels = λ px py on below.
      pixel-black px py ∙ dots-dot_color 0 brightness px py 128 0 (text_columns []) 0 on;
}
