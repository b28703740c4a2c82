-- ===== src/Tft/Picture.antt =====
-- The picture of a text on a colour panel, pixel by pixel.
mod Columns
pub mod Laws
pub mod Bounds
use textreaderrpi.Common.{
  ℕ, ◌+◌, ◌-◌, ◌/◌, ◌%◌, ◌^◌, ◌==◌, ◌&&◌, List, get_or, leb, ltb, if◌then◌else◌,
}
use textreaderrpi.Font.{text_columns}
use textreaderrpi.Tft.Draw.{Panel}

-- Bit `row` of a column selects the colour.
unfoldable pub shade : (fg bg column row : ℕ) → ℕ
shade fg bg column row = if column / 2 ^ row % 2 == 0 then bg else fg

-- Pixel `px`, `py` of the bar that shows the columns of a text from `offset` on.
unfoldable pub pixel : Panel → List ℕ → (offset fg bg px py : ℕ) → ℕ
pixel panel text offset fg bg px py =
    if leb panel.top py && ltb py (panel.top + 8)
    then shade fg bg (get_or (text_columns text) (px + offset) 0) (py - panel.top)
    else bg
