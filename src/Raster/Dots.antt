-- ===== src/Raster/Dots.antt =====
-- The pixels of a text, from its columns alone, and their view.
pub mod Laws
use textreaderrpi.Common.{
  ℕ, suc, ◌+◌, ◌-◌, ◌/◌, ◌%◌, ◌^◌, ◌==◌, ◌&&◌, List, [], ◌∷◌, ◌++◌, leb, ltb, get_or, if◌then◌else◌,
}
use textreaderrpi.Driver.Loops.{traces_up}
use textreaderrpi.Pixels.{Rect, rect}

-- The set bits of a column, as pixels of column `x` from row `top` on.
unfoldable pub row_dot : (top color x column row : ℕ) → List Rect
row_dot top color x column row =
    if column / 2 ^ row % 2 == 0 then [] else rect x (row + top) 1 1 color

unfoldable pub column_dots : (top color x column : ℕ) → List Rect
column_dots top color x column = traces_up 8 0 (row_dot top color x column)

-- The columns from number `i` on, of which those in the window of `width` columns at `offset` show.
unfoldable pub dots : (width top color offset i : ℕ) → List ℕ → List Rect
dots width top color offset i [] = []
dots width top color offset i (column ∷ columns) =
    (if leb offset i && ltb i (offset + width)
      then column_dots top color (i - offset) column
      else [])
    ++ dots width top color offset (suc i) columns

-- The colour that a pixel has where columns are drawn from `offset` on.
unfoldable pub dot_color : (top color old : ℕ) → List ℕ → (offset px py : ℕ) → ℕ
dot_color top color old columns offset px py =
    if leb top py && ltb py (top + 8)
    then (if get_or columns (px + offset) 0 / 2 ^ (py - top) % 2 == 0 then old else color)
    else old
