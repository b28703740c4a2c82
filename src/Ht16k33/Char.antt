-- ===== src/Ht16k33/Char.antt =====
-- `render_char` of the HT16K33 drivers: the columns of the font become rows of the matrix.
pub mod Laws
use textreaderrpi.Common.{
  ℕ, zero, suc, ◌+◌, ◌/◌, ◌%◌, ◌^◌, List, [], ◌∷◌, Option, some, ◌==◌, if◌then◌else◌, replicate,
}
use textreaderrpi.Memory.{◌>>=◌, load, store}
use textreaderrpi.Font.{font_index, font_row}

-- `v | (1 << col)`
unfoldable pub set_bit : ℕ → ℕ → ℕ
set_bit col v = if v / 2 ^ col % 2 == 1 then v else v + 2 ^ col

-- `if ((column_byte >> row) & 1) s_rows[row] |= (1 << col);`
unfoldable pub draw_bit : ℕ → ℕ → ℕ → List ℕ → Option (List ℕ)
draw_bit column_byte col row s_rows =
    if column_byte / 2 ^ row % 2 == 1
    then (do v ← load s_rows row; store s_rows row (set_bit col v))
    else some s_rows

-- The loop over the `n` rows from `row` on.
unfoldable pub draw_rows : ℕ → ℕ → ℕ → ℕ → List ℕ → Option (List ℕ)
draw_rows zero column_byte col row s_rows = some s_rows
draw_rows (suc n) column_byte col row s_rows = do
  s_rows' ← draw_bit column_byte col row s_rows
  draw_rows n column_byte col (suc row) s_rows'

-- The loop over the font's columns.
unfoldable pub draw_columns : List ℕ → ℕ → List ℕ → Option (List ℕ)
draw_columns [] col s_rows = some s_rows
draw_columns (column_byte ∷ columns) col s_rows = do
  s_rows' ← draw_rows 8 column_byte col 0 s_rows
  draw_columns columns (suc col) s_rows'

unfoldable pub render_char : ℕ → Option (List ℕ)
render_char c = do columns ← font_row (font_index c); draw_columns columns 0 (replicate 8 0)

-- What `flush` sends for the `n` rows from `i` on.
unfoldable pub row_pairs : ℕ → ℕ → List ℕ → Option (List ℕ)
row_pairs zero i s_rows = some []
row_pairs (suc n) i s_rows = do
  b ← load s_rows i
  rest ← row_pairs n (suc i) s_rows
  some (b ∷ 0x00 ∷ rest)
