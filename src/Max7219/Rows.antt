-- ===== src/Max7219/Rows.antt =====
-- The buffer that `render_columns` of firmware/esp32/main/driver/max7219.c fills for one row.
use textreaderrpi.Common.{ℕ, zero, suc, ◌+◌, ◌-◌, ◌*◌, List, [], ◌∷◌, Option, some}
use textreaderrpi.Memory.{◌>>=◌}
use textreaderrpi.Bitmap

abbrev pub reg_row_base : ℕ
reg_row_base = 0x01

module _ (s_bitmap : List ℕ) (s_bitmap_len num_devices : ℕ) where
  -- The bytes for the devices from `d` on, with `n` of them left.
  unfoldable pub row_buffer : ℕ → ℕ → ℕ → ℕ → Option (List ℕ)
  row_buffer offset row zero d = some []
  row_buffer offset row (suc n) d = do
    b ← Bitmap.column s_bitmap s_bitmap_len (offset + (num_devices - 1 - d) * 8 + row)
    rest ← row_buffer offset row n (suc d)
    some ((reg_row_base + row) ∷ b ∷ rest)
