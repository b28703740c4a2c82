-- ===== src/Pcd8544/Row.antt =====
-- The arrays of the PCD8544 drivers: the bitmap of 512 bytes and the first row of the frame buffer.
pub mod Laws
use textreaderrpi.Common.{ℕ, ◌+◌, List, Option, some, ◌-◌}
use textreaderrpi.Memory.{◌>>=◌, copy_loop}
use textreaderrpi.Bitmap

unfoldable pub build_bitmap : List ℕ → List ℕ → Option (List ℕ × ℕ)
build_bitmap text out = Bitmap.build (512 - 6) 84 512 text out

-- `for (col) { bi = offset + col; s_fb[col] = (bi < bmp_len) ? bmp[bi] : 0; }`
unfoldable pub fill_row : List ℕ → ℕ → ℕ → List ℕ → Option (List ℕ)
fill_row bmp bmp_len offset fb = do
  (fb', idx) ← copy_loop 84 0 (λ col. Bitmap.column bmp bmp_len (offset + col)) fb 0
  some fb'
