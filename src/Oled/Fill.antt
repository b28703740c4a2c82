-- ===== src/Oled/Fill.antt =====
-- The frame buffer of a paged panel: the loops that fill it with columns, and the read of one page.
pub mod Laws
use textreaderrpi.Common.{ℕ, zero, suc, ◌+◌, ◌*◌, List, Option, some}
use textreaderrpi.Memory.{◌>>=◌, copy_loop, load_range}
use textreaderrpi.Bitmap

-- `for (page) for (col) s_fb[page * 128 + col] = (bi < bmp_len) ? bmp[bi] : 0`, `bi = offset + col`,
-- with `n` pages left.
unfoldable pub fill_pages : ℕ → ℕ → List ℕ → ℕ → ℕ → List ℕ → Option (List ℕ)
fill_pages zero page bmp bmp_len offset fb = some fb
fill_pages (suc n) page bmp bmp_len offset fb = do
  (fb', idx) ← copy_loop 128 0 (λ col. Bitmap.column bmp bmp_len (offset + col)) fb (page * 128)
  fill_pages n (suc page) bmp bmp_len offset fb'

unfoldable pub fill : List ℕ → ℕ → ℕ → List ℕ → Option (List ℕ)
fill bmp bmp_len offset fb = fill_pages 8 0 bmp bmp_len offset fb

-- `memcpy(buf + 1, &s_fb[page * 128], 128)`
unfoldable pub load_page : List ℕ → ℕ → Option (List ℕ)
load_page fb page = load_range fb (page * 128) 128
