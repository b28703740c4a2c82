-- ===== src/Oled/Visible.antt =====
-- The columns that a paged panel shows, and a frame buffer that holds them on every page.
use textreaderrpi.Common.{
  ℕ, zero, suc, ◌+◌, ◌*◌, ◌≡◌, refl, List, [], ◌++◌, arith, length, get_or, length-append,
}
use textreaderrpi.Memory.{window}
use textreaderrpi.Memory.Laws.{length-window}

-- The 128 columns that are visible at an offset.
unfoldable pub visible : List ℕ → ℕ → List ℕ
visible b offset = window (λ col. get_or b (offset + col) 0) 0 128

pub length-visible : (b : List ℕ) (offset : ℕ) → length (visible b offset) ≡ 128
unfolding visible
length-visible b offset = length-window (λ col. get_or b (offset + col) 0) 0 128

-- `n` copies of a page's bytes.
unfoldable pub tile : ℕ → List ℕ → List ℕ
tile zero w = []
tile (suc n) w = w ++ tile n w

pub length-tile : (n : ℕ) (w : List ℕ) → length w ≡ 128 → length (tile n w) ≡ n * 128
unfolding tile
length-tile zero w h = refl
length-tile (suc n) w h = omega (arith, length-append w (tile n w), length-tile n w h)
