-- ===== src/Pixels.antt =====
-- The view of a panel on which rectangles are filled: the colour of a pixel is that of the last rectangle over it.
pub mod Laws
use textreaderrpi.Common.{ℕ, ◌+◌, ◌&&◌, Bool, List, [], ◌∷◌, leb, ltb, if◌then◌else◌}

pub record Rect : Type 0 where
  pub x : ℕ
  pub y : ℕ
  pub w : ℕ
  pub h : ℕ
  pub color : ℕ

-- `fill_rect` of a panel of which only the rectangles are of interest.
abbrev pub rect : (x y w h color : ℕ) → List Rect
rect x y w h color = record { x = x; y = y; w = w; h = h; color = color } ∷ []

unfoldable pub covers : Rect → ℕ → ℕ → Bool
covers r px py = (leb r.x px && ltb px (r.x + r.w)) && (leb r.y py && ltb py (r.y + r.h))

-- The colour of pixel `px`, `py` after the rectangles, if it was `old` before.
unfoldable pub color_at : List Rect → (px py old : ℕ) → ℕ
color_at [] px py old = old
color_at (r ∷ rs) px py old = color_at rs px py (if covers r px py then r.color else old)
