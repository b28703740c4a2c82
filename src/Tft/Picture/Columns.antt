-- ===== src/Tft/Picture/Columns.antt =====
-- The pixels that the columns of one character reach.
use textreaderrpi.Common.{
  ℕ, zero, suc, ◌+◌, ◌-◌, ◌<◌, ◌≤◌, ◌≡◌, inl, refl, sym, List, [], ◌∷◌, length, get_or, arith,
}
use textreaderrpi.Driver.Loops.{traces_up}
use textreaderrpi.Tft.Draw.{Panel, draw_pixel, draw_columns}
use textreaderrpi.Pixels.{rect, color_at}
use textreaderrpi.Pixels.Laws.{
  Outside, Misses, Hits, append-Misses, append-Hits_left, append-Hits_right, rect-Hits, rect-Misses,
  traces_up-Misses, traces_up-Hits,
}
use textreaderrpi.Tft.Picture.{shade}
use native.Mathlib.Nat.{mod-eq_of_lt}
use mathlib.Core.Path.{subst}

module _ (panel : Panel) (fg bg px py : ℕ) where
  draw_pixel_lem :
      (x y col cb row : ℕ)
      → x + col < panel.coordinates
      → y + row < panel.coordinates
      → draw_pixel panel rect x y fg bg col cb row
        ≡ rect (x + col) (y + row) 1 1 (shade fg bg cb row)
  unfolding draw_pixel shade
  draw_pixel_lem x y col cb row fit_x fit_y =
      rw
        (
          mod-eq_of_lt {n = x + col} {m = panel.coordinates} fit_x,
          mod-eq_of_lt {n = y + row} {m = panel.coordinates} fit_y,
        )
        refl

  module _ (x y : ℕ) (tall : y + 8 ≤ panel.coordinates) where
    column-Misses :
        (col cb : ℕ)
        → x + col < panel.coordinates
        → Outside (x + col) y 1 8 px py
        → Misses px py (traces_up 8 0 (draw_pixel panel rect x y fg bg col cb))
    column-Misses col cb fit out = traces_up-Misses px py 8 0 _ λ row low high.
        subst (Misses px py) (sym (draw_pixel_lem x y col cb row fit (omega arith)))
          (rect-Misses px py (x + col) (y + row) 1 1 (shade fg bg cb row) (ground arith))

    column-Hits :
        (col cb : ℕ)
        → x + col < panel.coordinates
        → px ≡ x + col
        → y ≤ py
        → py < y + 8
        → Hits px py
            (traces_up 8 0 (draw_pixel panel rect x y fg bg col cb))
            (shade fg bg cb (py - y))
    column-Hits col cb fit here up down =
        traces_up-Hits px py 8 0 (py - y) _ _ (omega arith) (omega arith)
          (subst (λ l. Hits px py l (shade fg bg cb (py - y)))
            (sym (draw_pixel_lem x y col cb (py - y) fit (omega arith)))
            (rect-Hits px py (x + col) (y + (py - y)) 1 1 (shade fg bg cb (py - y)) (omega arith)
              (omega arith) (omega arith) (omega arith)))
          λ row above below.
            subst (Misses px py) (sym (draw_pixel_lem x y col cb row fit (omega arith)))
              (rect-Misses px py (x + col) (y + row) 1 1 (shade fg bg cb row) (ground arith))

    pub columns-Misses :
        (col : ℕ) (columns : List ℕ)
        → x + col + length columns ≤ panel.coordinates
        → Outside (x + col) y (length columns) 8 px py
        → Misses px py (draw_columns panel rect x y fg bg col columns)
    unfolding draw_columns color_at
    columns-Misses col [] fit out old = refl
    columns-Misses col (cb ∷ columns) fit out old =
        append-Misses px py (traces_up 8 0 (draw_pixel panel rect x y fg bg col cb))
          (draw_columns panel rect x y fg bg (suc col) columns)
          (column-Misses col cb (omega arith) (ground arith))
          (columns-Misses (suc col) columns (omega arith) (ground arith)) old

    pub columns-Hits :
        (col k : ℕ) (columns : List ℕ)
        → x + col + length columns ≤ panel.coordinates
        → k < length columns
        → px ≡ x + col + k
        → y ≤ py
        → py < y + 8
        → Hits px py
            (draw_columns panel rect x y fg bg col columns)
            (shade fg bg (get_or columns k 0) (py - y))
    unfolding draw_columns
    columns-Hits col k [] fit lt here up down = absurd (omega arith)
    columns-Hits col zero (cb ∷ columns) fit lt here up down =
        append-Hits_left px py (traces_up 8 0 (draw_pixel panel rect x y fg bg col cb))
          (draw_columns panel rect x y fg bg (suc col) columns) (shade fg bg cb (py - y))
          (column-Hits col cb (omega arith) (omega arith) up down)
          (columns-Misses (suc col) columns (omega arith) (inl (omega arith)))
    columns-Hits col (suc k) (cb ∷ columns) fit lt here up down =
        append-Hits_right px py (traces_up 8 0 (draw_pixel panel rect x y fg bg col cb)) _
          (shade fg bg (get_or columns k 0) (py - y))
          (columns-Hits (suc col) k columns (omega arith) (omega arith) (omega arith) up down)
