-- ===== src/Tft/Draw/Spec.antt =====
-- What a text looks like on a colour panel, without positions left of the panel and without early
-- exits.
use textreaderrpi.Common.{ℕ, ◌+◌, ◌-◌, ◌&&◌, List, [], ◌∷◌, ◌++◌, ltb, if◌then◌else◌}
use textreaderrpi.Font.{glyph}
use textreaderrpi.Tft.Draw.{Panel, draw_columns}

module _ {A : Type 0} (panel : Panel) (fill_rect : (x y w h color : ℕ) → List A) where
  open panel use {width, bar, top}

  -- The characters from column `left` of the text on. A character shows when one of its five
  -- columns is in the window of `width` columns at `offset`.
  unfoldable pub characters : (left : ℕ) → List ℕ → (offset fg bg : ℕ) → List A
  characters left [] offset fg bg = []
  characters left (c ∷ text) offset fg bg =
      (if ltb offset (left + 5) && ltb left (offset + width)
        then draw_columns panel fill_rect (left - offset) top fg bg 0 (glyph c)
        else [])
      ++ characters (left + 6) text offset fg bg

  unfoldable pub picture : List ℕ → (offset fg bg : ℕ) → List A
  picture text offset fg bg = fill_rect 0 0 width bar bg ++ characters 0 text offset fg bg
