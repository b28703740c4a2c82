-- ===== src/Tft/Picture/Bounds.antt =====
-- Where the rectangles of a drawn text lie.
use textreaderrpi.Common.{
  ℕ, zero, suc, ◌+◌, ◌-◌, ◌<◌, ◌≤◌, ◌≡◌, ◌∙◌, refl, sym, ap, some, List, [], ◌∷◌, ◌++◌, length,
  true, false, Bool, ltb, ◌&&◌, if◌then◌else◌, arith, lt→ltb, ltb→lt,
}
use textreaderrpi.Font.{glyph}
use textreaderrpi.Font.Laws.{length-glyph}
use textreaderrpi.Driver.Loops.{traces_up}
use textreaderrpi.Tft.Draw.{Panel, draw_pixel, draw_columns, render_text}
use textreaderrpi.Tft.Draw.Spec.{characters, picture}
use textreaderrpi.Tft.Draw.Laws.{HasRoom, render_text-picture}
use textreaderrpi.Pixels.{Rect, rect}
use native.Mathlib.Nat.{mod-eq_of_lt}

-- Every rectangle ends at column `w` and row `h` at the latest.
abbrev pub Within : (w h : ℕ) → List Rect → Type 0
Within w h [] = Unit
Within w h (r ∷ rs) = (r.x + r.w ≤ w) × (r.y + r.h ≤ h) × Within w h rs

module _ (w h : ℕ) where
  append-Within : (rs ss : List Rect) → Within w h rs → Within w h ss → Within w h (rs ++ ss)
  append-Within [] ss p q = q
  append-Within (r ∷ rs) ss p q = (p.0, p.1, append-Within rs ss p.2 q)

  traces_up-Within :
      (n k : ℕ) (f : ℕ → List Rect)
      → ((i : ℕ) → i < k + n → Within w h (f i))
      → Within w h (traces_up n k f)
  unfolding traces_up
  traces_up-Within zero k f p = tt
  traces_up-Within (suc n) k f p =
      append-Within (f k) (traces_up n (suc k) f) (p k (omega arith))
        (traces_up-Within n (suc k) f λ i lt. p i (omega arith))

  shown-Within :
      (a b : Bool) (rs : List Rect)
      → (a ≡ true → b ≡ true → Within w h rs)
      → Within w h (if a && b then rs else [])
  shown-Within true true rs p = p refl refl
  shown-Within true false rs p = tt
  shown-Within false true rs p = tt
  shown-Within false false rs p = tt

module _ (panel : Panel) (room : HasRoom panel) (fg bg : ℕ) (tall : panel.top + 8 ≤ panel.bar) where
  columns-Within :
      (x col : ℕ) (columns : List ℕ)
      → x + col + length columns ≤ panel.width + 4
      → Within (panel.width + 4) panel.bar (draw_columns panel rect x panel.top fg bg col columns)
  unfolding draw_columns draw_pixel
  columns-Within x col [] fit = tt
  columns-Within x col (cb ∷ columns) fit =
      append-Within (panel.width + 4) panel.bar
        (traces_up 8 0 (draw_pixel panel rect x panel.top fg bg col cb))
        (draw_columns panel rect x panel.top fg bg (suc col) columns)
        (traces_up-Within (panel.width + 4) panel.bar 8 0 _ λ row lt. (
          omega (
            arith,
            mod-eq_of_lt {n = x + col} {m = panel.coordinates} (omega (arith, room.columns)),
          ),
          omega (
            arith,
            mod-eq_of_lt {n = panel.top + row} {m = panel.coordinates} (omega (arith, room.rows)),
          ),
          tt,
        ))
        (columns-Within x (suc col) columns (omega arith))

  characters-Within :
      (left : ℕ) (text : List ℕ) (offset : ℕ)
      → Within (panel.width + 4) panel.bar (characters panel rect left text offset fg bg)
  unfolding characters
  characters-Within left [] offset = tt
  characters-Within left (c ∷ text) offset =
      append-Within (panel.width + 4) panel.bar
        (if ltb offset (left + 5) && ltb left (offset + panel.width)
          then draw_columns panel rect (left - offset) panel.top fg bg 0 (glyph c)
          else [])
        (characters panel rect (left + 6) text offset fg bg)
        (shown-Within (panel.width + 4) panel.bar (ltb offset (left + 5))
          (ltb left (offset + panel.width))
          (draw_columns panel rect (left - offset) panel.top fg bg 0 (glyph c))
          λ seen inside. columns-Within (left - offset) 0 (glyph c) (
            omega
              (arith, length-glyph c, ltb→lt left (offset + panel.width) inside, room.some_width)))
        (characters-Within (left + 6) text offset)

  -- For a panel whose coordinates' type has room for it and whose bar has room for the text:
  -- every rectangle that `render_text` fills ends within the bar's rows, and at most four
  -- columns right of the panel.
  pub render_text-Within :
      (text : List ℕ) (offset : ℕ)
      → (rects : List Rect) × (render_text panel rect text offset fg bg ≡ some rects)
        × Within (panel.width + 4) panel.bar rects
  unfolding picture
  render_text-Within text offset = (
    picture panel rect text offset fg bg,
    render_text-picture panel rect room offset fg bg text,
    (omega arith, omega arith, characters-Within 0 text offset),
  )

nothing_left : (offset : ℕ) → 0 - offset ≡ 0
nothing_left offset = omega arith

module _ {A : Type 0} (panel : Panel) (fill_rect : (x y w h color : ℕ) → List A)
    (room : HasRoom panel) where
  -- On a panel whose coordinates' type has room for it: a text of one character is drawn at each
  -- offset below 5 exactly as at offset 0, so it does not move while its first columns should
  -- leave the panel.
  pub render_text-one_character :
      (c offset fg bg : ℕ)
      → offset < 5
      → render_text panel fill_rect (c ∷ []) offset fg bg
        ≡ render_text panel fill_rect (c ∷ []) 0 fg bg
  unfolding picture characters
  render_text-one_character c offset fg bg lt =
      render_text-picture panel fill_rect room offset fg bg (c ∷ [])
      ∙ ap some (
          rw
            (
              nothing_left offset,
              lt→ltb offset 5 lt,
              lt→ltb 0 (offset + panel.width) (omega (arith, room.some_width)),
              lt→ltb 0 (0 + panel.width) (omega (arith, room.some_width)),
            )
            refl)
      ∙ sym (render_text-picture panel fill_rect room 0 fg bg (c ∷ []))
