-- ===== src/Tft/Draw/Laws.antt =====
-- The drawn text against its specification.
use textreaderrpi.Common.{
  ℕ, ◌+◌, ◌-◌, ◌<◌, ◌≤◌, ◌≡◌, ◌&&◌, refl, sym, ap, some, List, [], ◌∷◌, true, false, Bool, ltb,
  if◌then◌else◌, arith, lt→ltb, le→not_ltb, le→leb, lt→not_leb,
}
use textreaderrpi.Common.Int.{minus}
use textreaderrpi.Common.Int.Laws.{negated-minus, plus-minus, at_least-minus, clip-minus}
use textreaderrpi.Font.{glyph}
use textreaderrpi.Font.Laws.{font_row-font_index}
use textreaderrpi.Tft.Draw.{Panel, draw_columns, draw_char, draw_visible, draw_text, render_text}
use textreaderrpi.Tft.Draw.Spec.{characters, picture}
use native.Mathlib.Decide.{dec_lt}
use native.Mathlib.Nat.{mod-eq_of_lt}

and_false : (b : Bool) → b && false ≡ false
and_false true = refl
and_false false = refl

-- The coordinates' type has room for the panel and a character that starts in its last column.
pub record HasRoom (panel : Panel) : Type 0 where
  pub columns : panel.width + 4 ≤ panel.coordinates
  pub rows : panel.top + 8 ≤ panel.coordinates
  pub some_width : 0 < panel.width

module _ {A : Type 0} (panel : Panel) (fill_rect : (x y w h color : ℕ) → List A)
    (room : HasRoom panel) (offset fg bg : ℕ) where
  draw_char_lem :
      (x y c : ℕ)
      → draw_char panel fill_rect x y c fg bg
        ≡ some (draw_columns panel fill_rect x y fg bg 0 (glyph c))
  unfolding draw_char
  draw_char_lem x y c = rw (font_row-font_index c) refl

  past :
      (left : ℕ) (text : List ℕ)
      → offset + panel.width ≤ left
      → characters panel fill_rect left text offset fg bg ≡ []
  unfolding characters
  past left [] h = refl
  past left (c ∷ text) h =
      rw
        (
          le→not_ltb left (offset + panel.width) h,
          and_false (ltb offset (left + 5)),
          past (left + 6) text (omega arith),
        )
        refl

  draw_visible-minus :
      (left c : ℕ)
      → left < offset + panel.width
      → draw_visible panel fill_rect (minus left offset) c fg bg
        ≡ some (
            if ltb offset (left + 5) && ltb left (offset + panel.width)
            then draw_columns panel fill_rect (left - offset) panel.top fg bg 0 (glyph c)
            else [])
  unfolding draw_visible
  draw_visible-minus left c h =
      rw
        (
          plus-minus left offset 5,
          at_least-minus (left + 5) offset 1,
          clip-minus left offset,
          lt→ltb left (offset + panel.width) h,
          mod-eq_of_lt {n = left - offset} {m = panel.coordinates} (omega (arith, room.columns)),
          draw_char_lem (left - offset) panel.top c,
        )
        (elim (dec_lt offset (left + 5)) [
          | yes seen ↦
              rw (le→leb (offset + 1) (left + 5) (omega arith), lt→ltb offset (left + 5) seen) refl
          | no hidden ↦
              rw
                (
                  lt→not_leb (offset + 1) (left + 5) (omega arith),
                  le→not_ltb offset (left + 5) (omega arith),
                )
                refl
        ])

  draw_text-characters :
      (left : ℕ) (text : List ℕ)
      → draw_text panel fill_rect (minus left offset) text fg bg
        ≡ some (characters panel fill_rect left text offset fg bg)
  unfolding draw_text characters
  draw_text-characters left [] = refl
  draw_text-characters left (c ∷ text) = elim (dec_lt left (offset + panel.width)) [
    | yes inside ↦
        rw
          (
            at_least-minus left offset panel.width,
            lt→not_leb (offset + panel.width) left inside,
            draw_visible-minus left c inside,
            plus-minus left offset 6,
            draw_text-characters (left + 6) text,
          )
          refl
    | no outside ↦
        rw
          (at_least-minus left offset panel.width, le→leb (offset + panel.width) left (omega arith))
          (ap some (sym (past left (c ∷ text) (omega arith))))
  ]

  pub render_text-picture :
      (text : List ℕ)
      → render_text panel fill_rect text offset fg bg
        ≡ some (picture panel fill_rect text offset fg bg)
  unfolding render_text picture
  render_text-picture text = rw (negated-minus offset, draw_text-characters 0 text) refl
