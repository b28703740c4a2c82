-- ===== src/Tft/Picture/Laws.antt =====
-- The rectangles of a drawn text against the picture.
use textreaderrpi.Font.Laws.{length-glyph}
use textreaderrpi.Tft.Draw.Spec.{characters, picture}
use textreaderrpi.Tft.Picture.Columns.{columns-Misses, columns-Hits}
use textreaderrpi.Font.{glyph, text_columns}
use textreaderrpi.Tft.Draw.Laws.{HasRoom, render_text-picture}
use textreaderrpi.Common.{
  leb, le→leb, lt→not_leb, ltb, if◌then◌else◌, ◌&&◌, lt→ltb, le→not_ltb, ℕ, ◌+◌, ◌-◌, ◌<◌, ◌≤◌, ◌≡◌,
  inl, refl, sym, List, [], ◌∷◌, length, get_or, arith, ◌⊎◌, if◌then◌else◌, ltb, ◌%◌, ◌++◌, ◌∙◌,
  get_or-append_left, length-append, ap, get_or-append_default, get_or-append_right, inr, ◌^◌,
  get_or_past, some,
}
use textreaderrpi.Tft.Draw.{Panel, draw_columns, render_text}
use textreaderrpi.Pixels.{rect, color_at, Rect}
use textreaderrpi.Pixels.Laws.{
  Misses, Hits, color_at-append, append-Misses, append-Hits_left, rect-Hits,
}
use textreaderrpi.Tft.Picture.{shade, pixel}
use native.Mathlib.Nat.{zero-div}
use native.Mathlib.Decide.{dec_lt}

shade_blank : (fg bg row : ℕ) → shade fg bg 0 row ≡ bg
unfolding shade
shade_blank fg bg row = rw (zero-div (2 ^ row)) refl

-- The columns of one character: its glyph and a blank one.
character-column :
    (c k : ℕ) (rest : List ℕ)
    → k < 6
    → get_or ((glyph c ++ 0 ∷ []) ++ rest) k 0 ≡ get_or (glyph c) k 0
character-column c k rest h =
    get_or-append_left (glyph c ++ 0 ∷ []) rest k 0
      (omega (arith, length-append (glyph c) (0 ∷ []), length-glyph c))
    ∙ get_or-append_default (glyph c) k 0

next_character-column :
    (c k : ℕ) (rest : List ℕ)
    → 6 ≤ k
    → get_or ((glyph c ++ 0 ∷ []) ++ rest) k 0 ≡ get_or rest (k - 6) 0
next_character-column c k rest h =
    let six : length (glyph c ++ 0 ∷ []) ≡ 6 =
      omega (arith, length-append (glyph c) (0 ∷ []), length-glyph c) in
    get_or-append_right (glyph c ++ 0 ∷ []) rest k 0 (omega (arith, six))
    ∙ ap (λ n. get_or rest (k - n) 0) six

module _ (panel : Panel) (room : HasRoom panel) (offset fg bg px py : ℕ) where
  -- The character at column `left` of the text.
  abbrev drawn : (left c : ℕ) → List Rect
  drawn left c =
      if ltb offset (left + 5) && ltb left (offset + panel.width)
      then draw_columns panel rect (left - offset) panel.top fg bg 0 (glyph c)
      else []

  abbrev Apart : ℕ → Type 0
  Apart left =
      (px < left - offset)
      ⊎ (left - offset + 5 ≤ px)
      ⊎ (left + 5 ≤ offset)
      ⊎ (py < panel.top)
      ⊎ (panel.top + 8 ≤ py)

  drawn-Misses : (left c : ℕ) → Apart left → Misses px py (drawn left c)
  unfolding color_at
  drawn-Misses left c apart old = elim (dec_lt offset (left + 5)) [
    | no before ↦ rw (le→not_ltb offset (left + 5) (omega arith)) refl
    | yes seen ↦ elim (dec_lt left (offset + panel.width)) [
      | no behind ↦
          rw (lt→ltb offset (left + 5) seen, le→not_ltb left (offset + panel.width) (omega arith))
            refl
      | yes inside ↦
          rw (lt→ltb offset (left + 5) seen, lt→ltb left (offset + panel.width) inside)
            (columns-Misses panel fg bg px py (left - offset) panel.top room.rows 0 (glyph c)
              (omega (arith, length-glyph c, room.columns))
              (let five = length-glyph c in ground arith) old)
    ]
  ]

  drawn-Hits :
      (left c k : ℕ)
      → offset ≤ left
      → px ≡ left - offset + k
      → k < 5
      → px < panel.width
      → panel.top ≤ py
      → py < panel.top + 8
      → Hits px py (drawn left c) (shade fg bg (get_or (glyph c) k 0) (py - panel.top))
  drawn-Hits left c k whole here lt on up down old =
      rw (lt→ltb offset (left + 5) (omega arith), lt→ltb left (offset + panel.width) (omega arith))
        (columns-Hits panel fg bg px py (left - offset) panel.top room.rows 0 k (glyph c)
          (omega (arith, length-glyph c, room.columns)) (omega (arith, length-glyph c))
          (omega arith) up down old)

  characters-Misses :
      (left : ℕ) (text : List ℕ)
      → (px + offset < left) ⊎ (py < panel.top) ⊎ (panel.top + 8 ≤ py)
      → Misses px py (characters panel rect left text offset fg bg)
  unfolding characters color_at
  characters-Misses left [] out old = refl
  characters-Misses left (c ∷ text) out old =
      append-Misses px py (drawn left c) (characters panel rect (left + 6) text offset fg bg)
        (drawn-Misses left c (ground arith)) (characters-Misses (left + 6) text (ground arith)) old

  module _ (on : px < panel.width) (up : panel.top ≤ py) (down : py < panel.top + 8)
      (clean : px < 5 → offset % 6 ≡ 0) where
    at_character :
        (left c : ℕ) (text : List ℕ)
        → left % 6 ≡ 0
        → left ≤ px + offset
        → px + offset < left + 6
        → color_at (drawn left c ++ characters panel rect (left + 6) text offset fg bg) px py bg
          ≡ shade fg bg (get_or (text_columns (c ∷ text)) (px + offset - left) 0) (py - panel.top)
    unfolding text_columns
    at_character left c text six reached here =
        let k = px + offset - left in
        let rest = characters panel rect (left + 6) text offset fg bg in
        let rest-Misses = characters-Misses (left + 6) text (inl (omega arith)) in
        elim (dec_lt k 5) [
          | yes glyph_column ↦
              append-Hits_left px py (drawn left c) rest
                (shade fg bg (get_or (glyph c) k 0) (py - panel.top))
                (drawn-Hits left c k whole (omega (arith, whole)) glyph_column on up down)
                rest-Misses bg
              ∙ ap (λ column. shade fg bg column (py - panel.top))
                  (sym (character-column c k (text_columns text) (omega arith)))
          | no gap ↦
              append-Misses px py (drawn left c) rest
                (drawn-Misses left c (inr (inl (omega (arith, whole))))) rest-Misses bg
              ∙ sym (shade_blank fg bg (py - panel.top))
              ∙ ap (λ column. shade fg bg column (py - panel.top))
                  (sym (
                    character-column c k (text_columns text) (omega arith)
                    ∙ get_or_past (glyph c) k 0 (omega (arith, length-glyph c))))
        ]
      where
        clipped : left < offset → offset % 6 ≡ 0
        clipped h = clean (omega arith)

        whole : offset ≤ left
        whole = elim (dec_lt left offset) [
          | yes h ↦ (let aligned = clipped h in absurd (omega arith))
          | no h ↦ omega arith
        ]

    past_columns :
        (left c : ℕ) (text : List ℕ)
        → left + 6 ≤ px + offset
        → get_or (text_columns (c ∷ text)) (px + offset - left) 0
          ≡ get_or (text_columns text) (px + offset - (left + 6)) 0
    unfolding text_columns
    past_columns left c text h =
        next_character-column c (px + offset - left) (text_columns text) (omega arith)
        ∙ ap (λ k. get_or (text_columns text) k 0) (omega arith)

    characters-shade :
        (left : ℕ) (text : List ℕ)
        → left % 6 ≡ 0
        → left ≤ px + offset
        → color_at (characters panel rect left text offset fg bg) px py bg
          ≡ shade fg bg (get_or (text_columns text) (px + offset - left) 0) (py - panel.top)
    unfolding characters color_at text_columns
    characters-shade left [] six reached = sym (shade_blank fg bg (py - panel.top))
    characters-shade left (c ∷ text) six reached = elim (dec_lt (px + offset) (left + 6)) [
      | yes here ↦ at_character left c text six reached here
      | no later ↦
          color_at-append (drawn left c) (characters panel rect (left + 6) text offset fg bg) px py
            bg
          ∙ ap (color_at (characters panel rect (left + 6) text offset fg bg) px py)
              (drawn-Misses left c (ground arith) bg)
          ∙ characters-shade (left + 6) text (omega arith) (omega arith)
          ∙ ap (λ column. shade fg bg column (py - panel.top))
              (sym (past_columns left c text (omega arith)))
    ]

module _ (panel : Panel) (room : HasRoom panel) where
  -- For a panel whose coordinates' type has room for it and whose bar has room for the text: after
  -- `render_text` a pixel of the bar in the panel's width has the colour that the bit of the text's
  -- column at `offset` selects in the eight rows of the text, and the background's colour in the
  -- bar's other rows. For the first five columns of the panel this needs that the offset is a
  -- multiple of 6.
  pub render_text-pixel :
      (text : List ℕ) (offset fg bg px py old : ℕ)
      → panel.top + 8 ≤ panel.bar
      → px < panel.width
      → py < panel.bar
      → (px < 5 → offset % 6 ≡ 0)
      → (rects : List Rect) × (render_text panel rect text offset fg bg ≡ some rects)
        × (color_at rects px py old ≡ pixel panel text offset fg bg px py)
  unfolding picture color_at pixel
  render_text-pixel text offset fg bg px py old tall on below clean = (
    picture panel rect text offset fg bg,
    render_text-picture panel rect room offset fg bg text,
    ap (color_at (characters panel rect 0 text offset fg bg) px py) (
          rect-Hits px py 0 0 panel.width panel.bar bg (omega arith) (omega arith) (omega arith)
            (omega arith) old)
        ∙ in_bar (dec_lt py panel.top) (dec_lt py (panel.top + 8)),
  )
    where
      in_bar :
          Dec (py < panel.top)
          → Dec (py < panel.top + 8)
          → color_at (characters panel rect 0 text offset fg bg) px py bg ≡ (
              if leb panel.top py && ltb py (panel.top + 8)
              then shade fg bg (get_or (text_columns text) (px + offset) 0) (py - panel.top)
              else bg)
      in_bar (yes above) d =
          rw (lt→not_leb panel.top py above)
            (characters-Misses panel room offset fg bg px py 0 text (inr (inl above)) bg)
      in_bar (no low) (no under) =
          rw (le→leb panel.top py (omega arith), le→not_ltb py (panel.top + 8) (omega arith))
            (characters-Misses panel room offset fg bg px py 0 text (inr (inr (omega arith))) bg)
      in_bar (no low) (yes high) =
          rw (le→leb panel.top py (omega arith), lt→ltb py (panel.top + 8) high)
            (characters-shade panel room offset fg bg px py on (omega arith) high clean 0 text
                (omega arith) (omega arith)
              ∙ ap (λ column. shade fg bg (get_or (text_columns text) column 0) (py - panel.top))
                  (omega arith))
