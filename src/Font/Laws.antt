-- ===== src/Font/Laws.antt =====
-- The size of the font table and the range of its index.
use textreaderrpi.Common.{
  ℕ, zero, suc, ◌*◌, ◌<◌, ◌≡◌, refl, some, List, [], ◌∷◌, ◌++◌, Bool, true, ◌&&◌, ◌==◌, arith,
  length, get_or, get_elem?-eq-get_or, length-append,
}
use textreaderrpi.Font.{font5x8, font_index, font_row, glyph, text_columns}

font_index-lt : (c : ℕ) → font_index c < 96
unfolding font_index
font_index-lt c = ground arith

length-font5x8 : length font5x8 ≡ 96
unfolding font5x8
length-font5x8 = refl

abbrev all_five : List (List ℕ) → Bool
all_five [] = true
all_five (r ∷ rs) = (length r == 5) && all_five rs

length-get_or-all_five :
    (rs : List (List ℕ)) (i : ℕ) → all_five rs ≡ true → i < length rs → length (get_or rs i []) ≡ 5
length-get_or-all_five [] i h lt = absurd (omega arith)
length-get_or-all_five (r ∷ rs) zero h lt = ground arith
length-get_or-all_five (r ∷ rs) (suc i) h lt =
    length-get_or-all_five rs i (ground arith) (omega arith)

font5x8-all_five : all_five font5x8 ≡ true
unfolding font5x8
font5x8-all_five = refl

pub length-glyph : (c : ℕ) → length (glyph c) ≡ 5
unfolding glyph
length-glyph c =
    length-get_or-all_five font5x8 (font_index c) font5x8-all_five
      (omega (arith, font_index-lt c, length-font5x8))

-- The lookup of a byte's row never leaves the table.
pub font_row-font_index : (c : ℕ) → font_row (font_index c) ≡ some (glyph c)
unfolding font_row glyph
font_row-font_index c =
    get_elem?-eq-get_or font5x8 (font_index c) [] (omega (arith, font_index-lt c, length-font5x8))

pub length-text_columns : (text : List ℕ) → length (text_columns text) ≡ 6 * length text
unfolding text_columns
length-text_columns [] = refl
length-text_columns (c ∷ text) = omega (
  arith,
  length-append (glyph c ++ 0 ∷ []) (text_columns text),
  length-append (glyph c) (0 ∷ []),
  length-glyph c,
  length-text_columns text,
)
