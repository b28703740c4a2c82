-- ===== src/Font.antt =====
-- The 5x8 font of firmware/common/font/font5x8.h, and the index that every driver computes for a
-- byte of text.
pub mod Laws
use textreaderrpi.Common.{
  ℕ, ◌-◌, List, [], ◌∷◌, ◌||◌, Option, ltb, leb, if◌then◌else◌, get_elem?, get_or, ◌++◌,
}

abbrev pub font_char_width : ℕ
font_char_width = 5

abbrev pub font_table_size : ℕ
font_table_size = 96

-- `font5x8`: a row for each of the bytes 0x20 to 0x7F, a byte for each of its five columns.
unfoldable pub font5x8 : List (List ℕ)
font5x8 =
    (0x00 ∷ 0x00 ∷ 0x00 ∷ 0x00 ∷ 0x00 ∷ [])
    ∷ (0x00 ∷ 0x00 ∷ 0x5F ∷ 0x00 ∷ 0x00 ∷ [])
    ∷ (0x00 ∷ 0x07 ∷ 0x00 ∷ 0x07 ∷ 0x00 ∷ [])
    ∷ (0x14 ∷ 0x7F ∷ 0x14 ∷ 0x7F ∷ 0x14 ∷ [])
    ∷ (0x24 ∷ 0x2A ∷ 0x7F ∷ 0x2A ∷ 0x12 ∷ [])
    ∷ (0x23 ∷ 0x13 ∷ 0x08 ∷ 0x64 ∷ 0x62 ∷ [])
    ∷ (0x36 ∷ 0x49 ∷ 0x55 ∷ 0x22 ∷ 0x50 ∷ [])
    ∷ (0x00 ∷ 0x05 ∷ 0x03 ∷ 0x00 ∷ 0x00 ∷ [])
    ∷ (0x00 ∷ 0x1C ∷ 0x22 ∷ 0x41 ∷ 0x00 ∷ [])
    ∷ (0x00 ∷ 0x41 ∷ 0x22 ∷ 0x1C ∷ 0x00 ∷ [])
    ∷ (0x14 ∷ 0x08 ∷ 0x3E ∷ 0x08 ∷ 0x14 ∷ [])
    ∷ (0x08 ∷ 0x08 ∷ 0x3E ∷ 0x08 ∷ 0x08 ∷ [])
    ∷ (0x00 ∷ 0x50 ∷ 0x30 ∷ 0x00 ∷ 0x00 ∷ [])
    ∷ (0x08 ∷ 0x08 ∷ 0x08 ∷ 0x08 ∷ 0x08 ∷ [])
    ∷ (0x00 ∷ 0x60 ∷ 0x60 ∷ 0x00 ∷ 0x00 ∷ [])
    ∷ (0x20 ∷ 0x10 ∷ 0x08 ∷ 0x04 ∷ 0x02 ∷ [])
    ∷ (0x3E ∷ 0x51 ∷ 0x49 ∷ 0x45 ∷ 0x3E ∷ [])
    ∷ (0x00 ∷ 0x42 ∷ 0x7F ∷ 0x40 ∷ 0x00 ∷ [])
    ∷ (0x62 ∷ 0x51 ∷ 0x49 ∷ 0x49 ∷ 0x46 ∷ [])
    ∷ (0x22 ∷ 0x41 ∷ 0x49 ∷ 0x49 ∷ 0x36 ∷ [])
    ∷ (0x18 ∷ 0x14 ∷ 0x12 ∷ 0x7F ∷ 0x10 ∷ [])
    ∷ (0x27 ∷ 0x45 ∷ 0x45 ∷ 0x45 ∷ 0x39 ∷ [])
    ∷ (0x3C ∷ 0x4A ∷ 0x49 ∷ 0x49 ∷ 0x30 ∷ [])
    ∷ (0x01 ∷ 0x71 ∷ 0x09 ∷ 0x05 ∷ 0x03 ∷ [])
    ∷ (0x36 ∷ 0x49 ∷ 0x49 ∷ 0x49 ∷ 0x36 ∷ [])
    ∷ (0x06 ∷ 0x49 ∷ 0x49 ∷ 0x29 ∷ 0x1E ∷ [])
    ∷ (0x00 ∷ 0x36 ∷ 0x36 ∷ 0x00 ∷ 0x00 ∷ [])
    ∷ (0x00 ∷ 0x56 ∷ 0x36 ∷ 0x00 ∷ 0x00 ∷ [])
    ∷ (0x08 ∷ 0x14 ∷ 0x22 ∷ 0x41 ∷ 0x00 ∷ [])
    ∷ (0x14 ∷ 0x14 ∷ 0x14 ∷ 0x14 ∷ 0x14 ∷ [])
    ∷ (0x00 ∷ 0x41 ∷ 0x22 ∷ 0x14 ∷ 0x08 ∷ [])
    ∷ (0x02 ∷ 0x01 ∷ 0x51 ∷ 0x09 ∷ 0x06 ∷ [])
    ∷ (0x32 ∷ 0x49 ∷ 0x79 ∷ 0x41 ∷ 0x3E ∷ [])
    ∷ (0x7E ∷ 0x11 ∷ 0x11 ∷ 0x11 ∷ 0x7E ∷ [])
    ∷ (0x7F ∷ 0x49 ∷ 0x49 ∷ 0x49 ∷ 0x36 ∷ [])
    ∷ (0x3E ∷ 0x41 ∷ 0x41 ∷ 0x41 ∷ 0x22 ∷ [])
    ∷ (0x7F ∷ 0x41 ∷ 0x41 ∷ 0x22 ∷ 0x1C ∷ [])
    ∷ (0x7F ∷ 0x49 ∷ 0x49 ∷ 0x49 ∷ 0x41 ∷ [])
    ∷ (0x7F ∷ 0x09 ∷ 0x09 ∷ 0x09 ∷ 0x01 ∷ [])
    ∷ (0x3E ∷ 0x41 ∷ 0x49 ∷ 0x49 ∷ 0x7A ∷ [])
    ∷ (0x7F ∷ 0x08 ∷ 0x08 ∷ 0x08 ∷ 0x7F ∷ [])
    ∷ (0x00 ∷ 0x41 ∷ 0x7F ∷ 0x41 ∷ 0x00 ∷ [])
    ∷ (0x20 ∷ 0x40 ∷ 0x41 ∷ 0x3F ∷ 0x01 ∷ [])
    ∷ (0x7F ∷ 0x08 ∷ 0x14 ∷ 0x22 ∷ 0x41 ∷ [])
    ∷ (0x7F ∷ 0x40 ∷ 0x40 ∷ 0x40 ∷ 0x40 ∷ [])
    ∷ (0x7F ∷ 0x02 ∷ 0x0C ∷ 0x02 ∷ 0x7F ∷ [])
    ∷ (0x7F ∷ 0x04 ∷ 0x08 ∷ 0x10 ∷ 0x7F ∷ [])
    ∷ (0x3E ∷ 0x41 ∷ 0x41 ∷ 0x41 ∷ 0x3E ∷ [])
    ∷ (0x7F ∷ 0x09 ∷ 0x09 ∷ 0x09 ∷ 0x06 ∷ [])
    ∷ (0x3E ∷ 0x41 ∷ 0x51 ∷ 0x21 ∷ 0x5E ∷ [])
    ∷ (0x7F ∷ 0x09 ∷ 0x19 ∷ 0x29 ∷ 0x46 ∷ [])
    ∷ (0x26 ∷ 0x49 ∷ 0x49 ∷ 0x49 ∷ 0x32 ∷ [])
    ∷ (0x01 ∷ 0x01 ∷ 0x7F ∷ 0x01 ∷ 0x01 ∷ [])
    ∷ (0x3F ∷ 0x40 ∷ 0x40 ∷ 0x40 ∷ 0x3F ∷ [])
    ∷ (0x1F ∷ 0x20 ∷ 0x40 ∷ 0x20 ∷ 0x1F ∷ [])
    ∷ (0x3F ∷ 0x40 ∷ 0x38 ∷ 0x40 ∷ 0x3F ∷ [])
    ∷ (0x63 ∷ 0x14 ∷ 0x08 ∷ 0x14 ∷ 0x63 ∷ [])
    ∷ (0x03 ∷ 0x04 ∷ 0x78 ∷ 0x04 ∷ 0x03 ∷ [])
    ∷ (0x61 ∷ 0x51 ∷ 0x49 ∷ 0x45 ∷ 0x43 ∷ [])
    ∷ (0x00 ∷ 0x7F ∷ 0x41 ∷ 0x41 ∷ 0x00 ∷ [])
    ∷ (0x02 ∷ 0x04 ∷ 0x08 ∷ 0x10 ∷ 0x20 ∷ [])
    ∷ (0x00 ∷ 0x41 ∷ 0x41 ∷ 0x7F ∷ 0x00 ∷ [])
    ∷ (0x04 ∷ 0x02 ∷ 0x01 ∷ 0x02 ∷ 0x04 ∷ [])
    ∷ (0x40 ∷ 0x40 ∷ 0x40 ∷ 0x40 ∷ 0x40 ∷ [])
    ∷ (0x00 ∷ 0x01 ∷ 0x02 ∷ 0x04 ∷ 0x00 ∷ [])
    ∷ (0x20 ∷ 0x54 ∷ 0x54 ∷ 0x54 ∷ 0x78 ∷ [])
    ∷ (0x7F ∷ 0x48 ∷ 0x44 ∷ 0x44 ∷ 0x38 ∷ [])
    ∷ (0x38 ∷ 0x44 ∷ 0x44 ∷ 0x44 ∷ 0x20 ∷ [])
    ∷ (0x38 ∷ 0x44 ∷ 0x44 ∷ 0x48 ∷ 0x7F ∷ [])
    ∷ (0x38 ∷ 0x54 ∷ 0x54 ∷ 0x54 ∷ 0x18 ∷ [])
    ∷ (0x08 ∷ 0x7E ∷ 0x09 ∷ 0x01 ∷ 0x02 ∷ [])
    ∷ (0x0C ∷ 0x52 ∷ 0x52 ∷ 0x52 ∷ 0x3E ∷ [])
    ∷ (0x7F ∷ 0x08 ∷ 0x04 ∷ 0x04 ∷ 0x78 ∷ [])
    ∷ (0x00 ∷ 0x44 ∷ 0x7D ∷ 0x40 ∷ 0x00 ∷ [])
    ∷ (0x20 ∷ 0x40 ∷ 0x44 ∷ 0x3D ∷ 0x00 ∷ [])
    ∷ (0x7F ∷ 0x10 ∷ 0x28 ∷ 0x44 ∷ 0x00 ∷ [])
    ∷ (0x00 ∷ 0x41 ∷ 0x7F ∷ 0x40 ∷ 0x00 ∷ [])
    ∷ (0x7C ∷ 0x04 ∷ 0x18 ∷ 0x04 ∷ 0x78 ∷ [])
    ∷ (0x7C ∷ 0x08 ∷ 0x04 ∷ 0x04 ∷ 0x78 ∷ [])
    ∷ (0x38 ∷ 0x44 ∷ 0x44 ∷ 0x44 ∷ 0x38 ∷ [])
    ∷ (0x7C ∷ 0x14 ∷ 0x14 ∷ 0x14 ∷ 0x08 ∷ [])
    ∷ (0x08 ∷ 0x14 ∷ 0x14 ∷ 0x18 ∷ 0x7C ∷ [])
    ∷ (0x7C ∷ 0x08 ∷ 0x04 ∷ 0x04 ∷ 0x08 ∷ [])
    ∷ (0x48 ∷ 0x54 ∷ 0x54 ∷ 0x54 ∷ 0x20 ∷ [])
    ∷ (0x04 ∷ 0x3F ∷ 0x44 ∷ 0x40 ∷ 0x20 ∷ [])
    ∷ (0x3C ∷ 0x40 ∷ 0x40 ∷ 0x20 ∷ 0x7C ∷ [])
    ∷ (0x1C ∷ 0x20 ∷ 0x40 ∷ 0x20 ∷ 0x1C ∷ [])
    ∷ (0x3C ∷ 0x40 ∷ 0x30 ∷ 0x40 ∷ 0x3C ∷ [])
    ∷ (0x44 ∷ 0x28 ∷ 0x10 ∷ 0x28 ∷ 0x44 ∷ [])
    ∷ (0x0C ∷ 0x50 ∷ 0x50 ∷ 0x50 ∷ 0x3C ∷ [])
    ∷ (0x44 ∷ 0x64 ∷ 0x54 ∷ 0x4C ∷ 0x44 ∷ [])
    ∷ (0x00 ∷ 0x08 ∷ 0x36 ∷ 0x41 ∷ 0x00 ∷ [])
    ∷ (0x00 ∷ 0x00 ∷ 0x7F ∷ 0x00 ∷ 0x00 ∷ [])
    ∷ (0x00 ∷ 0x41 ∷ 0x36 ∷ 0x08 ∷ 0x00 ∷ [])
    ∷ (0x10 ∷ 0x08 ∷ 0x08 ∷ 0x10 ∷ 0x08 ∷ [])
    ∷ (0x78 ∷ 0x46 ∷ 0x41 ∷ 0x46 ∷ 0x78 ∷ [])
    ∷ []

-- `int fi = c - 0x20; if (fi < 0 || fi >= FONT_TABLE_SIZE) fi = 0;` at an `unsigned char`.
unfoldable pub font_index : ℕ → ℕ
font_index c = if ltb c 0x20 || leb font_table_size (c - 0x20) then 0 else c - 0x20

-- `font5x8[fi]`, with `none` for an index outside the table.
unfoldable pub font_row : ℕ → Option (List ℕ)
font_row fi = get_elem? font5x8 fi

-- The columns that a byte of text is drawn with.
unfoldable pub glyph : ℕ → List ℕ
glyph c = get_or font5x8 (font_index c) []

-- A text as columns: each byte's glyph and one blank column.
unfoldable pub text_columns : List ℕ → List ℕ
text_columns [] = []
text_columns (c ∷ text) = (glyph c ++ 0 ∷ []) ++ text_columns text
