-- ===== src/Bitmap.antt =====
-- `build_text_bitmap` of the page and matrix drivers: it draws a text into a byte array, one byte to
-- a column, and pads it. The drivers differ in the array's size, in the index from which no
-- further character is begun, and in the padding.
pub mod Spec
pub mod Laws
use textreaderrpi.Common.{
  ℕ, zero, suc, ◌+◌, Option, none, some, List, [], ◌∷◌, ◌++◌, ltb, if◌then◌else◌,
}
use textreaderrpi.Memory.{◌>>=◌, load, store, write_all}
use textreaderrpi.Font.{font_index, font_row}

-- The first loop: while text is left and `idx < limit`, five columns and a blank one.
unfoldable pub put_text : ℕ → List ℕ → List ℕ → ℕ → Option (List ℕ × ℕ)
put_text limit [] out idx = some (out, idx)
put_text limit (c ∷ text) out idx =
    if ltb idx limit
    then (do
      row ← font_row (font_index c)
      (out', idx') ← write_all (row ++ 0 ∷ []) out idx
      put_text limit text out' idx')
    else some (out, idx)

-- The second loop: at most `n` zero bytes, while `idx < max_bytes`.
unfoldable pub put_blank : ℕ → ℕ → List ℕ → ℕ → Option (List ℕ × ℕ)
put_blank zero max_bytes out idx = some (out, idx)
put_blank (suc n) max_bytes out idx =
    if ltb idx max_bytes
    then (do out' ← store out idx 0; put_blank n max_bytes out' (suc idx))
    else some (out, idx)

-- The result has the array and the `idx` that the function returns.
unfoldable pub build : ℕ → ℕ → ℕ → List ℕ → List ℕ → Option (List ℕ × ℕ)
build limit trailing max_bytes text out = do
  (out', idx) ← put_text limit text out 0
  put_blank trailing max_bytes out' idx

-- `(bi < bmp_len) ? bmp[bi] : 0x00`
unfoldable pub column : List ℕ → ℕ → ℕ → Option ℕ
column bmp bmp_len bi = if ltb bi bmp_len then load bmp bi else some 0
