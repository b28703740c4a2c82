-- ===== src/Ht16k33/Char/Laws.antt =====
-- `render_char` of the HT16K33 drivers against the transposition of a glyph.

use native.Mathlib.Nat.{div-eq_of_lt, pow-succ'}
use textreaderrpi.Font.Laws.{font_row-font_index}
use textreaderrpi.Font.{glyph}
use textreaderrpi.Ht16k33.Spec.{row_bits, transposed}
use textreaderrpi.Common.{
  zero, suc, [], ℕ, ◌<◌, List, ◌^◌, ◌≡◌, ◌+◌, some, ◌/◌, ◌*◌, ◌%◌, ap, fun_ext, arith, ◌∷◌, refl,
  if◌then◌else◌, ◌∙◌, ◌==◌,
}
use textreaderrpi.Ht16k33.Char.{set_bit, draw_bit, draw_rows, draw_columns, render_char}
use textreaderrpi.Memory.{◌>>=◌, load, store, window}

set_bit_clear : (col v : ℕ) → v < 2 ^ col → set_bit col v ≡ v + 2 ^ col
unfolding set_bit
set_bit_clear col v h = rw (div-eq_of_lt h) refl

-- One pixel, where `s_rows[row]` is `v` and `put x` is the array with `x` there.
module _ (col row v : ℕ) (put : ℕ → List ℕ) where
  pixel :
      (b : ℕ)
      → b < 2
      → v < 2 ^ col
      → load (put v) row ≡ some v
      → ((x : ℕ) → store (put v) row x ≡ some (put x))
      → (if b == 1
          then load (put v) row >>= (λ x. store (put v) row (set_bit col x))
          else some (put v))
        ≡ some (put (v + b * 2 ^ col))
  pixel zero lt small read write = ap (λ x. some (put x)) (plus_zero (2 ^ col))
    where
      plus_zero : (p : ℕ) → v ≡ v + 0 * p
      plus_zero p = omega arith
  pixel (suc zero) lt small read write =
      rw (read, set_bit_clear col v small, write (v + 2 ^ col))
        (ap (λ x. some (put x)) (plus_one (2 ^ col)))
    where
      plus_one : (p : ℕ) → v + p ≡ v + 1 * p
      plus_one p = omega arith
  pixel (suc (suc b)) lt small read write = absurd (omega arith)

  draw_bit_lem :
      (byte : ℕ)
      → v < 2 ^ col
      → load (put v) row ≡ some v
      → ((x : ℕ) → store (put v) row x ≡ some (put x))
      → draw_bit byte col row (put v) ≡ some (put (v + byte / 2 ^ row % 2 * 2 ^ col))
  unfolding draw_bit
  draw_bit_lem byte = pixel (byte / 2 ^ row % 2) (omega arith)

draw_rows_lem :
    (byte col : ℕ) (f : ℕ → ℕ)
    → ((r : ℕ) → f r < 2 ^ col)
    → draw_rows 8 byte col 0 (window f 0 8)
      ≡ some (window (λ r. f r + byte / 2 ^ r % 2 * 2 ^ col) 0 8)
unfolding draw_rows
draw_rows_lem byte col f small =
    let g : ℕ → ℕ = λ r. f r + byte / 2 ^ r % 2 * 2 ^ col in
    rw
      (
        draw_bit_lem col 0 (f 0) (λ x. x ∷ window f 1 7) byte (small 0) refl (λ x. refl),
        draw_bit_lem col 1 (f 1) (λ x. g 0 ∷ x ∷ window f 2 6) byte (small 1) refl (λ x. refl),
        draw_bit_lem col 2 (f 2) (λ x. g 0 ∷ g 1 ∷ x ∷ window f 3 5) byte (small 2) refl
            (λ x. refl),
        draw_bit_lem col 3 (f 3) (λ x. g 0 ∷ g 1 ∷ g 2 ∷ x ∷ window f 4 4) byte (small 3) refl
            (λ x. refl),
        draw_bit_lem col 4 (f 4) (λ x. g 0 ∷ g 1 ∷ g 2 ∷ g 3 ∷ x ∷ window f 5 3) byte (small 4) refl
            (λ x. refl),
        draw_bit_lem col 5 (f 5) (λ x. g 0 ∷ g 1 ∷ g 2 ∷ g 3 ∷ g 4 ∷ x ∷ window f 6 2) byte
            (small 5) refl (λ x. refl),
        draw_bit_lem col 6 (f 6) (λ x. g 0 ∷ g 1 ∷ g 2 ∷ g 3 ∷ g 4 ∷ g 5 ∷ x ∷ window f 7 1) byte
            (small 6) refl (λ x. refl),
        draw_bit_lem col 7 (f 7) (λ x. g 0 ∷ g 1 ∷ g 2 ∷ g 3 ∷ g 4 ∷ g 5 ∷ g 6 ∷ x ∷ []) byte
            (small 7) refl (λ x. refl),
      )
      refl

-- A further column is the next bit of each row.
next_column : (v b rest p : ℕ) → v + b * p + rest * (2 * p) ≡ v + (b + 2 * rest) * p
next_column v b rest p = grind arith

still_small : (v b p : ℕ) → v < p → b < 2 → v + b * p < 2 * p
still_small v zero p h lt = omega arith
still_small v (suc zero) p h lt = omega arith
still_small v (suc (suc b)) p h lt = absurd (omega arith)

draw_columns_lem :
    (columns : List ℕ) (col : ℕ) (f : ℕ → ℕ)
    → ((r : ℕ) → f r < 2 ^ col)
    → draw_columns columns col (window f 0 8)
      ≡ some (window (λ r. f r + row_bits r columns * 2 ^ col) 0 8)
unfolding draw_columns row_bits
draw_columns_lem [] col f small =
    ap (λ g. some (window g 0 8)) (fun_ext (λ r. nothing (f r) (2 ^ col)))
  where
    nothing : (v p : ℕ) → v ≡ v + 0 * p
    nothing v p = omega arith
draw_columns_lem (byte ∷ columns) col f small = rw (draw_rows_lem byte col f small) (
    draw_columns_lem columns (suc col) (λ r. f r + byte / 2 ^ r % 2 * 2 ^ col)
      (λ r.
        rw (pow-succ' 2 col)
          (still_small (f r) (byte / 2 ^ r % 2) (2 ^ col) (small r) (omega arith)))
    ∙ ap (λ g. some (window g 0 8)) (fun_ext next))
  where
    next :
        (r : ℕ)
        → f r + byte / 2 ^ r % 2 * 2 ^ col + row_bits r columns * 2 ^ suc col
          ≡ f r + (byte / 2 ^ r % 2 + 2 * row_bits r columns) * 2 ^ col
    next r =
        rw (pow-succ' 2 col) (next_column (f r) (byte / 2 ^ r % 2) (row_bits r columns) (2 ^ col))

-- Every byte is drawn as the transposed glyph, with no access outside `s_rows` or the font.
pub render_char-transposed : (c : ℕ) → render_char c ≡ some (transposed (glyph c))
unfolding render_char transposed
render_char-transposed c = rw (font_row-font_index c) (
    draw_columns_lem (glyph c) 0 (λ r. 0) (λ r. omega arith)
    ∙ ap (λ g. some (window g 0 8)) (fun_ext (λ r. only (row_bits r (glyph c)))))
  where
    only : (v : ℕ) → 0 + v * 2 ^ 0 ≡ v
    only v = omega arith
