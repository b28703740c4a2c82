-- ===== src/Raster/Dots/Laws.antt =====
-- The pixels of a text against the bits of its columns.
use textreaderrpi.Common.{
  ℕ, suc, ◌+◌, ◌-◌, ◌/◌, ◌%◌, ◌^◌, ◌==◌, ◌<◌, ◌≤◌, ◌≡◌, ◌⊎◌, inl, inr, ◌∙◌, refl, sym, ap, true,
  false, Bool-cases, List, [], ◌∷◌, get_or, leb, ltb, ◌&&◌, if◌then◌else◌, arith, lt→ltb, le→leb,
  lt→not_leb, le→not_ltb,
}
use textreaderrpi.Pixels.{Rect, color_at}
use textreaderrpi.Pixels.Laws.{
  Outside, Misses, Hits, append-Misses, rect-Hits, rect-Misses, traces_up-Misses, traces_up-Hits,
  color_at-append,
}
use textreaderrpi.Raster.Dots.{row_dot, column_dots, dots, dot_color}
use native.Mathlib.Decide.{dec_lt}
use native.Mathlib.Nat.{zero-div}
use mathlib.Core.Path.{subst}

-- The bit of `column` decides whether a pixel changes.
abbrev pub bit_color : (color old column row : ℕ) → ℕ
bit_color color old column row = if column / 2 ^ row % 2 == 0 then old else color

pub bit_color_blank : (color old row : ℕ) → bit_color color old 0 row ≡ old
bit_color_blank color old row = rw (zero-div (2 ^ row)) refl

module _ (top color px py : ℕ) where
  row_dot-Misses :
      (x column row : ℕ)
      → Outside x (row + top) 1 1 px py
      → Misses px py (row_dot top color x column row)
  unfolding row_dot color_at
  row_dot-Misses x column row out old = elim (Bool-cases (column / 2 ^ row % 2 == 0)) [
    | inl blank ↦ rw blank refl
    | inr set ↦ rw set (rect-Misses px py x (row + top) 1 1 color out old)
  ]

  column_dots-Misses :
      (x column : ℕ) → Outside x top 1 8 px py → Misses px py (column_dots top color x column)
  unfolding column_dots
  column_dots-Misses x column out =
      traces_up-Misses px py 8 0 (row_dot top color x column)
        λ row low high. row_dot-Misses x column row (ground arith)

  row_dot-Hits :
      (column : ℕ)
      → top ≤ py
      → (column / 2 ^ (py - top) % 2 == 0) ≡ false
      → Hits px py (row_dot top color px column (py - top)) color
  unfolding row_dot
  row_dot-Hits column up set old = rw set (
      rect-Hits px py px (py - top + top) 1 1 color (omega arith) (omega arith) (omega arith)
        (omega arith) old)

  row_dot_blank :
      (x column row : ℕ)
      → (column / 2 ^ row % 2 == 0) ≡ true
      → Misses px py (row_dot top color x column row)
  unfolding row_dot color_at
  row_dot_blank x column row blank old = rw blank refl

  row_dot_kept :
      (column row : ℕ)
      → (column / 2 ^ (py - top) % 2 == 0) ≡ true
      → Misses px py (row_dot top color px column row)
  row_dot_kept column row blank = elim (dec_lt row (py - top)) [
    | yes above ↦ row_dot-Misses px column row (ground arith)
    | no h ↦ elim (dec_lt (py - top) row) [
      | yes below ↦ row_dot-Misses px column row (ground arith)
      | no here ↦
          subst (λ r. Misses px py (row_dot top color px column r)) (omega arith)
            (row_dot_blank px column (py - top) blank)
    ]
  ]

  column_dots-bit :
      (column old : ℕ)
      → top ≤ py
      → py < top + 8
      → color_at (column_dots top color px column) px py old ≡ bit_color color old column (py - top)
  unfolding column_dots
  column_dots-bit column old up down = elim (Bool-cases (column / 2 ^ (py - top) % 2 == 0)) [
    | inl blank ↦ rw blank (
        traces_up-Misses px py 8 0 (row_dot top color px column)
          (λ row low high. row_dot_kept column row blank) old)
    | inr set ↦ rw set (
        traces_up-Hits px py 8 0 (py - top) color (row_dot top color px column) (omega arith)
          (omega arith) (row_dot-Hits column up set)
          (λ row above below. row_dot-Misses px column row (ground arith)) old)
  ]

  module _ (width offset : ℕ) where
    abbrev window_dots : (i column : ℕ) → List Rect
    window_dots i column =
        if leb offset i && ltb i (offset + width)
        then column_dots top color (i - offset) column
        else []

    window_dots-Misses :
        (i column : ℕ)
        → (offset ≤ i → Outside (i - offset) top 1 8 px py)
        → Misses px py (window_dots i column)
    unfolding color_at
    window_dots-Misses i column out old = elim (dec_lt i offset) [
      | yes before ↦ rw (lt→not_leb offset i before) refl
      | no h ↦ elim (dec_lt i (offset + width)) [
        | yes inside ↦
            rw (le→leb offset i (omega arith), lt→ltb i (offset + width) inside)
              (column_dots-Misses (i - offset) column (out (omega arith)) old)
        | no behind ↦
            rw (le→leb offset i (omega arith), le→not_ltb i (offset + width) (omega arith)) refl
      ]
    ]

    dots-Misses :
        (i : ℕ) (columns : List ℕ)
        → (px + offset < i) ⊎ (py < top) ⊎ (top + 8 ≤ py)
        → Misses px py (dots width top color offset i columns)
    unfolding dots color_at
    dots-Misses i [] out old = refl
    dots-Misses i (column ∷ columns) out old =
        append-Misses px py (window_dots i column) (dots width top color offset (suc i) columns)
          (window_dots-Misses i column (λ shown. ground arith))
          (dots-Misses (suc i) columns (ground arith)) old

    this_column :
        (i column : ℕ) (columns : List ℕ) (old : ℕ)
        → px < width
        → top ≤ py
        → py < top + 8
        → i ≡ px + offset
        → color_at (window_dots i column) px py old
          ≡ bit_color color old (get_or (column ∷ columns) (px + offset - i) 0) (py - top)
    this_column i column columns old on up down here =
        rw (le→leb offset i (omega arith), lt→ltb i (offset + width) (omega arith), place, first)
          (column_dots-bit column old up down)
      where
        place : i - offset ≡ px
        place = omega (arith, here)

        first : px + offset - i ≡ 0
        first = omega (arith, here)

    dots-bit :
        (i : ℕ) (columns : List ℕ) (old : ℕ)
        → px < width
        → top ≤ py
        → py < top + 8
        → i ≤ px + offset
        → color_at (dots width top color offset i columns) px py old
          ≡ bit_color color old (get_or columns (px + offset - i) 0) (py - top)
    unfolding dots color_at
    dots-bit i [] old on up down reached = sym (bit_color_blank color old (py - top))
    dots-bit i (column ∷ columns) old on up down reached = elim (dec_lt i (px + offset)) [
      | yes later ↦
          color_at-append (window_dots i column) (dots width top color offset (suc i) columns) px py
            old
          ∙ ap (color_at (dots width top color offset (suc i) columns) px py)
              (window_dots-Misses i column (λ shown. inr (inl (omega arith))) old)
          ∙ dots-bit (suc i) columns old on up down (omega arith)
          ∙ ap (λ c. bit_color color old c (py - top)) (next_column i (px + offset) later)
      | no now ↦
          color_at-append (window_dots i column) (dots width top color offset (suc i) columns) px py
            old
          ∙ dots-Misses (suc i) columns (inl (omega arith)) _
          ∙ this_column i column columns old on up down (omega arith)
    ]
      where
        before_last : (i k : ℕ) → i < k → suc (k - suc i) ≡ k - i
        before_last i k h = omega arith

        next_column :
            (i k : ℕ) → i < k → get_or columns (k - suc i) 0 ≡ get_or (column ∷ columns) (k - i) 0
        next_column i k h = ap (λ n. get_or (column ∷ columns) n 0) (before_last i k h)

  pub dots-dot_color :
      (width offset : ℕ) (columns : List ℕ) (old : ℕ)
      → px < width
      → color_at (dots width top color offset 0 columns) px py old
        ≡ dot_color top color old columns offset px py
  unfolding dot_color
  dots-dot_color width offset columns old on = in_rows (dec_lt py top) (dec_lt py (top + 8))
    where
      in_rows :
          Dec (py < top)
          → Dec (py < top + 8)
          → color_at (dots width top color offset 0 columns) px py old ≡ (
              if leb top py && ltb py (top + 8)
              then bit_color color old (get_or columns (px + offset) 0) (py - top)
              else old)
      in_rows (yes above) d =
          rw (lt→not_leb top py above) (dots-Misses width offset 0 columns (inr (inl above)) old)
      in_rows (no low) (no under) =
          rw (le→leb top py (omega arith), le→not_ltb py (top + 8) (omega arith))
            (dots-Misses width offset 0 columns (inr (inr (omega arith))) old)
      in_rows (no low) (yes high) =
          rw (le→leb top py (omega arith), lt→ltb py (top + 8) high)
            (dots-bit width offset 0 columns old on (omega arith) high (omega arith)
              ∙ ap (λ k. bit_color color old (get_or columns k 0) (py - top)) (omega arith))
