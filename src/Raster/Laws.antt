-- ===== src/Raster/Laws.antt =====
-- The drawing loops against the pixels of the text.
use textreaderrpi.Common.{
  ap₂, length-append, ℕ, zero, suc, ◌+◌, ◌-◌, ◌/◌, ◌%◌, ◌^◌, ◌==◌, ◌<◌, ◌≤◌, ◌≡◌, ◌∙◌, refl, sym,
  ap, true, false, Bool, Bool-cases, inl, inr, List, [], ◌∷◌, ◌++◌, Option, some, length, leb, ltb,
  ◌&&◌, if◌then◌else◌, arith, lt→ltb, le→leb, lt→not_leb, le→not_ltb, append-nil, append_assoc,
}
use textreaderrpi.Common.Int.{plus, at_least, minus}
use textreaderrpi.Common.Int.Laws.{plus-minus, at_least-minus, clip-minus}
use textreaderrpi.Font.{glyph, text_columns}
use textreaderrpi.Font.Laws.{font_row-font_index, length-glyph}
use textreaderrpi.Driver.Loops.{traces_up}
use textreaderrpi.Pixels.{Rect}
use textreaderrpi.Raster.{put_rows, put_column, put_columns, put_text}
use textreaderrpi.Raster.Dots.{row_dot, column_dots, dots}
use native.Mathlib.Decide.{dec_lt}
use mathlib.Core.Bool.{false≢true}
use textreaderrpi.Raster.Surface.{Surface, Draws, nothing-Draws, then-Draws}

module _ {width height color : ℕ} {put : (x y : ℕ) → List ℕ → Option (List ℕ)}
    (surface : Surface width height color put) where
  open surface use {IsValid, pixel, put_lem}

  module _ (top : ℕ) (tall : top + 8 ≤ height) where
    row-Draws :
        (row x cb : ℕ)
        → row < 8
        → x < width
        → Draws surface
            (λ fb. if cb / 2 ^ row % 2 == 0 then some fb else put x (row + top) fb)
            (row_dot top color x cb row)
    unfolding row_dot
    row-Draws row x cb lt on fb v = elim (Bool-cases (cb / 2 ^ row % 2 == 0)) [
      | inl blank ↦ rw blank (nothing-Draws surface fb v)
      | inr set ↦ rw set (put_lem x (row + top) fb on (omega arith) v)
    ]

    pub put_rows-Draws :
        (n row x cb : ℕ)
        → row + n ≤ 8
        → x < width
        → Draws surface
            (put_rows width top put n row x cb)
            (traces_up n row (row_dot top color x cb))
    unfolding put_rows traces_up
    put_rows-Draws zero row x cb fit on = nothing-Draws surface
    put_rows-Draws (suc n) row x cb fit on =
        then-Draws surface _ (put_rows width top put n (suc row) x cb) (row_dot top color x cb row)
          (traces_up n (suc row) (row_dot top color x cb)) (row-Draws row x cb (omega arith) on)
          (put_rows-Draws n (suc row) x cb (omega arith) on)

    module _ (offset : ℕ) where
      abbrev shown_dots : (i column : ℕ) → List Rect
      shown_dots i column =
          if leb offset i && ltb i (offset + width)
          then column_dots top color (i - offset) column
          else []

      put_column-Draws :
          (i cb : ℕ)
          → Draws surface (put_column width top put (minus i offset) cb) (shown_dots i cb)
      unfolding put_column column_dots
      put_column-Draws i cb fb v = elim (dec_lt i offset) [
        | yes left ↦
            rw
              (
                at_least-minus i offset 0,
                lt→not_leb (offset + 0) i (omega arith),
                lt→not_leb offset i left,
              )
              (nothing-Draws surface fb v)
        | no h ↦ elim (dec_lt i (offset + width)) [
          | yes inside ↦
              rw
                (
                  at_least-minus i offset 0,
                  le→leb (offset + 0) i (omega arith),
                  at_least-minus i offset width,
                  lt→not_leb (offset + width) i inside,
                  le→leb offset i (omega arith),
                  lt→ltb i (offset + width) inside,
                  clip-minus i offset,
                )
                (put_rows-Draws 8 0 (i - offset) cb (omega arith) (omega arith) fb v)
          | no right ↦
              rw
                (
                  at_least-minus i offset 0,
                  le→leb (offset + 0) i (omega arith),
                  at_least-minus i offset width,
                  le→leb (offset + width) i (omega arith),
                  le→leb offset i (omega arith),
                  le→not_ltb i (offset + width) (omega arith),
                )
                (nothing-Draws surface fb v)
        ]
      ]

      put_columns-Draws :
          (i : ℕ) (columns : List ℕ)
          → Draws surface
              (put_columns width top put (minus i offset) columns)
              (dots width top color offset i columns)
      unfolding put_columns dots
      put_columns-Draws i [] = nothing-Draws surface
      put_columns-Draws i (cb ∷ columns) =
          then-Draws surface (put_column width top put (minus i offset) cb)
            (put_columns width top put (plus (minus i offset) 1) columns) (shown_dots i cb)
            (dots width top color offset (suc i) columns) (put_column-Draws i cb)
            (rw (plus-minus i offset 1, next) (put_columns-Draws (suc i) columns))
        where
          next : i + 1 ≡ suc i
          next = omega arith

      pub past-dots :
          (i : ℕ) (columns : List ℕ)
          → offset + width ≤ i
          → dots width top color offset i columns ≡ []
      unfolding dots
      past-dots i [] h = refl
      past-dots i (column ∷ columns) h =
          rw
            (
              le→leb offset i (omega arith),
              le→not_ltb i (offset + width) h,
              past-dots (suc i) columns (omega arith),
            )
            refl

      dots-append :
          (i : ℕ) (xs ys : List ℕ)
          → dots width top color offset i (xs ++ ys)
            ≡ dots width top color offset i xs ++ dots width top color offset (i + length xs) ys
      unfolding dots
      dots-append i [] ys = ap (λ k. dots width top color offset k ys) (omega arith)
      dots-append i (x ∷ xs) ys =
          ap (λ l. shown_dots i x ++ l) (dots-append (suc i) xs ys)
          ∙ ap
              (λ k.
                shown_dots i x
                ++ (dots width top color offset (suc i) xs ++ dots width top color offset k ys))
              (one_on i (length xs))
          ∙ sym (
              append_assoc (shown_dots i x) (dots width top color offset (suc i) xs)
                (dots width top color offset (i + suc (length xs)) ys))
        where
          one_on : (a b : ℕ) → suc a + b ≡ a + suc b
          one_on a b = omega arith

      blank_dots : (i : ℕ) → dots width top color offset i (0 ∷ []) ≡ []
      unfolding dots column_dots row_dot traces_up
      blank_dots i = elim (Bool-cases (leb offset i && ltb i (offset + width))) [
        | inl shown ↦ rw shown refl
        | inr hidden ↦ rw hidden refl
      ]

      -- The dots of a text from column `i` on.
      abbrev pub text_dots : (i : ℕ) → List ℕ → List Rect
      text_dots i text = dots width top color offset i (text_columns text)

      pub text_dots_nil : (i : ℕ) → text_dots i [] ≡ []
      unfolding text_columns dots
      text_dots_nil i = refl

      pub text_dots-cons :
          (i c : ℕ) (text : List ℕ)
          → text_dots i (c ∷ text)
            ≡ dots width top color offset i (glyph c) ++ text_dots (i + 6) text
      unfolding text_columns
      text_dots-cons i c text =
          dots-append i (glyph c ++ 0 ∷ []) (text_columns text)
          ∙ ap₂ ◌++◌
              (dots-append i (glyph c) (0 ∷ [])
                ∙ ap (λ l. dots width top color offset i (glyph c) ++ l)
                    (blank_dots (i + length (glyph c)))
                ∙ append-nil (dots width top color offset i (glyph c)))
              (ap (λ k. dots width top color offset k (text_columns text))
                (omega (arith, length-append (glyph c) (0 ∷ []), length-glyph c)))

      rest-Draws :
          (stops : Bool) (i : ℕ) (text : List ℕ)
          → Draws surface
              (put_text width top put stops (minus (i + 6) offset) text)
              (text_dots (i + 6) text)
          → Draws surface
              (λ fb.
                if stops && at_least (plus (minus i offset) 6) width
                then some fb
                else put_text width top put stops (plus (minus i offset) 6) text fb)
              (text_dots (i + 6) text)
      rest-Draws stops i text rest fb v =
          elim (Bool-cases (stops && leb (offset + width) (i + 6))) [
            | inl end ↦
                rw
                  (
                    plus-minus i offset 6,
                    at_least-minus (i + 6) offset width,
                    end,
                    past-dots (i + 6) (text_columns text) (ended stops end),
                  )
                  (nothing-Draws surface fb v)
            | inr more ↦
                rw (plus-minus i offset 6, at_least-minus (i + 6) offset width, more) (rest fb v)
          ]
        where
          ended : (b : Bool) → b && leb (offset + width) (i + 6) ≡ true → offset + width ≤ i + 6
          ended true h = ground arith
          ended false h = absurd (false≢true h)

      pub put_text-Draws :
          (stops : Bool) (i : ℕ) (text : List ℕ)
          → Draws surface (put_text width top put stops (minus i offset) text) (text_dots i text)
      unfolding put_text
      put_text-Draws stops i [] fb v = rw (text_dots_nil i) (nothing-Draws surface fb v)
      put_text-Draws stops i (c ∷ text) fb v =
          rw (font_row-font_index c, text_dots-cons i c text)
            (then-Draws surface (put_columns width top put (minus i offset) (glyph c)) _
              (dots width top color offset i (glyph c)) (text_dots (i + 6) text)
              (put_columns-Draws i (glyph c))
              (rest-Draws stops i text (put_text-Draws stops (i + 6) text)) fb v)
