-- ===== src/Ssd1327/Frame/Run.antt =====
-- The columns that the text loop draws into the frame buffer of the SSD1327.
use textreaderrpi.Common.{
  ℕ, suc, ◌+◌, ◌%◌, ◌<◌, ◌≤◌, ◌≡◌, ◌⊎◌, inl, inr, ◌∙◌, refl, sym, ap, true, false, Bool-cases, List,
  [], ◌∷◌, ◌++◌, some, length, leb, arith, lt→ltb, le→leb, le→not_ltb,
}
use textreaderrpi.Font.{glyph, text_columns}
use textreaderrpi.Font.Laws.{font_row-font_index, length-glyph}
use textreaderrpi.Pixels.{Rect, color_at}
use textreaderrpi.Pixels.Laws.{color_at-append}
use textreaderrpi.Driver.Loops.{traces_up}
use textreaderrpi.Raster.Dots.{column_dots, dots}
use textreaderrpi.Raster.Surface.{Draws, nothing-Draws}
use textreaderrpi.Raster.Laws.{put_rows-Draws, past-dots, text_dots-cons, text_dots_nil}
use textreaderrpi.Ssd1327.Frame.{put_run, put_runs}
use textreaderrpi.Ssd1327.Frame.Pixel.{pixel, IsFrame, surface}
use native.Mathlib.Decide.{dec_lt}
use mathlib.Core.Path.{subst}

module _ (brightness : ℕ) (is_byte : brightness < 256) where
  -- Where a run of columns ends: behind the last column, or at the panel's edge.
  abbrev Reaches : (x n x' : ℕ) → Type 0
  Reaches x n x' = (x' ≡ x + n) ⊎ ((128 ≤ x') × (128 ≤ x + n))

  abbrev pub Pixels : (fb fb' : List ℕ) → List Rect → Type 0
  Pixels fb fb' rs =
      (px py : ℕ) → px < 128 → py < 128 → pixel fb' px py ≡ color_at rs px py (pixel fb px py)

  abbrev RunDraws : (x : ℕ) (columns fb : List ℕ) → Type 0
  RunDraws x columns fb =
      (fb' : List ℕ) × (x' : ℕ) × (put_run brightness x columns fb ≡ some (fb', x'))
      × IsFrame fb'
      × Pixels fb fb' (dots 128 0 (brightness % 16) 0 x columns)
      × Reaches x (length columns) x'

  dots_inside :
      (x cb : ℕ) (columns : List ℕ)
      → x < 128
      → dots 128 0 (brightness % 16) 0 x (cb ∷ columns)
        ≡ column_dots 0 (brightness % 16) x cb ++ dots 128 0 (brightness % 16) 0 (suc x) columns
  unfolding dots
  dots_inside x cb columns h =
      rw (le→leb 0 x (omega arith), lt→ltb x 128 h)
        (ap
          (λ k.
            column_dots 0 (brightness % 16) k cb ++ dots 128 0 (brightness % 16) 0 (suc x) columns)
          (omega arith))

  dots_nil : (x : ℕ) → dots 128 0 (brightness % 16) 0 x [] ≡ []
  unfolding dots
  dots_nil x = refl

  dots_past : (x : ℕ) (columns : List ℕ) → 128 ≤ x → dots 128 0 (brightness % 16) 0 x columns ≡ []
  dots_past x columns h = past-dots (surface brightness is_byte) 0 (omega arith) 0 x columns h

  put_run-RunDraws : (x : ℕ) (columns fb : List ℕ) → IsFrame fb → RunDraws x columns fb
  unfolding put_run color_at surface column_dots traces_up pixel
  put_run-RunDraws x [] fb v = (
    fb,
    x,
    refl,
    v,
    λ px py on below. ap (λ rs. color_at rs px py (pixel fb px py)) (sym (dots_nil x)),
    inl (omega arith),
  )
  put_run-RunDraws x (cb ∷ columns) fb v = elim (dec_lt x 128) [
    | yes inside ↦
        (let first =
            put_rows-Draws (surface brightness is_byte) 0 (omega arith) 8 0 x cb (omega arith)
              inside fb v in
          let rest = put_run-RunDraws (suc x) columns first.0 first.2 in
          (
            rest.0,
            rest.1,
            rw (lt→ltb x 128 inside, first.1) rest.2,
            rest.3,
            λ px py on below.
                rest.4 px py on below
                ∙ ap (color_at (dots 128 0 (brightness % 16) 0 (suc x) columns) px py)
                    (first.3 px py on below)
                ∙ sym (
                    color_at-append (column_dots 0 (brightness % 16) x cb)
                      (dots 128 0 (brightness % 16) 0 (suc x) columns) px py (pixel fb px py))
                ∙ ap (λ rs. color_at rs px py (pixel fb px py))
                    (sym (dots_inside x cb columns inside)),
            one_on x (length columns) rest.1 rest.5,
          ))
    | no outside ↦ (
      fb,
      x,
      rw (le→not_ltb x 128 (omega arith)) refl,
      v,
      λ px py on below.
          ap (λ rs. color_at rs px py (pixel fb px py))
            (sym (dots_past x (cb ∷ columns) (omega arith))),
      inr (omega arith, omega arith),
    )
  ]
    where
      one_on : (x n x' : ℕ) → Reaches (suc x) n x' → Reaches x (suc n) x'
      one_on x n x' (inl e) = inl (omega arith)
      one_on x n x' (inr e) = inr (e.0, omega arith)

  abbrev text_dots : (x : ℕ) → List ℕ → List Rect
  text_dots x text = dots 128 0 (brightness % 16) 0 x (text_columns text)

  text_dots-glyph :
      (x c : ℕ) (text : List ℕ)
      → text_dots x (c ∷ text)
        ≡ dots 128 0 (brightness % 16) 0 x (glyph c) ++ text_dots (x + 6) text
  text_dots-glyph x c text = text_dots-cons (surface brightness is_byte) 0 (omega arith) 0 x c text

  five_on : (x x' c : ℕ) → Reaches x (length (glyph c)) x' → Reaches x 5 x'
  five_on x x' c reached = subst (λ n. Reaches x n x') (length-glyph c) reached

  ended : (x x' c : ℕ) → Reaches x (length (glyph c)) x' → leb 128 (suc x') ≡ true → 128 ≤ x + 6
  ended x x' c reached end = elim (five_on x x' c reached) [
    | inl e ↦ ground arith
    | inr e ↦ omega (arith, e.1)
  ]

  went_on :
      (x x' c : ℕ) → Reaches x (length (glyph c)) x' → leb 128 (suc x') ≡ false → suc x' ≡ x + 6
  went_on x x' c reached more = elim (five_on x x' c reached) [
    | inl e ↦ omega arith
    | inr e ↦ (let past = e.0 in absurd (ground arith))
  ]

  pub put_runs-Draws :
      (x : ℕ) (text : List ℕ)
      → Draws (surface brightness is_byte) (put_runs brightness x text) (text_dots x text)
  unfolding put_runs surface color_at pixel
  put_runs-Draws x [] fb v =
      rw (text_dots_nil (surface brightness is_byte) 0 (omega arith) 0 x)
        (nothing-Draws (surface brightness is_byte) fb v)
  put_runs-Draws x (c ∷ text) fb v =
      let run = put_run-RunDraws x (glyph c) fb v in
      let split : (px py : ℕ)
          → color_at (text_dots x (c ∷ text)) px py (pixel fb px py)
            ≡ color_at (text_dots (x + 6) text) px py
                (color_at (dots 128 0 (brightness % 16) 0 x (glyph c)) px py (pixel fb px py)) =
        λ px py.
          ap (λ rs. color_at rs px py (pixel fb px py)) (text_dots-glyph x c text)
          ∙ color_at-append (dots 128 0 (brightness % 16) 0 x (glyph c)) (text_dots (x + 6) text) px
              py (pixel fb px py) in
      elim (Bool-cases (leb 128 (suc run.1))) [
        | inl end ↦ (
          run.0,
          rw (font_row-font_index c, run.2, end) refl,
          run.3,
          λ px py on below.
              run.4 px py on below
              ∙ sym (
                  split px py
                  ∙ ap
                      (λ rs. color_at rs px py (
                        color_at (dots 128 0 (brightness % 16) 0 x (glyph c)) px py
                          (pixel fb px py)))
                      (dots_past (x + 6) (text_columns text) (ended x run.1 c run.5 end))),
        )
        | inr more ↦
            (let rest = put_runs-Draws (x + 6) text run.0 run.3 in
              (
                rest.0,
                rw (font_row-font_index c, run.2, more, went_on x run.1 c run.5 more) rest.1,
                rest.2,
                λ px py on below.
                    rest.3 px py on below
                    ∙ ap (color_at (text_dots (x + 6) text) px py) (run.4 px py on below)
                    ∙ sym (split px py),
              ))
      ]
