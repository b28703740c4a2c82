-- ===== src/Raster/Surface.antt =====
-- Frame buffers as surfaces of pixels, and loops that draw on them.
use textreaderrpi.Common.{ℕ, ◌<◌, ◌≡◌, ◌∙◌, refl, sym, ap, List, [], ◌++◌, Option, some}
use textreaderrpi.Memory.{◌>>=◌}
use textreaderrpi.Pixels.{Rect, rect, color_at}
use textreaderrpi.Pixels.Laws.{color_at-append}

-- A frame buffer whose pixels can be read, and written one at a time.
pub record Surface (width height color : ℕ) (put : (x y : ℕ) → List ℕ → Option (List ℕ))
    : Type 1 where
  pub IsValid : List ℕ → Type 0
  pub pixel : List ℕ → (px py : ℕ) → ℕ
  pub put_lem :
      (x y : ℕ) (fb : List ℕ)
      → x < width
      → y < height
      → IsValid fb
      → (fb' : List ℕ) × (put x y fb ≡ some fb')
        × IsValid fb'
        × ((px py : ℕ)
            → px < width
            → py < height
            → pixel fb' px py ≡ color_at (rect x y 1 1 color) px py (pixel fb px py))

module _ {width height color : ℕ} {put : (x y : ℕ) → List ℕ → Option (List ℕ)}
    (surface : Surface width height color put) where
  open surface use {IsValid, pixel, put_lem}

  -- What a loop does: on valid buffers it succeeds, and its pixels are those of the rectangles.
  abbrev pub Draws : (List ℕ → Option (List ℕ)) → List Rect → Type 0
  Draws f rs =
      (fb : List ℕ)
      → IsValid fb
      → (fb' : List ℕ) × (f fb ≡ some fb')
        × IsValid fb'
        × ((px py : ℕ)
            → px < width
            → py < height
            → pixel fb' px py ≡ color_at rs px py (pixel fb px py))

  pub nothing-Draws : Draws some []
  unfolding color_at
  nothing-Draws fb v = (fb, refl, v, λ px py on below. refl)

  pub then-Draws :
      (f g : List ℕ → Option (List ℕ)) (rs ss : List Rect)
      → Draws f rs
      → Draws g ss
      → Draws (λ fb. f fb >>= g) (rs ++ ss)
  then-Draws f g rs ss d e fb v =
      let first = d fb v in
      let second = e first.0 first.2 in
      (
        second.0,
        rw first.1 second.1,
        second.2,
        λ px py on below.
            second.3 px py on below
            ∙ ap (color_at ss px py) (first.3 px py on below)
            ∙ sym (color_at-append rs ss px py (pixel fb px py)),
      )
