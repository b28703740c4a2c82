-- ===== src/Pixels/Laws.antt =====
-- Rectangles that reach a pixel, and those that leave it as it is.
use textreaderrpi.Common.{
  inl, inr, ◌≢◌, ℕ, zero, suc, ◌+◌, ◌<◌, ◌≤◌, ◌≡◌, ◌∙◌, refl, List, [], ◌∷◌, ◌++◌, if◌then◌else◌,
  arith, le→leb, lt→ltb, ◌⊎◌,
}
use textreaderrpi.Driver.Loops.{traces_up}
use textreaderrpi.Pixels.{Rect, rect, covers, color_at}
use native.Mathlib.Decide.{dec_lt}
use mathlib.Core.Path.{subst}

pub color_at-append :
    (rs ss : List Rect) (px py old : ℕ)
    → color_at (rs ++ ss) px py old ≡ color_at ss px py (color_at rs px py old)
unfolding color_at
color_at-append [] ss px py old = refl
color_at-append (r ∷ rs) ss px py old =
    color_at-append rs ss px py (if covers r px py then r.color else old)

-- A pixel is left of, right of, above or below a rectangle.
abbrev pub Outside : (x y w h px py : ℕ) → Type 0
Outside x y w h px py = (px < x) ⊎ (x + w ≤ px) ⊎ (py < y) ⊎ (y + h ≤ py)

-- Another pixel than the only one of a rectangle.
pub apart-Outside : (x y px py : ℕ) → (x ≡ px → y ≢ py) → Outside x y 1 1 px py
apart-Outside x y px py apart = elim (dec_lt px x) [
  | yes left ↦ inl left
  | no a ↦ elim (dec_lt x px) [
    | yes right ↦ inr (inl (omega arith))
    | no b ↦ elim (dec_lt py y) [
      | yes above ↦ inr (inr (inl above))
      | no c ↦ elim (dec_lt y py) [
        | yes below ↦ inr (inr (inr (omega arith)))
        | no d ↦ absurd (apart (omega arith) (omega arith))
      ]
    ]
  ]
]

module _ (px py : ℕ) where
  abbrev pub Misses : List Rect → Type 0
  Misses rs = (old : ℕ) → color_at rs px py old ≡ old

  abbrev pub Hits : List Rect → ℕ → Type 0
  Hits rs c = (old : ℕ) → color_at rs px py old ≡ c

  pub append-Misses : (rs ss : List Rect) → Misses rs → Misses ss → Misses (rs ++ ss)
  append-Misses rs ss m n old = color_at-append rs ss px py old ∙ n (color_at rs px py old) ∙ m old

  pub append-Hits_left : (rs ss : List Rect) (c : ℕ) → Hits rs c → Misses ss → Hits (rs ++ ss) c
  append-Hits_left rs ss c m n old =
      color_at-append rs ss px py old ∙ n (color_at rs px py old) ∙ m old

  pub append-Hits_right : (rs ss : List Rect) (c : ℕ) → Hits ss c → Hits (rs ++ ss) c
  append-Hits_right rs ss c m old = color_at-append rs ss px py old ∙ m (color_at rs px py old)

  pub rect-Hits :
      (x y w h c : ℕ) → x ≤ px → px < x + w → y ≤ py → py < y + h → Hits (rect x y w h c) c
  unfolding color_at covers
  rect-Hits x y w h c left right up down old =
      rw (le→leb x px left, lt→ltb px (x + w) right, le→leb y py up, lt→ltb py (y + h) down) refl

  pub rect-Misses : (x y w h c : ℕ) → Outside x y w h px py → Misses (rect x y w h c)
  unfolding color_at covers
  rect-Misses x y w h c out old = ground arith

  pub traces_up-Misses :
      (n k : ℕ) (f : ℕ → List Rect)
      → ((i : ℕ) → k ≤ i → i < k + n → Misses (f i))
      → Misses (traces_up n k f)
  unfolding traces_up color_at
  traces_up-Misses zero k f m old = refl
  traces_up-Misses (suc n) k f m old =
      append-Misses (f k) (traces_up n (suc k) f) (m k (omega arith) (omega arith))
        (traces_up-Misses n (suc k) f (λ i low high. m i (omega arith) (omega arith))) old

  pub traces_up-Hits :
      (n k j c : ℕ) (f : ℕ → List Rect)
      → k ≤ j
      → j < k + n
      → Hits (f j) c
      → ((i : ℕ) → j < i → i < k + n → Misses (f i))
      → Hits (traces_up n k f) c
  unfolding traces_up
  traces_up-Hits zero k j c f low high hit m = absurd (omega arith)
  traces_up-Hits (suc n) k j c f low high hit m = elim (dec_lt k j) [
    | yes later ↦ append-Hits_right (f k) (traces_up n (suc k) f) c (
        traces_up-Hits n (suc k) j c f (omega arith) (omega arith) hit
          (λ i above below. m i above (omega arith)))
    | no now ↦
        append-Hits_left (f k) (traces_up n (suc k) f) c
          (subst (λ i. Hits (f i) c) (omega arith) hit)
          (traces_up-Misses n (suc k) f (λ i above below. m i (omega arith) (omega arith)))
  ]
