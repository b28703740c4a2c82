-- ===== src/Tft/Spec.antt =====
-- What a colour panel is to be sent for each effect, in pictures of the text.
use mathlib.Core.List
use textreaderrpi.Common.{ℕ, ◌+◌, ◌*◌, ◌/◌, List, [], ◌∷◌, ◌++◌, if◌then◌else◌, length, take}
use textreaderrpi.Common.Text.{codes, same_text}
use textreaderrpi.Machine.{Trace, delay}
use textreaderrpi.Driver.Loops.{traces_up, traces_down}
use textreaderrpi.Tft.Draw.{Panel}
use textreaderrpi.Tft.Draw.Spec.{picture}

module _ (panel : Panel) (fill_rect : (x y w h color : ℕ) → Trace) where
  -- White on black.
  unfoldable pub still : List ℕ → Trace
  still text = picture panel fill_rect text 0 0xFFFF 0

  -- A picture for each column that the text moves, the last one behind the text.
  unfoldable pub scroll_trace : List ℕ → ℕ → Trace
  scroll_trace text sp =
      traces_up (6 * length text + 1) 0
        λ offset. picture panel fill_rect text offset 0xFFFF 0 ++ delay sp ∷ []

  unfoldable pub blink_trace : (hidden shown : Trace) → List ℕ → ℕ → Trace
  blink_trace hidden shown text sp =
      still text ++ traces_up 6 0 λ i. delay sp ∷ hidden ++ (delay sp ∷ shown)

  -- The text in the gray of brightness `v`, of 31: the same share of red, green and blue.
  unfoldable pub faded : List ℕ → (ms v : ℕ) → Trace
  faded text ms v = picture panel fill_rect text 0 (2048 * v + 32 * (2 * v) + v) 0 ++ delay ms ∷ []

  unfoldable pub fade_trace : List ℕ → ℕ → Trace
  fade_trace text ms =
      still text
      ++ (traces_up 32 0 (faded text ms) ++ (traces_down 32 (faded text ms) ++ still text))

  unfoldable pub effect_trace : (hidden shown : Trace) → List ℕ → List ℕ → ℕ → Trace
  effect_trace hidden shown text effect sp =
      if same_text effect (codes "SCROLL")
      then scroll_trace text sp
      else if same_text effect (codes "BLINK")
      then blink_trace hidden shown text sp
      else if same_text effect (codes "REVERSE")
      then scroll_trace (List.reverse (take 127 text)) sp
      else if same_text effect (codes "FADE")
      then fade_trace text (sp / 32 + 1)
      else []
