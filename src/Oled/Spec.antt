-- ===== src/Oled/Spec.antt =====
-- What a paged panel is to be sent, from the columns of the text alone.
use mathlib.Core.List
use textreaderrpi.Common.{
  zero, suc, ℕ, ◌+◌, ◌-◌, ◌/◌, List, [], ◌∷◌, ◌++◌, if◌then◌else◌, length, take,
}
use textreaderrpi.Common.Text.{codes, same_text}
use textreaderrpi.Machine.{Trace, delay}
use textreaderrpi.Oled.Visible.{visible}
use textreaderrpi.Driver.Loops.{traces_up}
use textreaderrpi.Bitmap.Spec.{bitmap}
use textreaderrpi.Oled.{Panel}

-- The drawn columns of a text.
unfoldable pub columns : List ℕ → List ℕ
columns text = bitmap 1018 128 1024 text

module _ (panel : Panel) where
  open panel use {cmd, send_page}

  -- Every page shows the same columns.
  unfoldable pub frame : List ℕ → ℕ → Trace
  frame b offset = traces_up 8 0 (λ page. send_page page (visible b offset))

  unfoldable pub shown : List ℕ → ℕ → ℕ → Trace
  shown b sp offset = frame b offset ++ delay sp ∷ []

  unfoldable pub scroll_trace : List ℕ → ℕ → Trace
  scroll_trace b sp = traces_up (length b + 1 - 128) 0 (shown b sp)

  -- The panel is off for `sp` and on for `sp`, six times.
  unfoldable pub blinking : ℕ → Trace
  blinking sp = traces_up 6 0 (λ i. delay sp ∷ cmd 0xAE ++ (delay sp ∷ cmd 0xAF))

  -- The contrasts `v`, `v + 8`, ... and `v`, `v - 8`, ..., each for `ms`.
  unfoldable pub rising : (n v : ℕ) → ℕ → Trace
  rising zero v ms = []
  rising (suc n) v ms = ((cmd 0x81 ++ cmd v) ++ delay ms ∷ []) ++ rising n (v + 8) ms

  unfoldable pub falling : (n v : ℕ) → ℕ → Trace
  falling zero v ms = []
  falling (suc n) v ms = ((cmd 0x81 ++ cmd v) ++ delay ms ∷ []) ++ falling n (v - 8) ms

  -- Up from 0 to 248, down from 255 to 7, and back to the contrast of `display_init`.
  unfoldable pub fading : ℕ → Trace
  fading ms = rising 32 0 ms ++ (falling 32 255 ms ++ (cmd 0x81 ++ cmd 0xCF))

  unfoldable pub effect_trace : List ℕ → List ℕ → ℕ → Trace
  effect_trace text effect sp =
      if same_text effect (codes "SCROLL")
      then scroll_trace (columns text) sp
      else if same_text effect (codes "BLINK")
      then frame (columns text) 0 ++ blinking sp
      else if same_text effect (codes "REVERSE")
      then scroll_trace (columns (List.reverse (take 127 text))) sp
      else if same_text effect (codes "FADE")
      then frame (columns text) 0 ++ fading (sp / 32 + 1)
      else []
