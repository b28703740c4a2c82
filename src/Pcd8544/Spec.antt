-- ===== src/Pcd8544/Spec.antt =====
-- What the PCD8544 is to be sent, from the columns of the text alone.
use mathlib.Core.List
use textreaderrpi.Common.{
  zero, suc, ℕ, ◌+◌, ◌-◌, ◌/◌, List, [], ◌∷◌, ◌++◌, if◌then◌else◌, length, take, ltb, get_or,
}
use textreaderrpi.Common.Text.{codes, same_text}
use textreaderrpi.Machine.{Trace, delay}
use textreaderrpi.Driver.Loops.{traces_up}
use textreaderrpi.Bitmap.Spec.{bitmap}

-- The drawn columns of a text.
unfoldable pub columns : List ℕ → List ℕ
columns text = bitmap 506 84 512 text

-- Byte `i` of a frame: the text fills the first row, and the other five are blank.
unfoldable pub cell : List ℕ → ℕ → ℕ → ℕ
cell b offset i = if ltb i 84 then get_or b (offset + i) 0 else 0

module _ (write : ℕ → ℕ → Trace) where
  unfoldable pub frame : List ℕ → ℕ → Trace
  frame b offset =
      (write 0x40 0 ++ write 0x80 0) ++ traces_up 504 0 (λ i. write (cell b offset i) 1)

  unfoldable pub shown : List ℕ → ℕ → ℕ → Trace
  shown b sp offset = frame b offset ++ delay sp ∷ []

  unfoldable pub scroll_trace : List ℕ → ℕ → Trace
  scroll_trace b sp = traces_up (length b + 1 - 84) 0 (shown b sp)

  -- The panel is blank for `sp` and normal for `sp`, six times.
  unfoldable pub blinking : ℕ → Trace
  blinking sp = traces_up 6 0 (λ i. delay sp ∷ write 0x09 0 ++ (delay sp ∷ write 0x0C 0))

  -- The operating voltage `v`, an instruction of the extended set, for `ms`.
  unfoldable pub level : (v ms : ℕ) → Trace
  level v ms = (write 0x21 0 ++ (write (128 + v) 0 ++ write 0x20 0)) ++ delay ms ∷ []

  unfoldable pub rising : (n v : ℕ) → ℕ → Trace
  rising zero v ms = []
  rising (suc n) v ms = level v ms ++ rising n (v + 2) ms

  unfoldable pub falling : (n v : ℕ) → ℕ → Trace
  falling zero v ms = []
  falling (suc n) v ms = level v ms ++ falling n (v - 2) ms

  -- Up from 0 to 62, down from 63 to 1, and back to 63.
  unfoldable pub fading : ℕ → Trace
  fading ms =
      rising 32 0 ms ++ (falling 32 63 ms ++ (write 0x21 0 ++ (write (128 + 63) 0 ++ write 0x20 0)))

  unfoldable pub effect_trace : List ℕ → List ℕ → ℕ → Trace
  effect_trace text effect sp =
      if same_text effect (codes "SCROLL")
      then scroll_trace (columns text) sp
      else if same_text effect (codes "BLINK")
      then frame (columns text) 0 ++ blinking sp
      else if same_text effect (codes "REVERSE")
      then scroll_trace (columns (List.reverse (take 127 text))) sp
      else if same_text effect (codes "FADE")
      then frame (columns text) 0 ++ fading (sp / 64 + 1)
      else []
