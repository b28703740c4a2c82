-- ===== src/Ht16k33/Spec.antt =====
-- What the HT16K33 is to be sent, from the glyphs of the text alone.
use mathlib.Core.List
use textreaderrpi.Common.Text.{codes, same_text}
use textreaderrpi.Machine.{Trace, delay, i2c_write}
use textreaderrpi.Driver.Loops.{traces_up, traces_down}
use textreaderrpi.Font.{glyph}
use textreaderrpi.Driver.Loops.{traces_up, traces_down}
use textreaderrpi.Memory.{window}
use textreaderrpi.Machine.{Trace, i2c_write, delay}
use textreaderrpi.Common.{
  get_or, ltb, ℕ, List, ◌∷◌, if◌then◌else◌, ◌/◌, ◌++◌, ◌^◌, [], ◌+◌, ◌%◌, ◌*◌,
}

-- Row `row` of columns of pixels: bit `k` is the pixel of column `k`.
unfoldable pub row_bits : ℕ → List ℕ → ℕ
row_bits row [] = 0
row_bits row (column ∷ columns) = column / 2 ^ row % 2 + 2 * row_bits row columns

unfoldable pub transposed : List ℕ → List ℕ
transposed columns = window (λ row. row_bits row columns) 0 8

-- The controller's memory has two bytes to a row, of which the matrix shows the first.
abbrev pub row_words : List ℕ → List ℕ
row_words [] = []
row_words (b ∷ rows) = b ∷ 0 ∷ row_words rows

unfoldable pub frame : ℕ → Trace
frame c = i2c_write 0x70 (0 ∷ row_words (transposed (glyph c))) ∷ []

-- The characters one after the other.
unfoldable pub slides : ℕ → List ℕ → Trace
slides sp [] = []
slides sp (c ∷ text) = frame c ++ (delay sp ∷ slides sp text)

-- The first character, the NUL for an empty text.
unfoldable pub start_of : List ℕ → Trace
start_of text = frame (get_or text 0 0)

unfoldable pub command : ℕ → Trace
command c = i2c_write 0x70 (c ∷ []) ∷ []

-- The command for the rate: bits 1 and 2 are 3 for half a hertz, 2 for one and 1 for two, and 0 for no
-- blinking; bit 0 keeps the display on.
unfoldable pub rate : ℕ → ℕ
rate sp =
    128 + 1 + 2 * (if ltb sp 250 then 0 else if ltb sp 500 then 1 else if ltb sp 1000 then 2 else 3)

unfoldable pub blink_trace : List ℕ → ℕ → Trace
blink_trace text sp = start_of text ++ (command (rate sp) ++ (delay (sp * 6) ∷ command 0x81))

-- The brightness `v`, of 15, for `ms`.
unfoldable pub level : (ms v : ℕ) → Trace
level ms v = command (0xE0 + v) ++ delay ms ∷ []

unfoldable pub fade_trace : ℕ → Trace
fade_trace ms = traces_up 16 0 (level ms) ++ (traces_down 16 (level ms) ++ command (0xE0 + 15))

unfoldable pub effect_trace : List ℕ → List ℕ → ℕ → Trace
effect_trace text effect sp =
    if same_text effect (codes "SCROLL")
    then slides sp text
    else if same_text effect (codes "BLINK")
    then blink_trace text sp
    else if same_text effect (codes "REVERSE")
    then slides sp (List.reverse text)
    else if same_text effect (codes "FADE")
    then start_of text ++ fade_trace (sp / 16 + 1)
    else []
