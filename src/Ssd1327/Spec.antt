-- ===== src/Ssd1327/Spec.antt =====
-- What the SSD1327 is to be sent for each effect, as a script of frames, commands and waits.
use mathlib.Core.List
use textreaderrpi.Common.{
  ℕ, zero, suc, ◌+◌, ◌*◌, ◌/◌, ◌%◌, ◌≡◌, List, [], ◌∷◌, ◌++◌, if◌then◌else◌, length, take, drop,
}
use textreaderrpi.Common.Text.{codes, same_text}
use textreaderrpi.Machine.{Trace, delay, i2c_write}
use textreaderrpi.Driver.Loops.{traces_up, traces_down}
use textreaderrpi.Ssd1327.Frame.Laws.{Shows}

pub data Item : Type 0 where
  -- A frame that shows a text from a column on, with a brightness.
  frame : (text : List ℕ) (x_offset brightness : ℕ) → Item
  command : (c : ℕ) → Item
  wait : (ms : ℕ) → Item

abbrev pub command_trace : ℕ → Trace
command_trace c = i2c_write 0x3C (0 ∷ c ∷ []) ∷ []

-- The columns 0 to 63, of two pixels each, and the rows 0 to 127.
abbrev pub whole_panel : Trace
whole_panel =
    command_trace 0x15
    ++ command_trace 0
    ++ command_trace 63
    ++ command_trace 0x75
    ++ command_trace 0
    ++ command_trace 127

-- The 128 rows of a frame buffer, of 64 bytes each.
unfoldable pub row_trace : List ℕ → ℕ → Trace
row_trace fb row = i2c_write 0x3C (0x40 ∷ take 64 (drop (row * 64) fb)) ∷ []

unfoldable pub flush_trace : List ℕ → Trace
flush_trace fb = whole_panel ++ traces_up 128 0 (row_trace fb)

-- A frame is the whole buffer of some frame that shows the text.
abbrev pub Does : Item → Trace → Type 0
Does (frame text x_offset brightness) t =
    (fb : List ℕ) × Shows fb text x_offset brightness × (t ≡ flush_trace fb)
Does (command c) t = t ≡ command_trace c
Does (wait ms) t = t ≡ delay ms ∷ []

-- The text stays where it is, and its brightness counts up to 15 and starts again at 0.
unfoldable pub glowing : (n k : ℕ) → List ℕ → (sp : ℕ) → List Item
glowing zero k text sp = []
glowing (suc n) k text sp = frame text 0 (k % 16) ∷ wait sp ∷ glowing n (suc k) text sp

unfoldable pub moving : (n x_offset : ℕ) → List ℕ → (sp : ℕ) → List Item
moving zero x_offset text sp = []
moving (suc n) x_offset text sp = frame text x_offset 15 ∷ wait sp ∷ moving n (suc x_offset) text sp

unfoldable pub blinking : (sp : ℕ) → List Item
blinking sp = traces_up 6 0 λ i. wait sp ∷ command 0xAE ∷ wait sp ∷ command 0xAF ∷ []

unfoldable pub contrast : (ms v : ℕ) → List Item
contrast ms v = command 0x81 ∷ command (16 * v) ∷ wait ms ∷ []

unfoldable pub fading : (ms : ℕ) → List Item
fading ms =
    traces_up 16 0 (contrast ms)
    ++ (traces_down 16 (contrast ms) ++ command 0x81 ∷ command 0x80 ∷ [])

unfoldable pub script : List ℕ → List ℕ → (sp : ℕ) → List Item
script text effect sp =
    if same_text effect (codes "SCROLL")
    then glowing (6 * length text) 0 text sp
    else if same_text effect (codes "BLINK")
    then frame text 0 15 ∷ blinking sp
    else if same_text effect (codes "REVERSE")
    then frame (List.reverse (take 127 text)) 0 15 ∷ wait sp ∷ []
    else if same_text effect (codes "FADE")
    then frame text 0 15 ∷ fading (sp / 32 + 1)
    else moving (6 * length text) 0 text sp
