-- ===== src/Ssd1680/Spec.antt =====
-- What the e-paper panel is to be sent for each effect, as a script of frames, refreshes and waits.
use mathlib.Core.List
use textreaderrpi.Common.{
  ℕ, zero, suc, ◌+◌, ◌*◌, ◌/◌, ◌≡◌, Bool, List, [], ◌∷◌, ◌++◌, if◌then◌else◌, length, take,
  replicate,
}
use textreaderrpi.Common.Text.{codes, same_text}
use textreaderrpi.Machine.{M, Trace, delay}
use textreaderrpi.Driver.Script.{Runs}
use textreaderrpi.Ssd1680.Frame.Laws.{Shows}

pub data Item : Type 0 where
  -- A frame that shows a text from a column on, written to the controller's memory.
  frame : (text : List ℕ) (x_offset : ℕ) → Item
  -- A refresh of the panel, and the wait until it is over.
  refresh : (mode : ℕ) → Item
  wait : (ms : ℕ) → Item

module _ (cmd : ℕ → Trace) (send : List ℕ → Trace) where
  -- The address is set to column 0 and row 0, and the whole frame is sent.
  abbrev pub load_trace : List ℕ → Trace
  load_trace fb =
      cmd 0x4E ++ send (0 ∷ []) ++ cmd 0x4F ++ send (0 ∷ []) ++ send (0 ∷ []) ++ cmd 0x24 ++ send fb

  -- The panel is busy for `n` readings of its pin.
  abbrev pub refresh_trace : (mode n : ℕ) → Trace
  refresh_trace mode n = (cmd 0x22 ++ send (mode ∷ []) ++ cmd 0x20) ++ replicate n (delay 10)

  abbrev pub Does : Item → Trace → Type 0
  Does (frame text x_offset) t = (fb : List ℕ) × Shows fb text x_offset × (t ≡ load_trace fb)
  Does (refresh mode) t = (n : ℕ) × (t ≡ refresh_trace mode n)
  Does (wait ms) t = t ≡ delay ms ∷ []

  -- What an operation does: it succeeds, and its actions are exactly those of the script.
  abbrev pub Displays : {A : Type 0} → M A → List Item → Type 0
  Displays m items = Runs Does m items

-- The modes of a full and of a partial refresh.
abbrev pub full : ℕ
full = 0xF7

abbrev pub partial : ℕ
partial = 0xF4

-- The blank image is that of the empty text.
abbrev pub shown : List ℕ → (x_offset mode : ℕ) → List Item
shown text x_offset mode = frame text x_offset ∷ refresh mode ∷ []

-- `n` images, each eight columns further on.
unfoldable pub moving : (n x_offset : ℕ) → List ℕ → (mode sp : ℕ) → List Item
moving zero x_offset text mode sp = []
moving (suc n) x_offset text mode sp =
    shown text x_offset mode ++ wait sp ∷ moving n (x_offset + 8) text mode sp

unfoldable pub script : (epaper_partial_refresh : Bool) → List ℕ → List ℕ → (sp : ℕ) → List Item
script epaper_partial_refresh text effect sp =
    if same_text effect (codes "BLINK")
    then shown text 0 full ++ wait sp ∷ shown [] 0 full ++ wait sp ∷ shown text 0 full
    else if same_text effect (codes "REVERSE")
    then shown (List.reverse (take 127 text)) 0 full
    else if same_text effect (codes "FADE")
    then shown [] 0 full ++ wait sp ∷ shown text 0 full
    else if same_text effect (codes "SCROLL")
    then moving (6 * length text / 8 + 1) 0 text (if epaper_partial_refresh then partial else full)
        sp
    else []
