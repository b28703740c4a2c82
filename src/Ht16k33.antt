-- ===== src/Ht16k33.antt =====
-- The HT16K33 driver, a matrix of eight by eight: firmware/esp32/main/driver/ht16k33.c and
-- firmware/pico/src/driver/ht16k33.c are one program over the I2C write of their board.
pub mod Char
unfoldable pub use Char.{set_bit, draw_bit, draw_rows, draw_columns, render_char, row_pairs}
pub mod Spec
pub mod Laws
use textreaderrpi.Common.Int.{ℤ}
use textreaderrpi.Common.Text.{codes, same_text}
use textreaderrpi.Machine.{M, Trace, pure, emit, lift, delay, i2c_write, ◌>>◌, ◌>>=◌}
use textreaderrpi.Memory.{load}
use textreaderrpi.Driver.{clamp_speed}
use textreaderrpi.Driver.Loops.{traces_up, traces_down}
use textreaderrpi.Memory.{load}
use textreaderrpi.Machine.{Trace, M, i2c_write, pure}
use textreaderrpi.Common.{
  ℕ, zero, suc, List, if◌then◌else◌, Option, ◌∷◌, leb, [], some, replicate, ◌++◌, bit_or, length,
  ◌*◌, ◌/◌, ◌+◌,
}

abbrev pub address : ℕ
address = 0x70

abbrev pub ht16k33_write_cmd : ℕ → Trace
ht16k33_write_cmd c = i2c_write address (c ∷ []) ∷ []

unfoldable pub flush : List ℕ → M (Unit {0})
flush s_rows = do buf ← lift (row_pairs 8 0 s_rows); emit (i2c_write address (0x00 ∷ buf) ∷ [])

-- The result of an operation is the array `s_rows`.
unfoldable pub display_clear : M (List ℕ)
display_clear = do flush (replicate 8 0); pure (replicate 8 0)

-- `render_char(c); flush();`
unfoldable pub show : ℕ → M (List ℕ)
show c = do s_rows ← lift (render_char c); flush s_rows; pure s_rows

-- `text[0]`, the NUL for an empty text.
abbrev pub first : List ℕ → ℕ
first [] = 0
first (c ∷ text) = c

unfoldable pub scroll : ℕ → List ℕ → List ℕ → M (List ℕ)
scroll sp [] s_rows = pure s_rows
scroll sp (c ∷ text) s_rows = do s_rows' ← show c; emit (delay sp ∷ []); scroll sp text s_rows'

unfoldable pub blink_command : ℕ → ℕ
blink_command sp =
    if leb 1000 sp then 0x87 else if leb 500 sp then 0x85 else if leb 250 sp then 0x83 else 0x81

unfoldable pub blink : ℕ → List ℕ → M (List ℕ)
blink sp text = do
  s_rows ← show (first text)
  emit (ht16k33_write_cmd (blink_command sp) ++ (delay (sp * 6) ∷ ht16k33_write_cmd 0x81))
  pure s_rows

-- `for (i = n - 1; i >= 0; i--)`
unfoldable pub reverse : ℕ → ℕ → List ℕ → List ℕ → M (List ℕ)
reverse zero sp text s_rows = pure s_rows
reverse (suc i) sp text s_rows = do
  c ← lift (load text i)
  s_rows' ← show c
  emit (delay sp ∷ [])
  reverse i sp text s_rows'

-- `v` goes from 0 to 15 and back.
unfoldable pub fade : ℕ → List ℕ → M (List ℕ)
fade sp text = do
  s_rows ← show (first text)
  emit (
      traces_up 16 0 (λ v. ht16k33_write_cmd (bit_or 0xE0 v) ++ delay (sp / 16 + 1) ∷ [])
      ++ (traces_down 16 (λ v. ht16k33_write_cmd (bit_or 0xE0 v) ++ delay (sp / 16 + 1) ∷ [])
          ++ ht16k33_write_cmd 0xEF))
  pure s_rows

unfoldable pub display_text : List ℕ → List ℕ → List ℕ → ℤ → M (List ℕ)
display_text s_rows text effect speed_ms =
    let sp = clamp_speed speed_ms in
    if same_text effect (codes "SCROLL")
    then scroll sp text s_rows
    else if same_text effect (codes "BLINK")
    then blink sp text
    else if same_text effect (codes "REVERSE")
    then reverse (length text) sp text s_rows
    else if same_text effect (codes "FADE")
    then fade sp text
    else pure s_rows
