-- ===== src/Ssd1327.antt =====
-- The driver of the gray panel SSD1327: firmware/esp32/main/driver/ssd1327.c and
-- firmware/pico/src/driver/ssd1327.c are one program, but that the Pico's draws the text once before it
-- scrolls it for an unknown effect.
pub mod Frame
unfoldable pub use Frame.{put_pixel, put_run, put_runs, render_text_to_fb}
pub mod Spec
pub mod Runs
pub mod Laws
use textreaderrpi.Common.{
  ℕ, zero, suc, ◌+◌, ◌*◌, ◌/◌, ◌%◌, Bool, false, List, [], ◌∷◌, ◌++◌, Option, some, if◌then◌else◌,
  replicate, length,
}
use textreaderrpi.Common.Int.{ℤ, negated}
use textreaderrpi.Common.Text.{codes, same_text}
use textreaderrpi.Machine.{M, Trace, pure, emit, lift, delay, i2c_write, ◌>>◌, ◌>>=◌}
use textreaderrpi.Memory.{load_range}
use textreaderrpi.Driver.{clamp_speed}
use textreaderrpi.Driver.Loops.{for_up, traces_up, traces_down}
use textreaderrpi.Driver.Reverse.{reversed}
use textreaderrpi.Raster.{put_text}

abbrev pub address : ℕ
address = 0x3C

abbrev pub ssd1327_cmd : ℕ → Trace
ssd1327_cmd c = i2c_write address (0x00 ∷ c ∷ []) ∷ []

abbrev pub black : List ℕ
black = replicate 8192 0

-- The range of columns and rows, before the data of the rows.
abbrev pub set_range : Trace
set_range =
    ssd1327_cmd 0x15
    ++ ssd1327_cmd 0
    ++ ssd1327_cmd 63
    ++ ssd1327_cmd 0x75
    ++ ssd1327_cmd 0
    ++ ssd1327_cmd 127

unfoldable pub ssd1327_flush : List ℕ → M (Unit {0})
ssd1327_flush s_fb = do
  emit set_range
  for_up 128 0 λ row.
      lift (load_range s_fb (row * 64) 64) >>= λ bytes. emit (i2c_write address (0x40 ∷ bytes) ∷ [])

-- The result of an operation is the array `s_fb`.
unfoldable pub display_clear : M (List ℕ)
display_clear = do ssd1327_flush black; pure black

-- `render_text_to_fb(text, brightness); ssd1327_flush();`
unfoldable pub show : List ℕ → (brightness : ℕ) → M (List ℕ)
show text brightness = do
  s_fb ← lift (render_text_to_fb text brightness)
  ssd1327_flush s_fb
  pure s_fb

-- `for (; n rounds; offset++)`: the offset is passed as the brightness, a `uint8_t`.
unfoldable pub scroll_from : (n offset : ℕ) → List ℕ → ℕ → List ℕ → M (List ℕ)
scroll_from zero offset text sp s_fb = pure s_fb
scroll_from (suc n) offset text sp s_fb = do
  s_fb' ← show text (offset % 256)
  emit (delay sp ∷ [])
  scroll_from n (suc offset) text sp s_fb'

unfoldable pub blink : List ℕ → ℕ → M (List ℕ)
blink text sp = do
  s_fb ← show text 0x0F
  emit (traces_up 6 0 λ i. delay sp ∷ ssd1327_cmd 0xAE ++ (delay sp ∷ ssd1327_cmd 0xAF))
  pure s_fb

unfoldable pub reverse : List ℕ → ℕ → M (List ℕ)
reverse text sp = do
  rev ← lift (reversed text)
  s_fb ← show rev 0x0F
  emit (delay sp ∷ [])
  pure s_fb

unfoldable pub fade_step : (step_delay v : ℕ) → Trace
fade_step step_delay v = ssd1327_cmd 0x81 ++ ssd1327_cmd (v * 16 % 256) ++ delay step_delay ∷ []

-- `v` goes from 0 to 15 and back.
unfoldable pub fade : List ℕ → ℕ → M (List ℕ)
fade text sp = do
  s_fb ← show text 0x0F
  emit (
      traces_up 16 0 (fade_step (sp / 32 + 1))
      ++ (traces_down 16 (fade_step (sp / 32 + 1)) ++ (ssd1327_cmd 0x81 ++ ssd1327_cmd 0x80)))
  pure s_fb

-- One frame of the text from column `offset` on, at full brightness.
unfoldable pub show_from : List ℕ → (offset : ℕ) → M (List ℕ)
show_from text offset = do
  s_fb ← lift (put_text 128 0 (put_pixel 0x0F) false (negated offset) text black)
  ssd1327_flush s_fb
  pure s_fb

unfoldable pub move_from : (n offset : ℕ) → List ℕ → ℕ → List ℕ → M (List ℕ)
move_from zero offset text sp s_fb = pure s_fb
move_from (suc n) offset text sp s_fb = do
  s_fb' ← show_from text offset
  emit (delay sp ∷ [])
  move_from n (suc offset) text sp s_fb'

-- The last branch, for every other effect.
unfoldable pub move : (renders_first : Bool) → List ℕ → ℕ → List ℕ → M (List ℕ)
move renders_first text sp s_fb = do
  s_fb' ← (if renders_first then lift (render_text_to_fb text 0x0F) else pure s_fb)
  move_from (length text * 6) 0 text sp s_fb'

unfoldable pub display_text : (renders_first : Bool) → List ℕ → List ℕ → List ℕ → ℤ → M (List ℕ)
display_text renders_first s_fb text effect speed_ms =
    let sp = clamp_speed speed_ms in
    if same_text effect (codes "SCROLL")
    then scroll_from (length text * 6) 0 text sp s_fb
    else if same_text effect (codes "BLINK")
    then blink text sp
    else if same_text effect (codes "REVERSE")
    then reverse text sp
    else if same_text effect (codes "FADE")
    then fade text sp
    else move renders_first text sp s_fb

-- `display_init` after the set-up of the bus.
abbrev pub init_commands : Trace
init_commands =
    ssd1327_cmd 0xAE
    ++ ssd1327_cmd 0xA0
    ++ ssd1327_cmd 0x53
    ++ ssd1327_cmd 0xA1
    ++ ssd1327_cmd 0x00
    ++ ssd1327_cmd 0xA2
    ++ ssd1327_cmd 0x00
    ++ ssd1327_cmd 0xA4
    ++ ssd1327_cmd 0xA8
    ++ ssd1327_cmd 0x7F
    ++ ssd1327_cmd 0xB1
    ++ ssd1327_cmd 0x11
    ++ ssd1327_cmd 0xB3
    ++ ssd1327_cmd 0x00
    ++ ssd1327_cmd 0xAB
    ++ ssd1327_cmd 0x01
    ++ ssd1327_cmd 0xB6
    ++ ssd1327_cmd 0x04
    ++ ssd1327_cmd 0xBE
    ++ ssd1327_cmd 0x0F
    ++ ssd1327_cmd 0xBC
    ++ ssd1327_cmd 0x08
    ++ ssd1327_cmd 0xD5
    ++ ssd1327_cmd 0x62
    ++ ssd1327_cmd 0xFD
    ++ ssd1327_cmd 0x12
    ++ ssd1327_cmd 0xAF
