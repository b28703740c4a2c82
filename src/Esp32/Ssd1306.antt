-- ===== src/Esp32/Ssd1306.antt =====
-- firmware/esp32/main/driver/ssd1306.c: the paged panel program over the ESP-IDF I2C master.
use mathlib.Core.List.{flat_map}
use textreaderrpi.Common.{ℕ, List, [], ◌∷◌, ◌++◌, Option, bit_or, replicate, ◌-◌}
use textreaderrpi.Common.Int.{ℤ}
use textreaderrpi.Machine.{M, Trace, Setup, i2c_write, delay, setup, emit, pure, ◌>>◌}
use textreaderrpi.Oled
use textreaderrpi.Oled.{Panel, State}
use textreaderrpi.Esp32.Config.{Chip, i2c_sda_pin, i2c_scl_pin}

abbrev pub address : ℕ
address = 0x3C

unfoldable pub ssd1306_cmd : ℕ → Trace
ssd1306_cmd c = i2c_write address (0x00 ∷ c ∷ []) ∷ []

-- What the flush loop sends for one page: three commands and the page's bytes behind 0x40.
unfoldable pub send_page : ℕ → List ℕ → Trace
send_page page bytes =
    ssd1306_cmd (bit_or 0xB0 page)
    ++ (ssd1306_cmd 0x00 ++ (ssd1306_cmd 0x10 ++ i2c_write address (0x40 ∷ bytes) ∷ []))

unfoldable pub panel : Panel
panel = record { cmd = ssd1306_cmd; send_page = send_page }

unfoldable pub init_commands : Trace
init_commands = flat_map ssd1306_cmd (
    0xAE
    ∷ 0xD5
    ∷ 0x80
    ∷ 0xA8
    ∷ (64 - 1)
    ∷ 0xD3
    ∷ 0x00
    ∷ 0x40
    ∷ 0x8D
    ∷ 0x14
    ∷ 0x20
    ∷ 0x00
    ∷ 0xA1
    ∷ 0xC8
    ∷ 0xDA
    ∷ 0x12
    ∷ 0x81
    ∷ 0xCF
    ∷ 0xD9
    ∷ 0xF1
    ∷ 0xDB
    ∷ 0x40
    ∷ 0xA4
    ∷ 0xA6
    ∷ 0xAF
    ∷ [])

unfoldable pub build_text_bitmap : List ℕ → List ℕ → Option (List ℕ × ℕ)
build_text_bitmap = Oled.build_text_bitmap

unfoldable pub flush : List ℕ → M (Unit {0})
flush = Oled.flush panel

-- The frame buffer is cleared after the commands.
unfoldable pub display_init : Chip → State → M State
display_init chip s = do
  emit (
      setup (Setup.i2c_param_config (i2c_sda_pin chip) (i2c_scl_pin chip) 400000)
      ∷ setup Setup.i2c_driver_install
      ∷ delay 100
      ∷ [])
  emit init_commands
  pure (record s { s_fb = replicate 1024 0 })

unfoldable pub display_clear : State → M State
display_clear = Oled.display_clear panel

unfoldable pub display_text : State → List ℕ → List ℕ → ℤ → M State
display_text = Oled.display_text panel
