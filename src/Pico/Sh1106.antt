-- ===== src/Pico/Sh1106.antt =====
-- firmware/pico/src/driver/sh1106.c: the paged panel program over the Pico SDK SPI calls.
use mathlib.Core.List.{flat_map}
use textreaderrpi.Common.{ℕ, List, [], ◌∷◌, ◌++◌, Option, bit_or, replicate, bit_and, ◌/◌}
use textreaderrpi.Common.Int.{ℤ}
use textreaderrpi.Machine.{M, Trace, Setup, spi_write, gpio_put, delay, setup, emit, pure, ◌>>◌}
use textreaderrpi.Oled
use textreaderrpi.Oled.{Panel, State}

unfoldable pub sh1106_cmd : ℕ → Trace
sh1106_cmd c = gpio_put 20 0 ∷ gpio_put 17 0 ∷ spi_write (c ∷ []) ∷ gpio_put 17 1 ∷ []

unfoldable pub sh1106_data : List ℕ → Trace
sh1106_data buf = gpio_put 20 1 ∷ gpio_put 17 0 ∷ spi_write buf ∷ gpio_put 17 1 ∷ []

-- SH1106_COL_OFFSET
abbrev pub col_offset : ℕ
col_offset = 2

-- What the flush loop sends for one page: its number, the column offset in two nibbles, its bytes.
unfoldable pub send_page : ℕ → List ℕ → Trace
send_page page bytes =
    sh1106_cmd (bit_or 0xB0 page)
    ++ (sh1106_cmd (bit_or 0x00 (bit_and col_offset 0x0F))
        ++ (sh1106_cmd (bit_or 0x10 (bit_and (col_offset / 16) 0x0F)) ++ sh1106_data bytes))

unfoldable pub panel : Panel
panel = record { cmd = sh1106_cmd; send_page = send_page }

unfoldable pub init_commands : Trace
init_commands = flat_map sh1106_cmd (
    0xAE ∷ 0xD5 ∷ 0x80 ∷ 0xA8 ∷ 0x3F ∷ 0xD3 ∷ 0x00 ∷ 0x40 ∷ 0xAD ∷ 0x8B ∷ 0xA1 ∷ 0xC8 ∷ 0xDA ∷ 0x12
    ∷ 0x81 ∷ 0xCF ∷ 0xD9 ∷ 0x1F ∷ 0xDB ∷ 0x40 ∷ 0xA4 ∷ 0xA6 ∷ 0xAF ∷ [])

unfoldable pub build_text_bitmap : List ℕ → List ℕ → Option (List ℕ × ℕ)
build_text_bitmap = Oled.build_text_bitmap

unfoldable pub flush : List ℕ → M (Unit {0})
flush = Oled.flush panel

-- The frame buffer is cleared after the commands.
unfoldable pub display_init : State → M State
display_init s = do
  emit (
      setup (Setup.spi_init 8000000)
      ∷ setup (Setup.gpio_spi_function 19)
      ∷ setup (Setup.gpio_spi_function 18)
      ∷ setup (Setup.gpio_init 17)
      ∷ setup (Setup.gpio_output 17)
      ∷ gpio_put 17 1
      ∷ setup (Setup.gpio_init 20)
      ∷ setup (Setup.gpio_output 20)
      ∷ gpio_put 20 0
      ∷ setup (Setup.gpio_init 21)
      ∷ setup (Setup.gpio_output 21)
      ∷ gpio_put 21 1
      ∷ gpio_put 21 0
      ∷ delay 10
      ∷ gpio_put 21 1
      ∷ delay 10
      ∷ [])
  emit init_commands
  pure (record s { s_fb = replicate 1024 0 })

unfoldable pub display_clear : State → M State
display_clear = Oled.display_clear panel

unfoldable pub display_text : State → List ℕ → List ℕ → ℤ → M State
display_text = Oled.display_text panel
