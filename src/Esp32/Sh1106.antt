-- ===== src/Esp32/Sh1106.antt =====
-- firmware/esp32/main/driver/sh1106.c: the paged panel program over the ESP-IDF SPI master.
use mathlib.Core.List.{flat_map}
use textreaderrpi.Common.{ℕ, List, [], ◌∷◌, ◌++◌, Option, bit_or, replicate, bit_and, ◌/◌}
use textreaderrpi.Common.Int.{ℤ}
use textreaderrpi.Machine.{M, Trace, Setup, spi_write, gpio_put, delay, setup, emit, pure, ◌>>◌}
use textreaderrpi.Oled
use textreaderrpi.Oled.{Panel, State}
use textreaderrpi.Esp32.Config.{
  Chip, spi_mosi_pin, spi_clk_pin, spi_cs_pin, spi_dc_pin, spi_rst_pin,
}

unfoldable pub sh1106_cmd : Chip → ℕ → Trace
sh1106_cmd chip c = gpio_put (spi_dc_pin chip) 0 ∷ spi_write (c ∷ []) ∷ []

unfoldable pub sh1106_data : Chip → List ℕ → Trace
sh1106_data chip buf = gpio_put (spi_dc_pin chip) 1 ∷ spi_write buf ∷ []

-- SH1106_COL_OFFSET
abbrev pub col_offset : ℕ
col_offset = 2

-- What the flush loop sends for one page: its number, the column offset in two nibbles, its bytes.
unfoldable pub send_page : Chip → ℕ → List ℕ → Trace
send_page chip page bytes =
    sh1106_cmd chip (bit_or 0xB0 page)
    ++ (sh1106_cmd chip (bit_or 0x00 (bit_and col_offset 0x0F))
        ++ (sh1106_cmd chip (bit_or 0x10 (bit_and (col_offset / 16) 0x0F))
            ++ sh1106_data chip bytes))

unfoldable pub panel : Chip → Panel
panel chip = record { cmd = sh1106_cmd chip; send_page = send_page chip }

unfoldable pub init_commands : Chip → Trace
init_commands chip = flat_map (sh1106_cmd chip) (
    0xAE ∷ 0xD5 ∷ 0x80 ∷ 0xA8 ∷ 0x3F ∷ 0xD3 ∷ 0x00 ∷ 0x40 ∷ 0xAD ∷ 0x8B ∷ 0xA1 ∷ 0xC8 ∷ 0xDA ∷ 0x12
    ∷ 0x81 ∷ 0xCF ∷ 0xD9 ∷ 0x1F ∷ 0xDB ∷ 0x40 ∷ 0xA4 ∷ 0xA6 ∷ 0xAF ∷ [])

unfoldable pub build_text_bitmap : List ℕ → List ℕ → Option (List ℕ × ℕ)
build_text_bitmap = Oled.build_text_bitmap

unfoldable pub flush : Chip → List ℕ → M (Unit {0})
flush chip = Oled.flush (panel chip)

-- The frame buffer is cleared after the commands.
unfoldable pub display_init : Chip → State → M State
display_init chip s = do
  emit (
      setup (Setup.gpio_output (spi_dc_pin chip))
      ∷ setup (Setup.gpio_output (spi_rst_pin chip))
      ∷ gpio_put (spi_dc_pin chip) 0
      ∷ gpio_put (spi_rst_pin chip) 1
      ∷ setup (Setup.spi_bus_initialize (spi_mosi_pin chip) (spi_clk_pin chip))
      ∷ setup (Setup.spi_bus_add_device 8000000 (spi_cs_pin chip) 4)
      ∷ gpio_put (spi_rst_pin chip) 0
      ∷ delay 10
      ∷ gpio_put (spi_rst_pin chip) 1
      ∷ delay 10
      ∷ [])
  emit (init_commands chip)
  pure (record s { s_fb = replicate 1024 0 })

unfoldable pub display_clear : Chip → State → M State
display_clear chip = Oled.display_clear (panel chip)

unfoldable pub display_text : Chip → State → List ℕ → List ℕ → ℤ → M State
display_text chip = Oled.display_text (panel chip)
