-- ===== src/Esp32/Ili9225.antt =====
-- firmware/esp32/main/driver/ili9225.c: the program of the colour panels for the ILI9225 over the
-- ESP-IDF SPI master, with a chip select that the driver moves itself.
use textreaderrpi.Common.{ℕ, ◌+◌, ◌-◌, ◌*◌, ◌/◌, ◌%◌, List, [], ◌∷◌, ◌++◌}
use textreaderrpi.Common.Int.{ℤ}
use textreaderrpi.Machine.{M, Trace, Setup, spi_write, gpio_put, delay, setup, emit, ◌>>◌}
use textreaderrpi.Driver.Loops.{traces_up}
use textreaderrpi.Tft
use textreaderrpi.Tft.Draw.{Panel}
use textreaderrpi.Esp32.Config.{
  Chip, spi_mosi_pin, spi_clk_pin, spi_cs_pin, spi_dc_pin, spi_rst_pin,
}

abbrev pub panel : Panel
panel = record { width = 176; height = 220; bar = 16; top = 4; coordinates = 65536 }

unfoldable pub spi_write16 : ℕ → Trace
spi_write16 v = spi_write (v / 256 % 256 ∷ v % 256 ∷ []) ∷ []

unfoldable pub ili9225_write_reg : Chip → (reg value : ℕ) → Trace
ili9225_write_reg chip reg value =
    gpio_put (spi_dc_pin chip) 0
      ∷ gpio_put (spi_cs_pin chip) 0
      ∷ spi_write (0x00 ∷ reg ∷ [])
      ∷ gpio_put (spi_dc_pin chip) 1
      ∷ spi_write16 value
    ++ gpio_put (spi_cs_pin chip) 1 ∷ []

unfoldable pub ili9225_write_data16 : Chip → ℕ → Trace
ili9225_write_data16 chip value =
    gpio_put (spi_dc_pin chip) 1 ∷ gpio_put (spi_cs_pin chip) 0 ∷ spi_write16 value
    ++ gpio_put (spi_cs_pin chip) 1 ∷ []

unfoldable pub ili9225_set_window : Chip → (x0 y0 x1 y1 : ℕ) → Trace
ili9225_set_window chip x0 y0 x1 y1 =
    ili9225_write_reg chip 0x36 x1
    ++ ili9225_write_reg chip 0x37 x0
    ++ ili9225_write_reg chip 0x38 y1
    ++ ili9225_write_reg chip 0x39 y0
    ++ ili9225_write_reg chip 0x20 x0
    ++ ili9225_write_reg chip 0x21 y0
    ++ (gpio_put (spi_dc_pin chip) 0
        ∷ gpio_put (spi_cs_pin chip) 0
        ∷ spi_write (0x00 ∷ 0x22 ∷ [])
        ∷ gpio_put (spi_dc_pin chip) 1
        ∷ gpio_put (spi_cs_pin chip) 1
        ∷ [])

unfoldable pub fill_rect : Chip → (x y w h color : ℕ) → Trace
fill_rect chip x y w h color =
    ili9225_set_window chip x y ((x + w - 1) % 65536) ((y + h - 1) % 65536)
    ++ traces_up (w * h) 0 (λ i. ili9225_write_data16 chip color)

unfoldable pub display_init : Chip → M (Unit {0})
display_init chip = do
  emit (
      setup (Setup.gpio_output (spi_dc_pin chip))
      ∷ setup (Setup.gpio_output (spi_rst_pin chip))
      ∷ setup (Setup.gpio_output (spi_cs_pin chip))
      ∷ gpio_put (spi_dc_pin chip) 1
      ∷ gpio_put (spi_rst_pin chip) 1
      ∷ gpio_put (spi_cs_pin chip) 1
      ∷ setup (Setup.spi_bus_initialize (spi_mosi_pin chip) (spi_clk_pin chip))
      ∷ setup (Setup.spi_bus_add_manual_device 8000000 4)
      ∷ gpio_put (spi_rst_pin chip) 0
      ∷ delay 10
      ∷ gpio_put (spi_rst_pin chip) 1
      ∷ delay 50
      ∷ [])
  emit (
      ili9225_write_reg chip 0x01 0x011C
      ++ ili9225_write_reg chip 0x02 0x0100
      ++ ili9225_write_reg chip 0x03 0x1030
      ++ ili9225_write_reg chip 0x08 0x0808
      ++ ili9225_write_reg chip 0x0B 0x1100
      ++ ili9225_write_reg chip 0x0C 0x0000
      ++ ili9225_write_reg chip 0x0F 0x0A01
      ++ ili9225_write_reg chip 0x15 0x0020
      ++ ili9225_write_reg chip 0x20 0x0000
      ++ ili9225_write_reg chip 0x21 0x0000
      ++ (delay 50 ∷ ili9225_write_reg chip 0x10 0x0800)
      ++ (delay 10 ∷ ili9225_write_reg chip 0x11 0x1F3F)
      ++ (delay 10 ∷ ili9225_write_reg chip 0x12 0x0121)
      ++ ili9225_write_reg chip 0x13 0x006F
      ++ ili9225_write_reg chip 0x14 0x4349
      ++ ili9225_write_reg chip 0x30 0x0000
      ++ ili9225_write_reg chip 0x31 0x00DB
      ++ ili9225_write_reg chip 0x32 0x0000
      ++ ili9225_write_reg chip 0x33 0x0000
      ++ ili9225_write_reg chip 0x34 0x00DB
      ++ ili9225_write_reg chip 0x35 0x0000
      ++ ili9225_write_reg chip 0x36 0x00AF
      ++ ili9225_write_reg chip 0x37 0x0000
      ++ ili9225_write_reg chip 0x38 0x00DB
      ++ ili9225_write_reg chip 0x39 0x0000
      ++ ili9225_write_reg chip 0x07 0x1017)
  emit (fill_rect chip 0 0 panel.width panel.height Tft.black)

unfoldable pub display_clear : Chip → M (Unit {0})
display_clear chip = Tft.display_clear panel (fill_rect chip)

unfoldable pub render_text : Chip → List ℕ → (x_offset fg bg : ℕ) → M (Unit {0})
render_text chip = Tft.render_text panel (fill_rect chip)

unfoldable pub display_text : Chip → List ℕ → List ℕ → ℤ → M (Unit {0})
display_text chip =
    Tft.display_text panel (fill_rect chip) (emit (ili9225_write_reg chip 0x07 0x1013))
      (λ text. emit (ili9225_write_reg chip 0x07 0x1017))
