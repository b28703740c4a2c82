-- ===== src/Esp32/St7789.antt =====
-- firmware/esp32/main/driver/st7789.c: the program of the colour panels for the ST7789 over the ESP-IDF SPI
-- master.
use textreaderrpi.Common.{ℕ, ◌+◌, ◌-◌, ◌*◌, ◌/◌, ◌%◌, List, [], ◌∷◌, ◌++◌}
use textreaderrpi.Common.Int.{ℤ}
use textreaderrpi.Machine.{M, Trace, Setup, spi_write, gpio_put, delay, setup, emit, ◌>>◌}
use textreaderrpi.Driver.Loops.{traces_up}
use textreaderrpi.Tft
use textreaderrpi.Tft.Draw.{Panel}
use textreaderrpi.Esp32.Config.{
  Chip, spi_mosi_pin, spi_clk_pin, spi_cs_pin, spi_dc_pin, spi_rst_pin,
}

abbrev pub panel : Panel
panel = record { width = 240; height = 240; bar = 16; top = 4; coordinates = 65536 }

unfoldable pub st7789_cmd : Chip → ℕ → Trace
st7789_cmd chip cmd = gpio_put (spi_dc_pin chip) 0 ∷ spi_write (cmd ∷ []) ∷ []

unfoldable pub st7789_data : Chip → List ℕ → Trace
st7789_data chip buf = gpio_put (spi_dc_pin chip) 1 ∷ spi_write buf ∷ []

unfoldable pub st7789_data8 : Chip → ℕ → Trace
st7789_data8 chip v = st7789_data chip (v ∷ [])

unfoldable pub st7789_set_window : Chip → (x0 y0 x1 y1 : ℕ) → Trace
st7789_set_window chip x0 y0 x1 y1 =
    st7789_cmd chip 0x2A
    ++ st7789_data chip (x0 / 256 % 256 ∷ x0 % 256 ∷ x1 / 256 % 256 ∷ x1 % 256 ∷ [])
    ++ st7789_cmd chip 0x2B
    ++ st7789_data chip (y0 / 256 % 256 ∷ y0 % 256 ∷ y1 / 256 % 256 ∷ y1 % 256 ∷ [])
    ++ st7789_cmd chip 0x2C

unfoldable pub fill_rect : Chip → (x y w h color : ℕ) → Trace
fill_rect chip x y w h color =
    st7789_set_window chip x y ((x + w - 1) % 65536) ((y + h - 1) % 65536)
    ++ traces_up (w * h) 0 (λ i. st7789_data chip (color / 256 % 256 ∷ color % 256 ∷ []))

unfoldable pub display_init : Chip → M (Unit {0})
display_init chip = do
  emit (
      setup (Setup.gpio_output (spi_dc_pin chip))
      ∷ setup (Setup.gpio_output (spi_rst_pin chip))
      ∷ gpio_put (spi_dc_pin chip) 0
      ∷ gpio_put (spi_rst_pin chip) 1
      ∷ setup (Setup.spi_bus_initialize (spi_mosi_pin chip) (spi_clk_pin chip))
      ∷ setup (Setup.spi_bus_add_device 16000000 (spi_cs_pin chip) 4)
      ∷ gpio_put (spi_rst_pin chip) 0
      ∷ delay 10
      ∷ gpio_put (spi_rst_pin chip) 1
      ∷ delay 120
      ∷ [])
  emit (
      st7789_cmd chip 0x01
      ++ (delay 150 ∷ st7789_cmd chip 0x11)
      ++ (delay 120 ∷ st7789_cmd chip 0x3A)
      ++ st7789_data8 chip 0x05
      ++ st7789_cmd chip 0x36
      ++ st7789_data8 chip 0x00
      ++ st7789_cmd chip 0x21
      ++ st7789_cmd chip 0x29)
  emit (fill_rect chip 0 0 panel.width panel.height Tft.black)

unfoldable pub display_clear : Chip → M (Unit {0})
display_clear chip = Tft.display_clear panel (fill_rect chip)

unfoldable pub render_text : Chip → List ℕ → (x_offset fg bg : ℕ) → M (Unit {0})
render_text chip = Tft.render_text panel (fill_rect chip)

unfoldable pub display_text : Chip → List ℕ → List ℕ → ℤ → M (Unit {0})
display_text chip =
    Tft.display_text panel (fill_rect chip) (emit (st7789_cmd chip 0x28))
      (λ text. emit (st7789_cmd chip 0x29))
