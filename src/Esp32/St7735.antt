-- ===== src/Esp32/St7735.antt =====
-- firmware/esp32/main/driver/st7735.c: the program of the colour panels for the ST7735 over the ESP-IDF SPI
-- master.
use textreaderrpi.Common.{ℕ, ◌+◌, ◌-◌, ◌*◌, ◌/◌, ◌%◌, List, [], ◌∷◌, ◌++◌}
use textreaderrpi.Common.Int.{ℤ}
use textreaderrpi.Machine.{M, Trace, Setup, spi_write, gpio_put, delay, setup, emit, ◌>>◌}
use textreaderrpi.Driver.Loops.{traces_up}
use textreaderrpi.Tft
use textreaderrpi.Tft.Draw.{Panel}
use textreaderrpi.Esp32.Config.{
  Chip, spi_mosi_pin, spi_clk_pin, spi_cs_pin, spi_dc_pin, spi_rst_pin,
}

abbrev pub panel : Panel
panel = record { width = 128; height = 160; bar = 8; top = 0; coordinates = 256 }

unfoldable pub st7735_cmd : Chip → ℕ → Trace
st7735_cmd chip cmd = gpio_put (spi_dc_pin chip) 0 ∷ spi_write (cmd ∷ []) ∷ []

unfoldable pub st7735_data : Chip → List ℕ → Trace
st7735_data chip buf = gpio_put (spi_dc_pin chip) 1 ∷ spi_write buf ∷ []

unfoldable pub st7735_data8 : Chip → ℕ → Trace
st7735_data8 chip v = st7735_data chip (v ∷ [])

unfoldable pub st7735_set_window : Chip → (x0 y0 x1 y1 : ℕ) → Trace
st7735_set_window chip x0 y0 x1 y1 =
    st7735_cmd chip 0x2A
    ++ st7735_data8 chip 0
    ++ st7735_data8 chip x0
    ++ st7735_data8 chip 0
    ++ st7735_data8 chip x1
    ++ st7735_cmd chip 0x2B
    ++ st7735_data8 chip 0
    ++ st7735_data8 chip y0
    ++ st7735_data8 chip 0
    ++ st7735_data8 chip y1
    ++ st7735_cmd chip 0x2C

unfoldable pub st7735_data16 : Chip → ℕ → Trace
st7735_data16 chip v = st7735_data chip (v / 256 % 256 ∷ v % 256 ∷ [])

unfoldable pub fill_rect : Chip → (x y w h color : ℕ) → Trace
fill_rect chip x y w h color =
    st7735_set_window chip x y ((x + w - 1) % 256) ((y + h - 1) % 256)
    ++ traces_up (w * h) 0 (λ i. st7735_data16 chip color)

unfoldable pub display_init : Chip → M (Unit {0})
display_init chip = do
  emit (
      setup (Setup.gpio_output (spi_dc_pin chip))
      ∷ setup (Setup.gpio_output (spi_rst_pin chip))
      ∷ gpio_put (spi_dc_pin chip) 0
      ∷ gpio_put (spi_rst_pin chip) 1
      ∷ setup (Setup.spi_bus_initialize (spi_mosi_pin chip) (spi_clk_pin chip))
      ∷ setup (Setup.spi_bus_add_device 16000000 (spi_cs_pin chip) 4)
      ∷ gpio_put (spi_rst_pin chip) 0
      ∷ delay 10
      ∷ gpio_put (spi_rst_pin chip) 1
      ∷ delay 120
      ∷ [])
  emit (
      st7735_cmd chip 0x01
      ++ (delay 150 ∷ st7735_cmd chip 0x11)
      ++ (delay 255 ∷ st7735_cmd chip 0x3A)
      ++ st7735_data8 chip 0x05
      ++ st7735_cmd chip 0x36
      ++ st7735_data8 chip 0x00
      ++ st7735_cmd chip 0x29)
  emit (fill_rect chip 0 0 panel.width panel.height Tft.black)

unfoldable pub display_clear : Chip → M (Unit {0})
display_clear chip = Tft.display_clear panel (fill_rect chip)

unfoldable pub render_text : Chip → List ℕ → (x_offset fg bg : ℕ) → M (Unit {0})
render_text chip = Tft.render_text panel (fill_rect chip)

unfoldable pub display_text : Chip → List ℕ → List ℕ → ℤ → M (Unit {0})
display_text chip =
    Tft.display_text panel (fill_rect chip) (emit (fill_rect chip 0 0 panel.width 8 Tft.black))
      (λ text. render_text chip text 0 Tft.white Tft.black)
