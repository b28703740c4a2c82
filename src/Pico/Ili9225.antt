-- ===== src/Pico/Ili9225.antt =====
-- firmware/pico/src/driver/ili9225.c: the program of the colour panels for the ILI9225 over the Pico SDK
-- SPI calls.
use textreaderrpi.Common.{ℕ, ◌+◌, ◌-◌, ◌*◌, ◌/◌, ◌%◌, List, [], ◌∷◌, ◌++◌}
use textreaderrpi.Common.Int.{ℤ}
use textreaderrpi.Machine.{M, Trace, Setup, spi_write, gpio_put, delay, setup, emit, ◌>>◌}
use textreaderrpi.Driver.Loops.{traces_up}
use textreaderrpi.Tft
use textreaderrpi.Tft.Draw.{Panel}

abbrev pub panel : Panel
panel = record { width = 176; height = 220; bar = 16; top = 4; coordinates = 65536 }

unfoldable pub ili9225_write_reg : (reg value : ℕ) → Trace
ili9225_write_reg reg value =
    gpio_put 20 0
    ∷ gpio_put 17 0
    ∷ spi_write (0x00 ∷ reg ∷ [])
    ∷ gpio_put 20 1
    ∷ spi_write (value / 256 % 256 ∷ value % 256 ∷ [])
    ∷ gpio_put 17 1
    ∷ []

unfoldable pub ili9225_write_data16 : ℕ → Trace
ili9225_write_data16 value =
    gpio_put 20 1
    ∷ gpio_put 17 0
    ∷ spi_write (value / 256 % 256 ∷ value % 256 ∷ [])
    ∷ gpio_put 17 1
    ∷ []

unfoldable pub ili9225_set_window : (x0 y0 x1 y1 : ℕ) → Trace
ili9225_set_window x0 y0 x1 y1 =
    ili9225_write_reg 0x36 x1
    ++ ili9225_write_reg 0x37 x0
    ++ ili9225_write_reg 0x38 y1
    ++ ili9225_write_reg 0x39 y0
    ++ ili9225_write_reg 0x20 x0
    ++ ili9225_write_reg 0x21 y0
    ++ (gpio_put 20 0
        ∷ gpio_put 17 0
        ∷ spi_write (0x00 ∷ 0x22 ∷ [])
        ∷ gpio_put 20 1
        ∷ gpio_put 17 1
        ∷ [])

unfoldable pub fill_rect : (x y w h color : ℕ) → Trace
fill_rect x y w h color =
    ili9225_set_window x y ((x + w - 1) % 65536) ((y + h - 1) % 65536)
    ++ traces_up (w * h) 0 (λ i. ili9225_write_data16 color)

unfoldable pub display_init : M (Unit {0})
display_init = do
  emit (
      setup (Setup.spi_init 8000000)
      ∷ setup (Setup.gpio_spi_function 19)
      ∷ setup (Setup.gpio_spi_function 18)
      ∷ setup (Setup.gpio_init 17)
      ∷ setup (Setup.gpio_output 17)
      ∷ gpio_put 17 1
      ∷ setup (Setup.gpio_init 20)
      ∷ setup (Setup.gpio_output 20)
      ∷ gpio_put 20 1
      ∷ setup (Setup.gpio_init 21)
      ∷ setup (Setup.gpio_output 21)
      ∷ gpio_put 21 1
      ∷ gpio_put 21 0
      ∷ delay 10
      ∷ gpio_put 21 1
      ∷ delay 50
      ∷ [])
  emit (
      ili9225_write_reg 0x01 0x011C
      ++ ili9225_write_reg 0x02 0x0100
      ++ ili9225_write_reg 0x03 0x1030
      ++ ili9225_write_reg 0x08 0x0808
      ++ ili9225_write_reg 0x0B 0x1100
      ++ ili9225_write_reg 0x0C 0x0000
      ++ ili9225_write_reg 0x0F 0x0A01
      ++ ili9225_write_reg 0x15 0x0020
      ++ ili9225_write_reg 0x20 0x0000
      ++ ili9225_write_reg 0x21 0x0000
      ++ (delay 50 ∷ ili9225_write_reg 0x10 0x0800)
      ++ (delay 10 ∷ ili9225_write_reg 0x11 0x1F3F)
      ++ (delay 10 ∷ ili9225_write_reg 0x12 0x0121)
      ++ ili9225_write_reg 0x13 0x006F
      ++ ili9225_write_reg 0x14 0x4349
      ++ ili9225_write_reg 0x30 0x0000
      ++ ili9225_write_reg 0x31 0x00DB
      ++ ili9225_write_reg 0x32 0x0000
      ++ ili9225_write_reg 0x33 0x0000
      ++ ili9225_write_reg 0x34 0x00DB
      ++ ili9225_write_reg 0x35 0x0000
      ++ ili9225_write_reg 0x36 0x00AF
      ++ ili9225_write_reg 0x37 0x0000
      ++ ili9225_write_reg 0x38 0x00DB
      ++ ili9225_write_reg 0x39 0x0000
      ++ ili9225_write_reg 0x07 0x1017)
  emit (fill_rect 0 0 panel.width panel.height Tft.black)

unfoldable pub display_clear : M (Unit {0})
display_clear = Tft.display_clear panel fill_rect

unfoldable pub render_text : List ℕ → (x_offset fg bg : ℕ) → M (Unit {0})
render_text = Tft.render_text panel fill_rect

unfoldable pub display_text : List ℕ → List ℕ → ℤ → M (Unit {0})
display_text =
    Tft.display_text panel fill_rect (emit (ili9225_write_reg 0x07 0x1013))
      (λ text. emit (ili9225_write_reg 0x07 0x1017))
