-- ===== src/Pico/St7789.antt =====
-- firmware/pico/src/driver/st7789.c: the program of the colour panels for the ST7789 over the Pico SDK SPI
-- calls.
use textreaderrpi.Common.{ℕ, ◌+◌, ◌-◌, ◌*◌, ◌/◌, ◌%◌, List, [], ◌∷◌, ◌++◌}
use textreaderrpi.Common.Int.{ℤ}
use textreaderrpi.Machine.{M, Trace, Setup, spi_write, gpio_put, delay, setup, emit, ◌>>◌}
use textreaderrpi.Driver.Loops.{traces_up}
use textreaderrpi.Tft
use textreaderrpi.Tft.Draw.{Panel}

abbrev pub panel : Panel
panel = record { width = 240; height = 240; bar = 16; top = 4; coordinates = 65536 }

unfoldable pub st7789_cmd : ℕ → Trace
st7789_cmd cmd = gpio_put 20 0 ∷ gpio_put 17 0 ∷ spi_write (cmd ∷ []) ∷ gpio_put 17 1 ∷ []

unfoldable pub st7789_data : List ℕ → Trace
st7789_data buf = gpio_put 20 1 ∷ gpio_put 17 0 ∷ spi_write buf ∷ gpio_put 17 1 ∷ []

unfoldable pub st7789_data8 : ℕ → Trace
st7789_data8 v = st7789_data (v ∷ [])

unfoldable pub st7789_set_window : (x0 y0 x1 y1 : ℕ) → Trace
st7789_set_window x0 y0 x1 y1 =
    st7789_cmd 0x2A
    ++ st7789_data8 (x0 / 256 % 256)
    ++ st7789_data8 (x0 % 256)
    ++ st7789_data8 (x1 / 256 % 256)
    ++ st7789_data8 (x1 % 256)
    ++ st7789_cmd 0x2B
    ++ st7789_data8 (y0 / 256 % 256)
    ++ st7789_data8 (y0 % 256)
    ++ st7789_data8 (y1 / 256 % 256)
    ++ st7789_data8 (y1 % 256)
    ++ st7789_cmd 0x2C

unfoldable pub fill_rect : (x y w h color : ℕ) → Trace
fill_rect x y w h color =
    st7789_set_window x y ((x + w - 1) % 65536) ((y + h - 1) % 65536)
    ++ (gpio_put 20 1
        ∷ gpio_put 17 0
        ∷ traces_up (w * h) 0 (λ i. spi_write (color / 256 % 256 ∷ color % 256 ∷ []) ∷ []))
    ++ gpio_put 17 1 ∷ []

unfoldable pub display_init : M (Unit {0})
display_init = do
  emit (
      setup (Setup.spi_init 16000000)
      ∷ setup (Setup.gpio_spi_function 19)
      ∷ setup (Setup.gpio_spi_function 18)
      ∷ setup (Setup.gpio_init 17)
      ∷ setup (Setup.gpio_output 17)
      ∷ gpio_put 17 1
      ∷ setup (Setup.gpio_init 20)
      ∷ setup (Setup.gpio_output 20)
      ∷ gpio_put 20 0
      ∷ setup (Setup.gpio_init 21)
      ∷ setup (Setup.gpio_output 21)
      ∷ gpio_put 21 1
      ∷ gpio_put 21 0
      ∷ delay 10
      ∷ gpio_put 21 1
      ∷ delay 120
      ∷ [])
  emit (
      st7789_cmd 0x01
      ++ (delay 150 ∷ st7789_cmd 0x11)
      ++ (delay 120 ∷ st7789_cmd 0x3A)
      ++ st7789_data8 0x05
      ++ st7789_cmd 0x36
      ++ st7789_data8 0x00
      ++ st7789_cmd 0x21
      ++ st7789_cmd 0x29)
  emit (fill_rect 0 0 panel.width panel.height Tft.black)

unfoldable pub display_clear : M (Unit {0})
display_clear = Tft.display_clear panel fill_rect

unfoldable pub render_text : List ℕ → (x_offset fg bg : ℕ) → M (Unit {0})
render_text = Tft.render_text panel fill_rect

unfoldable pub display_text : List ℕ → List ℕ → ℤ → M (Unit {0})
display_text =
    Tft.display_text panel fill_rect (emit (st7789_cmd 0x28)) (λ text. emit (st7789_cmd 0x29))
