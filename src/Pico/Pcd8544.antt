-- ===== src/Pico/Pcd8544.antt =====
-- firmware/pico/src/driver/pcd8544.c: the PCD8544 program over the Pico SDK SPI calls.
use textreaderrpi.Common.{ℕ, List, [], ◌∷◌, ◌++◌, Option, replicate, if◌then◌else◌, ◌==◌}
use textreaderrpi.Common.Int.{ℤ}
use textreaderrpi.Machine.{M, Trace, Setup, spi_write, gpio_put, delay, setup, emit, pure, ◌>>◌}
use textreaderrpi.Pcd8544
use textreaderrpi.Pcd8544.{State}

unfoldable pub pcd8544_write : ℕ → ℕ → Trace
pcd8544_write byte is_data =
    gpio_put 20 (if is_data == 0 then 0 else 1)
    ∷ gpio_put 17 0
    ∷ spi_write (byte ∷ [])
    ∷ gpio_put 17 1
    ∷ []

unfoldable pub flush : List ℕ → M (Unit {0})
flush = Pcd8544.flush pcd8544_write

unfoldable pub build_bitmap : List ℕ → List ℕ → Option (List ℕ × ℕ)
build_bitmap = Pcd8544.build_bitmap

-- The frame buffer is cleared after the commands.
unfoldable pub display_init : State → M State
display_init s = do
  emit (
      setup (Setup.spi_init 4000000)
      ∷ setup (Setup.gpio_spi_function 19)
      ∷ setup (Setup.gpio_spi_function 18)
      ∷ setup (Setup.gpio_init 17)
      ∷ setup (Setup.gpio_output 17)
      ∷ gpio_put 17 1
      ∷ setup (Setup.gpio_init 20)
      ∷ setup (Setup.gpio_output 20)
      ∷ gpio_put 20 0
      ∷ setup (Setup.gpio_init 21)
      ∷ setup (Setup.gpio_output 21)
      ∷ gpio_put 21 1
      ∷ gpio_put 21 0
      ∷ delay 10
      ∷ gpio_put 21 1
      ∷ [])
  emit (
      pcd8544_write 0x21 0
      ++ pcd8544_write 0x13 0
      ++ pcd8544_write 0xBF 0
      ++ pcd8544_write 0x20 0
      ++ pcd8544_write 0x0C 0)
  pure (record s { s_fb = replicate 504 0 })

unfoldable pub display_clear : State → M State
display_clear = Pcd8544.display_clear pcd8544_write

unfoldable pub display_text : State → List ℕ → List ℕ → ℤ → M State
display_text = Pcd8544.display_text pcd8544_write
