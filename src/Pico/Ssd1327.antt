-- ===== src/Pico/Ssd1327.antt =====
-- firmware/pico/src/driver/ssd1327.c: the SSD1327 program over the Pico SDK I2C calls.
use textreaderrpi.Common.{ℕ, true, List, [], ◌∷◌}
use textreaderrpi.Common.Int.{ℤ}
use textreaderrpi.Machine.{M, Setup, delay, setup, emit, pure, ◌>>◌}
use textreaderrpi.Ssd1327
use textreaderrpi.Ssd1327.{init_commands, black}

unfoldable pub display_init : M (List ℕ)
display_init = do
  emit (
      setup (Setup.i2c_init 400000)
      ∷ setup (Setup.gpio_i2c_function 4)
      ∷ setup (Setup.gpio_i2c_function 5)
      ∷ setup (Setup.gpio_pull_up 4)
      ∷ setup (Setup.gpio_pull_up 5)
      ∷ delay 100
      ∷ [])
  emit init_commands
  pure black

unfoldable pub display_clear : M (List ℕ)
display_clear = Ssd1327.display_clear

unfoldable pub display_text : List ℕ → List ℕ → List ℕ → ℤ → M (List ℕ)
display_text = Ssd1327.display_text true
