-- ===== src/Esp32/Ssd1327.antt =====
-- firmware/esp32/main/driver/ssd1327.c: the SSD1327 program over the ESP-IDF I2C master.
use textreaderrpi.Common.{ℕ, false, List, [], ◌∷◌}
use textreaderrpi.Common.Int.{ℤ}
use textreaderrpi.Machine.{M, Setup, delay, setup, emit, pure, ◌>>◌}
use textreaderrpi.Ssd1327
use textreaderrpi.Ssd1327.{init_commands, black}
use textreaderrpi.Esp32.Config.{Chip, i2c_sda_pin, i2c_scl_pin}

unfoldable pub display_init : Chip → M (List ℕ)
display_init chip = do
  emit (
      setup (Setup.i2c_param_config (i2c_sda_pin chip) (i2c_scl_pin chip) 400000)
      ∷ setup Setup.i2c_driver_install
      ∷ delay 100
      ∷ [])
  emit init_commands
  pure black

unfoldable pub display_clear : M (List ℕ)
display_clear = Ssd1327.display_clear

unfoldable pub display_text : List ℕ → List ℕ → List ℕ → ℤ → M (List ℕ)
display_text = Ssd1327.display_text false
