-- ===== src/Esp32/Ht16k33.antt =====
-- firmware/esp32/main/driver/ht16k33.c: the HT16K33 program over the ESP-IDF I2C master.
use textreaderrpi.Common.{ℕ, List, ◌∷◌, ◌++◌, replicate}
use textreaderrpi.Common.Int.{ℤ}
use textreaderrpi.Machine.{M, Setup, delay, setup, emit, pure, ◌>>◌}
use textreaderrpi.Ht16k33
use textreaderrpi.Ht16k33.{ht16k33_write_cmd}
use textreaderrpi.Esp32.Config.{Chip, i2c_sda_pin, i2c_scl_pin}

unfoldable pub display_init : Chip → M (List ℕ)
display_init chip = do
  emit (
      setup (Setup.i2c_param_config (i2c_sda_pin chip) (i2c_scl_pin chip) 400000)
        ∷ setup Setup.i2c_driver_install
        ∷ delay 10
        ∷ ht16k33_write_cmd 0x21
      ++ (ht16k33_write_cmd 0x81 ++ ht16k33_write_cmd 0xEF))
  pure (replicate 8 0)

unfoldable pub display_clear : M (List ℕ)
display_clear = Ht16k33.display_clear

unfoldable pub display_text : List ℕ → List ℕ → List ℕ → ℤ → M (List ℕ)
display_text = Ht16k33.display_text
