-- ===== src/Pico/Ht16k33.antt =====
-- firmware/pico/src/driver/ht16k33.c: the HT16K33 program over the Pico SDK I2C calls.
use textreaderrpi.Common.{ℕ, List, ◌∷◌, ◌++◌, replicate}
use textreaderrpi.Common.Int.{ℤ}
use textreaderrpi.Machine.{M, Setup, delay, setup, emit, pure, ◌>>◌}
use textreaderrpi.Ht16k33
use textreaderrpi.Ht16k33.{ht16k33_write_cmd}

unfoldable pub display_init : M (List ℕ)
display_init = do
  emit (
      setup (Setup.i2c_init 400000)
        ∷ setup (Setup.gpio_i2c_function 4)
        ∷ setup (Setup.gpio_i2c_function 5)
        ∷ setup (Setup.gpio_pull_up 4)
        ∷ setup (Setup.gpio_pull_up 5)
        ∷ delay 10
        ∷ ht16k33_write_cmd 0x21
      ++ (ht16k33_write_cmd 0x81 ++ ht16k33_write_cmd 0xEF))
  pure (replicate 8 0)

unfoldable pub display_clear : M (List ℕ)
display_clear = Ht16k33.display_clear

unfoldable pub display_text : List ℕ → List ℕ → List ℕ → ℤ → M (List ℕ)
display_text = Ht16k33.display_text
