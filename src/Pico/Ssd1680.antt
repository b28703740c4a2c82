-- ===== src/Pico/Ssd1680.antt =====
-- firmware/pico/src/driver/ssd1680.c: the e-paper program over the Pico SDK SPI calls.
use textreaderrpi.Common.{ℕ, Bool, List, [], ◌∷◌}
use textreaderrpi.Common.Int.{ℤ}
use textreaderrpi.Machine.{M, Trace, Setup, spi_write, gpio_put, delay, setup, emit, ◌>>◌}
use textreaderrpi.Ssd1680
use textreaderrpi.Ssd1680.{State}

unfoldable pub ssd1680_cmd : ℕ → Trace
ssd1680_cmd cmd = gpio_put 20 0 ∷ gpio_put 17 0 ∷ spi_write (cmd ∷ []) ∷ gpio_put 17 1 ∷ []

unfoldable pub ssd1680_data : List ℕ → Trace
ssd1680_data buf = gpio_put 20 1 ∷ gpio_put 17 0 ∷ spi_write buf ∷ gpio_put 17 1 ∷ []

module _ (busy : ℕ → Bool) (fuel : ℕ) where
  unfoldable pub display_init : State → M State
  display_init s = do
    emit (
        setup (Setup.spi_init 4000000)
        ∷ setup (Setup.gpio_spi_function 19)
        ∷ setup (Setup.gpio_spi_function 18)
        ∷ setup (Setup.gpio_init 17)
        ∷ setup (Setup.gpio_output 17)
        ∷ gpio_put 17 1
        ∷ setup (Setup.gpio_init 20)
        ∷ setup (Setup.gpio_output 20)
        ∷ gpio_put 20 0
        ∷ setup (Setup.gpio_init 21)
        ∷ setup (Setup.gpio_output 21)
        ∷ gpio_put 21 1
        ∷ setup (Setup.gpio_init 22)
        ∷ setup (Setup.gpio_input 22)
        ∷ gpio_put 21 0
        ∷ delay 10
        ∷ gpio_put 21 1
        ∷ delay 10
        ∷ [])
    Ssd1680.initialize ssd1680_cmd ssd1680_data busy fuel s

  unfoldable pub display_clear : State → M State
  display_clear = Ssd1680.display_clear ssd1680_cmd ssd1680_data busy fuel

  unfoldable pub display_text : Bool → State → List ℕ → List ℕ → ℤ → M State
  display_text = Ssd1680.display_text ssd1680_cmd ssd1680_data busy fuel
