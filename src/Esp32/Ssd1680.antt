-- ===== src/Esp32/Ssd1680.antt =====
-- firmware/esp32/main/driver/ssd1680.c: the e-paper program over the ESP-IDF SPI master.
use textreaderrpi.Common.{ℕ, Bool, List, [], ◌∷◌}
use textreaderrpi.Common.Int.{ℤ}
use textreaderrpi.Machine.{M, Trace, Setup, spi_write, gpio_put, delay, setup, emit, ◌>>◌}
use textreaderrpi.Ssd1680
use textreaderrpi.Ssd1680.{State}
use textreaderrpi.Esp32.Config.{
  Chip, spi_mosi_pin, spi_clk_pin, spi_cs_pin, spi_dc_pin, spi_rst_pin, spi_busy_pin,
}

unfoldable pub ssd1680_cmd : Chip → ℕ → Trace
ssd1680_cmd chip cmd = gpio_put (spi_dc_pin chip) 0 ∷ spi_write (cmd ∷ []) ∷ []

unfoldable pub ssd1680_data : Chip → List ℕ → Trace
ssd1680_data chip buf = gpio_put (spi_dc_pin chip) 1 ∷ spi_write buf ∷ []

module _ (chip : Chip) (busy : ℕ → Bool) (fuel : ℕ) where
  unfoldable pub display_init : State → M State
  display_init s = do
    emit (
        setup (Setup.gpio_output (spi_dc_pin chip))
        ∷ setup (Setup.gpio_output (spi_rst_pin chip))
        ∷ setup (Setup.gpio_input (spi_busy_pin chip))
        ∷ gpio_put (spi_dc_pin chip) 0
        ∷ gpio_put (spi_rst_pin chip) 1
        ∷ setup (Setup.spi_bus_initialize (spi_mosi_pin chip) (spi_clk_pin chip))
        ∷ setup (Setup.spi_bus_add_device 4000000 (spi_cs_pin chip) 4)
        ∷ gpio_put (spi_rst_pin chip) 0
        ∷ delay 10
        ∷ gpio_put (spi_rst_pin chip) 1
        ∷ delay 10
        ∷ [])
    Ssd1680.initialize (ssd1680_cmd chip) (ssd1680_data chip) busy fuel s

  unfoldable pub display_clear : State → M State
  display_clear = Ssd1680.display_clear (ssd1680_cmd chip) (ssd1680_data chip) busy fuel

  unfoldable pub display_text : Bool → State → List ℕ → List ℕ → ℤ → M State
  display_text = Ssd1680.display_text (ssd1680_cmd chip) (ssd1680_data chip) busy fuel
