-- ===== src/Esp32/Max7219.antt =====
-- firmware/esp32/main/driver/max7219.c: the MAX7219 program over the ESP-IDF SPI master.
use textreaderrpi.Common.{ℕ, List, [], ◌∷◌}
use textreaderrpi.Common.Int.{ℤ}
use textreaderrpi.Machine.{M, Trace, Setup, spi_write, setup}
use textreaderrpi.Max7219
use textreaderrpi.Max7219.{State}
use textreaderrpi.Esp32.Config.{Chip, num_devices, spi_mosi_pin, spi_clk_pin, spi_cs_pin}

-- `spi_device_polling_transmit`; the device's chip select is automatic.
unfoldable pub transmit : List ℕ → Trace
transmit buf = spi_write buf ∷ []

unfoldable pub spi_write_reg : ℕ → ℕ → Trace
spi_write_reg = Max7219.write_reg num_devices transmit

unfoldable pub display_init : Chip → Trace
display_init chip =
    setup (Setup.spi_bus_initialize (spi_mosi_pin chip) (spi_clk_pin chip))
    ∷ setup (Setup.spi_bus_add_device 10000000 (spi_cs_pin chip) 4)
    ∷ Max7219.init_registers num_devices transmit

unfoldable pub display_clear : Trace
display_clear = Max7219.display_clear num_devices transmit

unfoldable pub build_text_bitmap : State → List ℕ → M State
build_text_bitmap = Max7219.set_text num_devices

unfoldable pub render_columns : State → ℕ → M (Unit {0})
render_columns = Max7219.render_columns num_devices transmit

unfoldable pub display_text : State → List ℕ → List ℕ → ℤ → ℤ → ℤ → M State
display_text = Max7219.display_text num_devices transmit
