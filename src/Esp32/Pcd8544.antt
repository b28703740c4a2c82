-- ===== src/Esp32/Pcd8544.antt =====
-- firmware/esp32/main/driver/pcd8544.c: the PCD8544 program over the ESP-IDF SPI master.
use textreaderrpi.Common.{ℕ, List, [], ◌∷◌, ◌++◌, Option, replicate, if◌then◌else◌, ◌==◌}
use textreaderrpi.Common.Int.{ℤ}
use textreaderrpi.Machine.{M, Trace, Setup, spi_write, gpio_put, delay, setup, emit, pure, ◌>>◌}
use textreaderrpi.Pcd8544
use textreaderrpi.Pcd8544.{State}
use textreaderrpi.Esp32.Config.{
  Chip, spi_mosi_pin, spi_clk_pin, spi_cs_pin, spi_dc_pin, spi_rst_pin,
}

unfoldable pub pcd8544_write_byte : Chip → ℕ → ℕ → Trace
pcd8544_write_byte chip byte is_data =
    gpio_put (spi_dc_pin chip) (if is_data == 0 then 0 else 1) ∷ spi_write (byte ∷ []) ∷ []

unfoldable pub flush : Chip → List ℕ → M (Unit {0})
flush chip = Pcd8544.flush (pcd8544_write_byte chip)

unfoldable pub build_bitmap : List ℕ → List ℕ → Option (List ℕ × ℕ)
build_bitmap = Pcd8544.build_bitmap

-- The frame buffer is cleared after the commands.
unfoldable pub display_init : Chip → State → M State
display_init chip s = do
  emit (
      setup (Setup.gpio_output (spi_dc_pin chip))
      ∷ setup (Setup.gpio_output (spi_rst_pin chip))
      ∷ gpio_put (spi_dc_pin chip) 0
      ∷ gpio_put (spi_rst_pin chip) 1
      ∷ setup (Setup.spi_bus_initialize (spi_mosi_pin chip) (spi_clk_pin chip))
      ∷ setup (Setup.spi_bus_add_device 4000000 (spi_cs_pin chip) 4)
      ∷ gpio_put (spi_rst_pin chip) 0
      ∷ delay 10
      ∷ gpio_put (spi_rst_pin chip) 1
      ∷ [])
  emit (
      pcd8544_write_byte chip 0x21 0
      ++ pcd8544_write_byte chip 0x13 0
      ++ pcd8544_write_byte chip 0xBF 0
      ++ pcd8544_write_byte chip 0x20 0
      ++ pcd8544_write_byte chip 0x0C 0)
  pure (record s { s_fb = replicate 504 0 })

unfoldable pub display_clear : Chip → State → M State
display_clear chip = Pcd8544.display_clear (pcd8544_write_byte chip)

unfoldable pub display_text : Chip → State → List ℕ → List ℕ → ℤ → M State
display_text chip = Pcd8544.display_text (pcd8544_write_byte chip)
