-- ===== src/Esp32/Config.antt =====
-- firmware/esp32/main/config.h: the pins of the three families of chips, and the constants.
use textreaderrpi.Common.{ℕ}

-- The S2 and S3, the chips with a RISC-V core, and the classic ESP32 for all else.
pub data Chip : Type 0 where
  s2_s3 risc_v classic : Chip

unfoldable pub spi_mosi_pin : Chip → ℕ
spi_mosi_pin s2_s3 = 35
spi_mosi_pin risc_v = 7
spi_mosi_pin classic = 23

unfoldable pub spi_clk_pin : Chip → ℕ
spi_clk_pin s2_s3 = 36
spi_clk_pin risc_v = 6
spi_clk_pin classic = 18

unfoldable pub spi_cs_pin : Chip → ℕ
spi_cs_pin s2_s3 = 34
spi_cs_pin risc_v = 10
spi_cs_pin classic = 5

unfoldable pub spi_dc_pin : Chip → ℕ
spi_dc_pin s2_s3 = 37
spi_dc_pin risc_v = 3
spi_dc_pin classic = 2

unfoldable pub spi_rst_pin : Chip → ℕ
spi_rst_pin s2_s3 = 38
spi_rst_pin risc_v = 4
spi_rst_pin classic = 4

unfoldable pub spi_busy_pin : Chip → ℕ
spi_busy_pin s2_s3 = 33
spi_busy_pin risc_v = 5
spi_busy_pin classic = 15

unfoldable pub i2c_sda_pin : Chip → ℕ
i2c_sda_pin s2_s3 = 8
i2c_sda_pin risc_v = 8
i2c_sda_pin classic = 21

unfoldable pub i2c_scl_pin : Chip → ℕ
i2c_scl_pin s2_s3 = 9
i2c_scl_pin risc_v = 9
i2c_scl_pin classic = 22

abbrev pub num_devices : ℕ
num_devices = 4
