-- ===== src/Pico.antt =====
-- The firmware for the Raspberry Pi Pico, firmware/pico.
pub mod Max7219
pub mod Ssd1306
pub mod Ssd1309
pub mod Sh1106
pub mod Ht16k33
pub mod Pcd8544
pub mod Credentials
pub mod Client
pub mod Ili9225
pub mod St7735
pub mod St7789
pub mod Ssd1680
pub mod Ssd1327
pub mod Main
pub mod Ota
