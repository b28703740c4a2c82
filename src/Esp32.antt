-- ===== src/Esp32.antt =====
-- The firmware for the ESP32 boards, firmware/esp32/main.
pub mod Config
pub mod Max7219
pub mod Ssd1306
pub mod Ssd1309
pub mod Sh1106
pub mod Ht16k33
pub mod Pcd8544
pub mod Portal
pub mod Wifi
pub mod Ili9225
pub mod St7735
pub mod St7789
pub mod Ssd1680
pub mod Ssd1327
pub mod Client
pub mod Main
pub mod Ota
