-- ===== src/Esp32/Portal.antt =====
-- firmware/esp32/main/captive_portal.c: the provisioning portal and the start of the WiFi connection.
pub mod Bytes
pub mod UrlDecode
pub mod Form
pub mod Dns
