-- ===== src/Tests.antt =====
-- Runs of the model on small inputs, and each property at an input that meets its hypotheses.
pub mod Matrix
pub mod Portal
pub mod Panels
pub mod Slides
pub mod Credentials
pub mod Lcd
pub mod Network
pub mod Wifi
mod Tft
mod Paper
mod Gray
mod Board
mod PicoBoard
