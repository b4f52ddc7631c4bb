-- ===== src/Checks.antt =====
-- The periodic checks of the main loop (src/esp32_rtsp_mic_birdnetgo.ino).
pub mod Performance
pub mod Reboot
pub mod Wifi
mod Tests
