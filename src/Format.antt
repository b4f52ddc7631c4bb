-- ===== src/Format.antt =====
-- Texts that the program builds: uptimes (formatUptime, formatSince in
-- src/esp32_rtsp_mic_birdnetgo.ino) and JSON strings (jsonEscape in src/WebUI.cpp). `decimal` stands
-- for Arduino's `String(n)`.
pub mod Uptime
pub mod Json
mod Tests
