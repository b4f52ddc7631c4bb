-- ===== src/Rtsp.antt =====
-- The RTSP server on Core 0 (src/esp32_rtsp_mic_birdnetgo.ino): `Parse` cuts the received bytes into
-- requests, `Command` answers a request.
pub mod Parse
pub mod Command
mod Tests
