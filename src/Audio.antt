-- ===== src/Audio.antt =====
-- The audio pipeline of Core 1 (src/esp32_rtsp_mic_birdnetgo.ino): `Filter` is the high-pass filter,
-- `Process` the processing of one block of samples with gain, AGC and metering, `Task` the loop of
-- audioCaptureTask. The float type and its arithmetic are parameters.
pub mod Filter
pub mod Process
pub mod Task
pub mod Buffers
pub mod Tests
