-- ===== src/Rtp.antt =====
-- RTP over the RTSP connection (src/esp32_rtsp_mic_birdnetgo.ino: writeAll, sendRTPPacket).
-- `Write` is the write loop, `Packet` the bytes of a packet, `Send` the whole of sendRTPPacket.
pub mod Write
pub mod Packet
pub mod Send
mod Tests
