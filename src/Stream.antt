-- ===== src/Stream.antt =====
-- The flags through which the two cores share the stream (src/esp32_rtsp_mic_birdnetgo.ino:
-- streamClient, isStreaming, stopStreamRequested, streamCleanupDone, core1OwnsLED,
-- audioTaskRunning, audioCaptureTaskHandle).
pub mod Control
pub mod Handshake
mod Tests
use birdnetgo_m5stack_atom_e.Prelude.{Bool, false}

pub record Stream : Type 0 where
  pub client_set : Bool  -- streamClient != NULL
  pub is_streaming : Bool
  pub stop_requested : Bool
  pub cleanup_done : Bool
  pub core1_owns_led : Bool
  pub task_running : Bool
  pub task_handle : Bool  -- audioCaptureTaskHandle != NULL

-- What Core 1 does to the flags when it closes the client by itself.
abbrev pub drop_client : Stream → Stream
drop_client s = record s { client_set = false; is_streaming = false; core1_owns_led = false }
