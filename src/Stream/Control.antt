-- ===== src/Stream/Control.antt =====
-- Starting and stopping the stream from Core 0 (src/esp32_rtsp_mic_birdnetgo.ino:
-- requestStreamStop, startAudioCaptureTask, stopAudioCaptureTask) and the answer of Core 1 to a stop
-- request (audioCaptureTask). Core 0 waits in two places; what Core 1 does while it waits is an
-- argument `core1`, any function on the shared state. When Core 0 stops waiting, it has either seen
-- the confirmation or run into its deadline.
pub mod Laws
use birdnetgo_m5stack_atom_e.Prelude.{Bool, true, false, not, ◌&&◌, ◌||◌, if◌then◌else◌}
use birdnetgo_m5stack_atom_e.Stream.{Stream}

-- The flags, and whether the client's socket is connected.
pub record Link : Type 0 where
  pub stream : Stream
  pub open stream use *
  pub connected : Bool

-- The branch of the loop of audioCaptureTask for `stopStreamRequested`.
unfoldable pub serve_stop : Link → Link
serve_stop l =
    if l.stop_requested
    then record {
      stream = record l.stream {
        client_set = false;
        is_streaming = false;
        core1_owns_led = false;
        cleanup_done = true;
      };
      connected = if l.client_set then false else l.connected;
    }
    else l

-- What requestStreamStop writes after the wait, in both of its branches.
unfoldable pub finish_stop : Link → Link × Bool
finish_stop l =
    let stopped : Stream = record l.stream {
      is_streaming = false;
      client_set = false;
      stop_requested = false;
      cleanup_done = false;
    } in
    if l.cleanup_done
    then (record l { stream = stopped }, true)
    else (record l { stream = record stopped { core1_owns_led = false } }, false)

unfoldable pub request_stream_stop : (Link → Link) → Link → Link × Bool
unfolding finish_stop
request_stream_stop core1 l =
    if not l.is_streaming && not l.client_set
    then (l, true)
    else finish_stop (core1 (record l { stream = record l.stream { stop_requested = true } }))

unfoldable pub stop_audio_task : (Link → Link) → Link → Link
stop_audio_task core1 l =
    if l.task_handle
    then (let l' = core1 (record l { stream = record l.stream { task_running = false } }) in
        record l' { stream = record l'.stream { task_handle = false } })
    else l

-- `created` tells whether xTaskCreatePinnedToCore succeeds.
unfoldable pub start_audio_task : Bool → Link → Link
start_audio_task created l =
    if l.task_handle then l else record l { stream = record l.stream { task_handle = created } }

-- The hand-over to Core 1 when PLAY is handled.
unfoldable pub hand_over : Bool → Link → Link
unfolding start_audio_task
hand_over created l = start_audio_task created (record l {
  stream = record l.stream {
    stop_requested = false;
    cleanup_done = false;
    core1_owns_led = true;
    client_set = true;
    is_streaming = true;
  };
})

-- restartI2S, as far as the stream is concerned: the driver and the filter are set up between the
-- two halves.
unfoldable pub halt_for_restart : (Link → Link) → (Link → Link) → Link → Link
halt_for_restart core1 exit l =
    stop_audio_task exit (if l.is_streaming then (request_stream_stop core1 l).0 else l)

unfoldable pub resume : Bool → Bool → Link → Link
unfolding start_audio_task
resume was_streaming created l =
    if was_streaming && l.connected
    then start_audio_task created
        (record l { stream = record l.stream { client_set = true; is_streaming = true } })
    else l

unfoldable pub restart_i2s : (Link → Link) → (Link → Link) → Bool → Link → Link
restart_i2s core1 exit created l = resume l.is_streaming created (halt_for_restart core1 exit l)
