-- ===== src/Stream/Control/Laws.antt =====
-- What holds when Core 0 has stopped the stream (src/esp32_rtsp_mic_birdnetgo.ino).
use birdnetgo_m5stack_atom_e.Prelude.{
  ◌≡◌, sym, subst, Bool, true, false, Bool-cases, inl, inr, arith,
}
use birdnetgo_m5stack_atom_e.Stream.Control.{
  Link, serve_stop, finish_stop, request_stream_stop, stop_audio_task, restart_i2s,
  halt_for_restart, resume,
}

-- No stream is left, and the handshake is ready for the next request.
pub record IsQuiet (l : Link) : Type 0 where
  pub not_streaming : l.is_streaming ≡ false
  pub no_client : l.client_set ≡ false
  pub no_request : l.stop_requested ≡ false
  pub no_confirmation : l.cleanup_done ≡ false

finish_stop-IsQuiet : (l : Link) → IsQuiet (finish_stop l).0
unfolding finish_stop
finish_stop-IsQuiet l = ground arith

-- Whatever Core 1 does during the wait, and also when it does nothing, a request made from a clear
-- handshake leaves no stream, no client and a clear handshake.
pub request_stream_stop-IsQuiet :
    (core1 : Link → Link) (l : Link)
    → l.stop_requested ≡ false
    → l.cleanup_done ≡ false
    → IsQuiet (request_stream_stop core1 l).0
unfolding request_stream_stop
request_stream_stop-IsQuiet core1 l asked done = ground arith

-- If there is a client and Core 1 serves the request, it is confirmed, and the client's socket is
-- closed.
pub served_stop :
    (l : Link)
    → l.client_set ≡ true
    → ((request_stream_stop serve_stop l).1 ≡ true)
      × ((request_stream_stop serve_stop l).0.connected ≡ false)
unfolding request_stream_stop serve_stop
served_stop l set = ground arith

-- What a wait or an exit of Core 1's task is assumed to leave alone: a closed socket stays closed,
-- and a stopped stream stopped.
pub record IsPassive (exit : Link → Link) : Type 0 where
  pub stays_closed : (l : Link) → l.connected ≡ false → (exit l).connected ≡ false
  pub stays_stopped : (l : Link) → l.is_streaming ≡ false → (exit l).is_streaming ≡ false

served-IsQuiet :
    (l : Link) → l.client_set ≡ true → (request_stream_stop serve_stop l).0.is_streaming ≡ false
unfolding request_stream_stop serve_stop
served-IsQuiet l set = ground arith

stop_audio_task-closed :
    (exit : Link → Link) (l : Link)
    → IsPassive exit
    → l.connected ≡ false
    → l.is_streaming ≡ false
    → ((stop_audio_task exit l).connected ≡ false) × ((stop_audio_task exit l).is_streaming ≡ false)
unfolding stop_audio_task
stop_audio_task-closed exit l p c s = elim (Bool-cases l.task_handle) [
  | inl alive ↦
      let asked : Link = record l { stream = record l.stream { task_running = false } } in
      let closed = p.stays_closed asked c in let stopped = p.stays_stopped asked s in ground arith
  | inr none_alive ↦ ground arith
]

resume-closed : (was created : Bool) (l : Link) → l.connected ≡ false → resume was created l ≡ l
unfolding resume
resume-closed was created l c = ground arith

halt-served :
    (exit : Link → Link) (l : Link)
    → l.is_streaming ≡ true
    → halt_for_restart serve_stop exit l ≡ stop_audio_task exit (request_stream_stop serve_stop l).0
unfolding halt_for_restart
halt-served exit l on = ground arith

-- Where a client streams, Core 1 serves the stop request, and its task's exit neither opens the
-- socket nor starts a stream, a restart of the driver ends the stream.
pub restart_ends_stream :
    (exit : Link → Link) (created : Bool) (l : Link)
    → l.is_streaming ≡ true
    → l.client_set ≡ true
    → IsPassive exit
    → (restart_i2s serve_stop exit created l).is_streaming ≡ false
unfolding restart_i2s
restart_ends_stream exit created l on set p =
    let (closed, stopped) =
      stop_audio_task-closed exit _ p (served_stop l set).1 (served-IsQuiet l set) in
    rw (halt-served exit l on) (
      subst (λ (m : Link). m.is_streaming ≡ false)
        (sym (resume-closed l.is_streaming created _ closed)) stopped)
