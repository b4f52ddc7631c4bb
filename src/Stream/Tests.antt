-- ===== src/Stream/Tests.antt =====
-- The laws of the stream's control at concrete states.
use birdnetgo_m5stack_atom_e.Prelude.{◌≡◌, true, false, refl, List, [], ◌∷◌, arith, replicate, All}
use birdnetgo_m5stack_atom_e.Stream.Control.{Link, serve_stop, restart_i2s}
use birdnetgo_m5stack_atom_e.Stream.Control.Laws.{IsPassive, restart_ends_stream}
use birdnetgo_m5stack_atom_e.Stream.Handshake.{
  top, entering, elsewhere, polling, stopped, System, asks, polls, ask, core0_step, core1_step,
  Turn, acts, moves, turn, run,
}
use birdnetgo_m5stack_atom_e.Stream.Handshake.Exclusive.{
  touches, IsOrderly, IsPatient, confirmed_alone,
}
use birdnetgo_m5stack_atom_e.Stream.Handshake.Late.{core1_run, stop_confirmed}

abbrev playing : Link
playing = record {
  stream = record {
    client_set = true;
    is_streaming = true;
    stop_requested = false;
    cleanup_done = false;
    core1_owns_led = true;
    task_running = true;
    task_handle = true;
  };
  connected = true;
}

-- Core 1 that hangs.
abbrev idle : Link → Link
idle l = l

idle-IsPassive : IsPassive idle
idle-IsPassive = record { stays_closed = λ l h. h; stays_stopped = λ l h. h }

restart_ends_stream_example : (restart_i2s serve_stop idle true playing).is_streaming ≡ false
restart_ends_stream_example = restart_ends_stream idle true playing refl refl idle-IsPassive

abbrev both : System
both = record { flags = playing.stream; core0 = elsewhere; core1 = top }

both-IsOrderly : IsOrderly both
both-IsOrderly = ground arith

-- Core 1 enters a round, Core 0 asks for a stop, Core 1 ends the round and confirms.
abbrev stop_run : List Turn
stop_run =
    moves false
    ∷ moves false
    ∷ acts asks
    ∷ moves false
    ∷ moves false
    ∷ moves false
    ∷ acts polls
    ∷ moves false
    ∷ moves false
    ∷ moves false
    ∷ acts polls
    ∷ []

stop_run-IsPatient : All IsPatient stop_run
stop_run-IsPatient = (tt, (tt, (tt, (tt, (tt, (tt, (tt, (tt, (tt, (tt, (tt, tt)))))))))))

confirmed_alone_example : touches (run stop_run both).core1 ≡ false
unfolding run turn core0_step core1_step ask
confirmed_alone_example = confirmed_alone stop_run both stop_run-IsPatient both-IsOrderly refl

stop_confirmed_example :
    (core0_step polls
      (core1_run (replicate 10 true) (record playing.stream { stop_requested = true }) entering).0
      polling).1
    ≡ stopped
stop_confirmed_example =
    stop_confirmed (replicate 10 true) (record playing.stream { stop_requested = true }) entering
      refl refl (omega arith)
