-- ===== src/Audio/Tests.antt =====
-- Runs of the audio processing with whole numbers for the floats, and its theorems there.
pub mod Whole
mod Memory
mod Packets
use birdnetgo_m5stack_atom_e.Prelude.{
  ℕ, ◌+◌, ◌*◌, ◌<◌, ◌≡◌, refl, Bool, true, false, List, [], ◌∷◌, ◌++◌, some, arith, map, length,
}
use birdnetgo_m5stack_atom_e.Prelude.Int.{ℤ, pos, negsuc, leb_int}
use birdnetgo_m5stack_atom_e.Prelude.Words.{u16_mod}
use birdnetgo_m5stack_atom_e.Stream.{Stream}
use birdnetgo_m5stack_atom_e.Stream.Control.{serve_stop}
use birdnetgo_m5stack_atom_e.Rtp.Packet.{Rtp, interleaved_header, rtp_header, payload}
use birdnetgo_m5stack_atom_e.Rtp.Packet.Decode.{decode}
use birdnetgo_m5stack_atom_e.Rtp.Write.{Socket, accept, write_loop, write_all}
use birdnetgo_m5stack_atom_e.Rtp.Send.{Sender, write_packet}
use birdnetgo_m5stack_atom_e.Rtp.Send.Laws.{is_sent}
use birdnetgo_m5stack_atom_e.Audio.Filter.{Biquad, Highpass, process, update_highpass_coeffs}
use birdnetgo_m5stack_atom_e.Audio.Process.{
  Config, Block, refresh_filter, effective_gain, to_sample, process_sample, process_samples,
}
use birdnetgo_m5stack_atom_e.Audio.Process.Laws.{enabling_ignored, to_sample-InRange}
use birdnetgo_m5stack_atom_e.Audio.Task.{
  Capture, failed, captured, Env, Task, sample_pattern, fresh_block, process_block, round,
}
use birdnetgo_m5stack_atom_e.Audio.Task.Laws.{round-decodes}
use birdnetgo_m5stack_atom_e.Audio.Task.Invariant.{IsTask, rounds, rounds-IsTask}
use birdnetgo_m5stack_atom_e.Audio.Tests.Whole.{whole, whole-IsFloat}

-- A filter that takes the difference of a sample and the one before.
abbrev difference : Biquad ℤ
difference = record {
  b0 = pos 1;
  b1 = negsuc 0;
  b2 = pos 0;
  a1 = pos 0;
  a2 = pos 0;
  x1 = pos 0;
  x2 = pos 0;
  y1 = pos 0;
  y2 = pos 0;
}

abbrev set_up : Highpass ℤ
set_up = record { hpf = difference; config_rate = 16000; config_cutoff = 300 }

abbrev config : Config ℤ
config = record {
  sample_rate = 16000;
  gain = pos 2;
  highpass = true;
  cutoff_hz = 300;
  agc = false;
  led_mode = 2;
}

abbrev block : Block ℤ
block = record { filter = difference; clipped = false; peak = pos 0; sum_squares = pos 0 }

filtered :
    (process_samples true (pos 2) block (pos 5 ∷ pos 9 ∷ pos 7 ∷ [])).1
    ≡ pos 10 ∷ pos 8 ∷ negsuc 3 ∷ []
unfolding process_samples process_sample
filtered = refl

enabling_ignored_example :
    let off = update_highpass_coeffs false 16000 300 set_up in
    refresh_filter config (update_highpass_coeffs true 16000 300 off) off ≡ off
enabling_ignored_example = enabling_ignored config set_up refl

abbrev streaming : Sender
streaming = record {
  rtp = record {
    sequence = 65535;
    timestamp = 4294967295;
    ssrc = 0x43215678;
    packets_sent = 0;
    packets_dropped = 0;
    write_failures = 0;
  };
  stream = record {
    client_set = true;
    is_streaming = true;
    stop_requested = false;
    cleanup_done = false;
    core1_owns_led = true;
    task_running = true;
    task_handle = true;
  };
  socket = record {
    replies = λ n. record { elapsed_ms = 3; wrote = pos 10 };
    rounds = 0;
    wire = [];
    connected = true;
  };
}

abbrev pub task : Task ℤ
task = record {
  channel = record { sender = streaming; incoming = []; last_check_ms = 0; last_activity_ms = 0 };
  local = set_up;
  multiplier = pos 1;
  published = pos 1;
  meter = record {
    last_peak = 0;
    clipped_last = false;
    clip_count = 0;
    peak_hold = 0;
    hold_until_ms = 0;
  };
  led = record { red = 0; green = 0; blue = 0 };
  last_led_ms = 0;
  consecutive_errors = 9;
  i2s_errors = 9;
  packet_count = 0;
}

abbrev pub env : Capture → Env ℤ
env capture = record {
  now_ms = 1000;
  config = config;
  shared = set_up;
  capture = capture;
  codec = record { atoi = λ s. pos 1; decimal = λ n. [] };
}

task-IsTask : IsTask whole-IsFloat task
task-IsTask = ground arith

rounds-IsTask_example :
    IsTask whole-IsFloat (rounds (env failed ∷ env (captured (pos 5 ∷ pos 9 ∷ [])) ∷ []) task)
rounds-IsTask_example =
    rounds-IsTask whole-IsFloat (env failed ∷ env (captured (pos 5 ∷ pos 9 ∷ [])) ∷ []) task
      task-IsTask
