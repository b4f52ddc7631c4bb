-- ===== src/Rtsp/Tests.antt =====
-- The laws of the RTSP server at concrete bytes and requests.
mod Pieces
use birdnetgo_m5stack_atom_e.Prelude.{◌≡◌, refl, true, false, [], ◌∷◌, ◌++◌, arith, length, some}
use birdnetgo_m5stack_atom_e.Prelude.Text.{Text, text}
use birdnetgo_m5stack_atom_e.Stream.Control.Laws.{IsQuiet}
use birdnetgo_m5stack_atom_e.Rtsp.Command.{
  Env, Rtsp, setup, play, teardown, starts_with, index_of_text, method_of, cseq_of, crlf,
  answer_head, handle_rtsp_command,
}

first_cseq :
    index_of_text
      (text "CSeq: ")
      ((text "PLAY " ++ crlf) ++ (text "CSeq: " ++ (text "42" ++ 13 ∷ 10 ∷ [])))
    ≡ some (length (text "PLAY " ++ crlf))
unfolding index_of_text starts_with
first_cseq = refl

abbrev env : Env
env = record {
  now_ms = 70;
  local_ip = text "10.0.0.2";
  decimal = λ n. n ∷ [];
  session_number = 100000007;
  sample_rate = 16000;
  created = true;
  core1 = λ l. l;
}

abbrev idle : Rtsp
idle = record {
  session_id = [];
  last_activity_ms = 0;
  last_stats_reset = 0;
  last_play_ms = 0;
  play_count = 0;
  rtp = record {
    sequence = 9;
    timestamp = 8;
    ssrc = 7;
    packets_sent = 6;
    packets_dropped = 5;
    write_failures = 4;
  };
  link = record {
    stream = record {
      client_set = false;
      is_streaming = false;
      stop_requested = false;
      cleanup_done = false;
      core1_owns_led = false;
      task_running = false;
      task_handle = false;
    };
    connected = true;
  };
}

is_setup : method_of (text "SETUP *") ≡ setup
unfolding method_of starts_with
is_setup = refl

is_play : method_of (text "PLAY *") ≡ play
unfolding method_of starts_with
is_play = refl

is_teardown : method_of (text "TEARDOWN *") ≡ teardown
unfolding method_of starts_with
is_teardown = refl
