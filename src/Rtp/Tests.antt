-- ===== src/Rtp/Tests.antt =====
-- Runs of the RTP sender, and its theorems at concrete packets.
use birdnetgo_m5stack_atom_e.Prelude.{
  ℕ, ◌≡◌, refl, true, false, List, [], ◌∷◌, ◌++◌, some, arith, replicate, leb, if◌then◌else◌,
}
use birdnetgo_m5stack_atom_e.Prelude.Int.{pos, negsuc}
use birdnetgo_m5stack_atom_e.Stream.{Stream}
use birdnetgo_m5stack_atom_e.Rtp.Write.{Socket, accept, write_loop, write_all}
use birdnetgo_m5stack_atom_e.Rtp.Packet.{Rtp, interleaved_header, rtp_header, payload, frame}
use birdnetgo_m5stack_atom_e.Rtp.Packet.Decode.{decode, decode-frame}
use birdnetgo_m5stack_atom_e.Rtp.Send.{Sender, write_packet, send_rtp_packet}
use birdnetgo_m5stack_atom_e.Rtp.Send.Laws.{IsSent, is_sent, send_rtp_packet-IsSent, send_all}
use birdnetgo_m5stack_atom_e.Rtp.Send.Failing.{IsTorn, failed-IsTorn, dead_stream_closes}

abbrev rtp : Rtp
rtp = record {
  sequence = 65535;
  timestamp = 4294967295;
  ssrc = 0x43215678;
  packets_sent = 0;
  packets_dropped = 0;
  write_failures = 99;
}

abbrev stream : Stream
stream = record {
  client_set = true;
  is_streaming = true;
  stop_requested = false;
  cleanup_done = false;
  core1_owns_led = true;
  task_running = true;
  task_handle = true;
}

abbrev samples : List ℕ
samples = 0x0102 ∷ 0xfffe ∷ []

-- The bytes go in parts of ten.
abbrev slow_socket : Socket
slow_socket = record {
  replies = λ n. record { elapsed_ms = 3; wrote = pos 10 };
  rounds = 0;
  wire = [];
  connected = true;
}

-- Two rounds, and then nothing.
abbrev torn_socket : Socket
torn_socket = record slow_socket {
  replies = λ n.
      if leb n 1
      then record { elapsed_ms = 0; wrote = pos 5 }
      else record { elapsed_ms = 0; wrote = negsuc 0 };
}

abbrev dead_socket : Socket
dead_socket = record slow_socket { replies = λ n. record { elapsed_ms = 0; wrote = negsuc 0 } }

abbrev sender : Socket → ℕ → Sender
sender socket failures = record {
  rtp = record rtp { write_failures = failures };
  stream = stream;
  socket = socket;
}

decode-frame_example :
    decode (frame rtp samples ++ 0x24 ∷ [])
    ≡ some (record {
      sequence = 65535;
      timestamp = 4294967295;
      ssrc = 0x43215678;
      samples = samples;
      rest = 0x24 ∷ [];
    })
decode-frame_example =
    decode-frame rtp samples (0x24 ∷ []) (omega arith) (omega arith) (omega arith)

slow_sends : is_sent (sender slow_socket 99) samples ≡ true
unfolding write_packet write_all write_loop interleaved_header rtp_header accept payload
slow_sends = refl

send_rtp_packet-IsSent_example :
    IsSent (sender slow_socket 99) samples (send_rtp_packet (sender slow_socket 99) samples)
send_rtp_packet-IsSent_example = send_rtp_packet-IsSent (sender slow_socket 99) samples slow_sends

torn_fails : (write_packet (sender torn_socket 5).rtp torn_socket samples).1 ≡ false
unfolding write_packet write_all write_loop interleaved_header rtp_header accept
torn_fails = refl

failed-IsTorn_example :
    IsTorn (sender torn_socket 5) samples (send_rtp_packet (sender torn_socket 5) samples)
failed-IsTorn_example = failed-IsTorn (sender torn_socket 5) samples refl torn_fails (omega arith)

dead_stream_closes_example :
    let s' = send_all (sender dead_socket 97) (replicate 3 samples) in
    (s'.socket.connected ≡ false)
    × (s'.stream.client_set ≡ false)
    × (s'.stream.is_streaming ≡ false)
dead_stream_closes_example =
    dead_stream_closes (sender dead_socket 97) (replicate 3 samples)
      (record { refuses = λ n. refl }) refl refl (omega arith)
