-- ===== src/Audio/Tests/Packets.antt =====
-- Two blocks on the wire, across the wrap of the sequence number and of the timestamp.
use birdnetgo_m5stack_atom_e.Prelude.{ℕ, ◌≡◌, refl, some, List, [], ◌∷◌, ◌++◌, arith, length, map}
use birdnetgo_m5stack_atom_e.Prelude.Int.{ℤ, pos}
use birdnetgo_m5stack_atom_e.Rtp.Packet.{interleaved_header, rtp_header, payload}
use birdnetgo_m5stack_atom_e.Rtp.Write.{accept, write_loop, write_all}
use birdnetgo_m5stack_atom_e.Rtp.Send.{write_packet, count_sent, account, send_rtp_packet}
use birdnetgo_m5stack_atom_e.Audio.Process.{
  effective_gain, refresh_filter, process_sample, process_samples,
}
use birdnetgo_m5stack_atom_e.Audio.Task.{
  failed, Env, sample_pattern, process_block, stream_block, capture_block, fresh_block, measure,
  round,
}
use birdnetgo_m5stack_atom_e.Audio.Task.Commands.{serve_commands}
use birdnetgo_m5stack_atom_e.Audio.Task.Invariant.{rounds}
use birdnetgo_m5stack_atom_e.Audio.Task.Packets.{
  decode_all, in_order, IsStreaming, capturing, Sends, outputs, rounds-decode,
}
use birdnetgo_m5stack_atom_e.Audio.Tests.{task, env}
use birdnetgo_m5stack_atom_e.Audio.Tests.Whole.{whole}

abbrev blocks : List (Env ℤ × List ℤ)
blocks = (env failed, pos 5 ∷ pos 9 ∷ []) ∷ (env failed, pos 7 ∷ []) ∷ []

task-IsStreaming : IsStreaming task
task-IsStreaming = record {
  unasked = refl;
  streams = refl;
  set = refl;
  silent = refl;
  fits = record { sequence_lt = omega arith; timestamp_lt = omega arith; ssrc_lt = omega arith };
}

blocks-Sends : Sends blocks task
unfolding write_packet write_all write_loop interleaved_header rtp_header accept payload
    process_block effective_gain refresh_filter process_samples process_sample sample_pattern round
    stream_block capture_block fresh_block send_rtp_packet count_sent account serve_commands measure
blocks-Sends = (omega arith, omega arith, refl, (omega arith, omega arith, refl, tt))

rounds-decode_example :
    (bytes : List ℕ) × ((rounds (map capturing blocks) task).channel.sender.socket.wire
      ≡ [] ++ bytes)
    × (decode_all (length blocks) (bytes ++ [])
        ≡ some (in_order 65535 4294967295 0x43215678 (outputs blocks task), []))
rounds-decode_example = rounds-decode blocks task [] task-IsStreaming blocks-Sends
