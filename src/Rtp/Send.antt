-- ===== src/Rtp/Send.antt =====
-- sendRTPPacket (src/esp32_rtsp_mic_birdnetgo.ino).
pub mod Laws
pub mod Failing
use birdnetgo_m5stack_atom_e.Prelude.{
  ℕ, ◌+◌, ◌%◌, Bool, true, false, List, length, leb, not, if◌then◌else◌,
}
use birdnetgo_m5stack_atom_e.Prelude.Words.{u16_mod, add32}
use birdnetgo_m5stack_atom_e.Stream.{Stream, drop_client}
use birdnetgo_m5stack_atom_e.Rtp.Write.{Socket, write_all}
use birdnetgo_m5stack_atom_e.Rtp.Packet.{Rtp, interleaved_header, rtp_header, payload}

abbrev pub max_write_failures : ℕ
max_write_failures = 100

pub record Sender : Type 0 where
  pub rtp : Rtp
  pub stream : Stream
  pub socket : Socket

-- `client.stop()` and the flags with it.
unfoldable pub disconnect : Sender → Sender
disconnect s = record s {
  socket = record s.socket { connected = false };
  stream = drop_client s.stream;
}

-- `writeAll(inter) && writeAll(header) && writeAll(data)`
unfoldable pub write_packet : Rtp → Socket → List ℕ → Socket × Bool
write_packet r socket samples =
    let (socket1, ok1) = write_all socket (interleaved_header (length samples)) in
    if not ok1
    then (socket1, false)
    else let (socket2, ok2) = write_all socket1 (rtp_header r) in
      if not ok2 then (socket2, false) else write_all socket2 (payload samples)

unfoldable pub count_sent : Rtp → ℕ → Rtp
count_sent r samples = record r {
  sequence = (r.sequence + 1) % u16_mod;
  timestamp = add32 r.timestamp samples;
  packets_sent = add32 r.packets_sent 1;
  write_failures = 0;
}

unfoldable pub count_dropped : Rtp → Rtp
count_dropped r = record r {
  packets_dropped = add32 r.packets_dropped 1;
  write_failures = add32 r.write_failures 1;
}

-- What follows the writes.
unfoldable pub account : Sender → ℕ → Bool → Sender
unfolding count_sent count_dropped disconnect
account s samples true = record s { rtp = count_sent s.rtp samples }
account s samples false =
    let dropped = count_dropped s.rtp in
    if leb max_write_failures dropped.write_failures
    then disconnect (record s { rtp = record dropped { write_failures = 0 } })
    else record s { rtp = dropped }

unfoldable pub send_rtp_packet : Sender → List ℕ → Sender
unfolding account disconnect
send_rtp_packet s samples =
    if not s.socket.connected
    then disconnect s
    else let (socket', success) = write_packet s.rtp s.socket samples in
      account (record s { socket = socket' }) (length samples) success
