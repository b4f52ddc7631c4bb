-- ===== src/Rtp/Send/Failing.antt =====
-- What happens to a stream whose packets cannot be written.
use birdnetgo_m5stack_atom_e.Prelude.{
  ℕ, ◌+◌, ◌%◌, ◌<◌, ◌≡◌, refl, true, false, List, [], ◌∷◌, ◌++◌, arith, length,
}
use birdnetgo_m5stack_atom_e.Prelude.Words.{u32_mod}
use birdnetgo_m5stack_atom_e.Stream.{drop_client}
use birdnetgo_m5stack_atom_e.Rtp.Write.{Socket, accepted, write_all, write_loop}
use birdnetgo_m5stack_atom_e.Rtp.Packet.{Rtp, frame, interleaved_header}
use birdnetgo_m5stack_atom_e.Rtp.Send.{Sender, write_packet, send_rtp_packet, max_write_failures}
use birdnetgo_m5stack_atom_e.Rtp.Send.Laws.{write_packet-IsWritten, send_all}

-- What a packet that could not be written whole leaves behind.
pub record IsTorn (s : Sender) (samples : List ℕ) (s' : Sender) : Type 0 where
  pub torn_part : List ℕ
  pub missing : List ℕ
  pub parts : torn_part ++ missing ≡ frame s.rtp samples
  pub on_wire : s'.socket.wire ≡ s.socket.wire ++ torn_part
  pub connected : s'.socket.connected ≡ true
  pub stream : s'.stream ≡ s.stream
  pub counted : s'.rtp.write_failures ≡ s.rtp.write_failures + 1
  pub dropped : s'.rtp.packets_dropped ≡ (s.rtp.packets_dropped + 1) % u32_mod
  pub sequence : s'.rtp.sequence ≡ s.rtp.sequence

-- Where a packet cannot be written whole on a connected socket, and this is not yet the 100th failure
-- in a row, the part of it that was accepted stays on the wire, the connection stays open for the
-- next packet, the failure is counted, and the sequence number stays.
pub failed-IsTorn :
    (s : Sender) (samples : List ℕ)
    → s.socket.connected ≡ true
    → (write_packet s.rtp s.socket samples).1 ≡ false
    → s.rtp.write_failures + 1 < max_write_failures
    → IsTorn s samples (send_rtp_packet s samples)
unfolding send_rtp_packet
failed-IsTorn s samples on failed few =
    let w = write_packet-IsWritten s.rtp s.socket samples in
    record {
      torn_part = w.sent;
      missing = w.unsent;
      parts = w.parts;
      on_wire = ground arith;
      connected = ground arith;
      stream = ground arith;
      counted = ground arith;
      dropped = ground arith;
      sequence = ground arith;
    }

-- The 100th failure in a row on a connected socket closes the connection, clears the stream's flags and starts the count
-- again.
pub failed_disconnects :
    (s : Sender) (samples : List ℕ)
    → s.socket.connected ≡ true
    → (write_packet s.rtp s.socket samples).1 ≡ false
    → s.rtp.write_failures + 1 ≡ max_write_failures
    → let s' = send_rtp_packet s samples in
      (s'.socket.connected ≡ false)
      × (s'.stream ≡ drop_client s.stream)
      × (s'.rtp.write_failures ≡ 0)
unfolding send_rtp_packet
failed_disconnects s samples on failed last = (ground arith, ground arith, ground arith)

-- A socket that accepts nothing.
pub record IsDead (s : Socket) : Type 0 where
  pub refuses : (n : ℕ) → accepted (s.replies n).wrote ≡ 0

dead_write :
    (s : Socket) (byte : ℕ) (rest : List ℕ)
    → IsDead s
    → write_all s (byte ∷ rest) ≡ (record s { rounds = s.rounds + 1 }, false)
unfolding write_all write_loop
dead_write s byte rest d = ground (arith, d.refuses s.rounds)

dead_packet :
    (r : Rtp) (s : Socket) (samples : List ℕ)
    → IsDead s
    → write_packet r s samples ≡ (record s { rounds = s.rounds + 1 }, false)
unfolding write_packet interleaved_header
dead_packet r s samples d = rw (dead_write s _ _ d)

dead_account :
    (s : Sender) (samples : List ℕ)
    → IsDead s.socket
    → s.socket.connected ≡ true
    → s.rtp.write_failures + 1 < max_write_failures
    → send_rtp_packet s samples ≡ record s {
      socket = record s.socket { rounds = s.socket.rounds + 1 };
      rtp = record s.rtp {
        packets_dropped = (s.rtp.packets_dropped + 1) % u32_mod;
        write_failures = s.rtp.write_failures + 1;
      };
    }
unfolding send_rtp_packet
dead_account s samples d on few = ground (arith, dead_packet s.rtp s.socket samples d)

refused_again :
    (s : Sender) (samples : List ℕ)
    → IsDead s.socket
    → s.socket.connected ≡ true
    → s.rtp.write_failures + 1 < max_write_failures
    → IsDead (send_rtp_packet s samples).socket
      × ((send_rtp_packet s samples).socket.connected ≡ true)
      × ((send_rtp_packet s samples).rtp.write_failures ≡ s.rtp.write_failures + 1)
refused_again s samples d on few =
    rw (dead_account s samples d on few) (record { refuses = d.refuses }, on, refl)

-- On an open connection that accepts nothing, with less than 100 failures so far, a run of packets that brings the failures in a row to 100
-- ends with the client closed and no stream left.
pub dead_stream_closes :
    (s : Sender) (blocks : List (List ℕ))
    → IsDead s.socket
    → s.socket.connected ≡ true
    → s.rtp.write_failures + length blocks ≡ max_write_failures
    → s.rtp.write_failures < max_write_failures
    → let s' = send_all s blocks in
      (s'.socket.connected ≡ false)
      × (s'.stream.client_set ≡ false)
      × (s'.stream.is_streaming ≡ false)
unfolding send_all
dead_stream_closes s [] d on e lt = absurd (omega arith)
dead_stream_closes s (block ∷ []) d on e lt =
    let (off, flags, zeroed) =
      failed_disconnects s block on (ground (arith, dead_packet s.rtp s.socket block d))
        (omega arith) in
    (off, ground arith, ground arith)
dead_stream_closes s (block ∷ next ∷ blocks) d on e lt =
    let (d', on', more) = refused_again s block d on (omega arith) in
    dead_stream_closes (send_rtp_packet s block) (next ∷ blocks) d' on' (omega arith) (omega arith)
