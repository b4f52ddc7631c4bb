-- ===== src/Rtp/Packet.antt =====
-- The bytes of a packet: the interleaved header, the RTP header and the samples, highest byte
-- first (src/esp32_rtsp_mic_birdnetgo.ino, sendRTPPacket). A sample is the pattern of its int16_t.
pub mod Decode
use birdnetgo_m5stack_atom_e.Prelude.{
  ℕ, ◌+◌, ◌*◌, ◌/◌, ◌%◌, ◌^◌, List, [], ◌∷◌, ◌++◌, map, length, take,
}
use birdnetgo_m5stack_atom_e.Prelude.Words.{u16_mod}

pub record Rtp : Type 0 where
  pub sequence : ℕ  -- uint16_t
  pub timestamp : ℕ  -- uint32_t
  pub ssrc : ℕ  -- uint32_t
  pub packets_sent : ℕ  -- unsigned long
  pub packets_dropped : ℕ  -- unsigned long
  pub write_failures : ℕ  -- uint32_t

-- `(x >> k) & 0xFF`
abbrev pub byte_at : ℕ → ℕ → ℕ
byte_at x k = x / 2 ^ k % 2 ^ 8

unfoldable pub payload_size : ℕ → ℕ
payload_size samples = samples * 2 % u16_mod

unfoldable pub packet_size : ℕ → ℕ
unfolding payload_size
packet_size samples = (12 + payload_size samples) % u16_mod

unfoldable pub interleaved_header : ℕ → List ℕ
unfolding packet_size
interleaved_header samples =
    0x24 ∷ 0x00 ∷ byte_at (packet_size samples) 8 ∷ packet_size samples % 2 ^ 8 ∷ []

unfoldable pub rtp_header : Rtp → List ℕ
rtp_header r =
    0x80
    ∷ 96
    ∷ byte_at r.sequence 8
    ∷ r.sequence % 2 ^ 8
    ∷ byte_at r.timestamp 24
    ∷ byte_at r.timestamp 16
    ∷ byte_at r.timestamp 8
    ∷ r.timestamp % 2 ^ 8
    ∷ byte_at r.ssrc 24
    ∷ byte_at r.ssrc 16
    ∷ byte_at r.ssrc 8
    ∷ r.ssrc % 2 ^ 8
    ∷ []

-- `(uint16_t)((s << 8) | (s >> 8))`; the two operands have no bit in common.
unfoldable pub swap_bytes : ℕ → ℕ
swap_bytes s = (s * 2 ^ 8 + s / 2 ^ 8) % u16_mod

-- The memory of an array of int16_t on a little-endian machine.
unfoldable pub memory : List ℕ → List ℕ
memory [] = []
memory (s ∷ rest) = s % 2 ^ 8 ∷ s / 2 ^ 8 ∷ memory rest

unfoldable pub payload : List ℕ → List ℕ
unfolding payload_size memory swap_bytes
payload samples = take (payload_size (length samples)) (memory (map swap_bytes samples))

unfoldable pub frame : Rtp → List ℕ → List ℕ
unfolding interleaved_header rtp_header payload
frame r samples = interleaved_header (length samples) ++ (rtp_header r ++ payload samples)
