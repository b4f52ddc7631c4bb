-- ===== src/Rtp/Packet/Decode.antt =====
-- A receiver of the packets of sendRTPPacket (src/esp32_rtsp_mic_birdnetgo.ino), written
-- from the formats: RTSP interleaved data (RFC 2326 section 10.12), RTP packets (RFC 3550), L16
-- samples (RFC 3551).
use birdnetgo_m5stack_atom_e.Prelude.{
  ℕ, zero, suc, ◌+◌, ◌-◌, ◌*◌, ◌/◌, ◌%◌, ◌^◌, ◌<◌, ◌≡◌, refl, Option, none, some, List, [], ◌∷◌,
  ◌++◌, map, arith, ◌==◌, ◌&&◌, if◌then◌else◌, length, All, take_all, length-map,
}
use birdnetgo_m5stack_atom_e.Prelude.Words.{u16_mod, u32_mod}
use birdnetgo_m5stack_atom_e.Rtp.Packet.{
  Rtp, payload_size, packet_size, swap_bytes, memory, payload, frame,
}

pub record Received : Type 0 where
  pub sequence : ℕ
  pub timestamp : ℕ
  pub ssrc : ℕ
  pub samples : List ℕ
  pub rest : List ℕ

-- `n` samples, highest byte first, and what follows them.
unfoldable pub decode_samples : ℕ → List ℕ → Option (List ℕ × List ℕ)
decode_samples zero bytes = some ([], bytes)
decode_samples (suc n) (hi ∷ lo ∷ bytes) = elim (decode_samples n bytes) [
  | none ↦ none
  | some (samples, rest) ↦ some ((hi * 256 + lo) ∷ samples, rest)
]
decode_samples (suc n) _ = none

unfoldable pub decode : List ℕ → Option Received
unfolding decode_samples
decode
      (magic ∷ channel ∷ n1 ∷ n0 ∷ version ∷ kind ∷ q1 ∷ q0 ∷ t3 ∷ t2 ∷ t1 ∷ t0 ∷ s3 ∷ s2 ∷ s1 ∷ s0
        ∷ bytes) =
    if (magic == 0x24 && channel == 0) && (version == 0x80 && kind == 96)
    then (elim (decode_samples ((n1 * 256 + n0 - 12) / 2) bytes) [
      | none ↦ none
      | some (samples, rest) ↦ some (record {
        sequence = q1 * 256 + q0;
        timestamp = ((t3 * 256 + t2) * 256 + t1) * 256 + t0;
        ssrc = ((s3 * 256 + s2) * 256 + s1) * 256 + s0;
        samples = samples;
        rest = rest;
      })
    ])
    else none
decode _ = none

length-memory : (xs : List ℕ) → length (memory xs) ≡ length xs * 2
unfolding memory
length-memory [] = omega arith
length-memory (x ∷ xs) = omega (arith, length-memory xs)

payload-whole :
    (samples : List ℕ)
    → length samples * 2 < u16_mod
    → payload samples ≡ memory (map swap_bytes samples)
unfolding payload payload_size
payload-whole samples h =
    take_all _ (memory (map swap_bytes samples))
      (omega (arith, length-memory (map swap_bytes samples), length-map samples swap_bytes))

abbrev pub IsSample : ℕ → Type 0
IsSample s = s < u16_mod

swap_bytes_low : (s : ℕ) → IsSample s → swap_bytes s % 2 ^ 8 ≡ s / 256
unfolding swap_bytes
swap_bytes_low s h = omega arith

swap_bytes_high : (s : ℕ) → IsSample s → swap_bytes s / 2 ^ 8 ≡ s % 256
unfolding swap_bytes
swap_bytes_high s h = omega arith

decode_samples-memory :
    (samples rest : List ℕ)
    → All IsSample samples
    → decode_samples (length samples) (memory (map swap_bytes samples) ++ rest)
      ≡ some (samples, rest)
unfolding decode_samples memory
decode_samples-memory [] rest h = refl
decode_samples-memory (s ∷ samples) rest h =
    let whole : s / 256 * 256 + s % 256 ≡ s = omega arith in
    rw (decode_samples-memory samples rest h.1, swap_bytes_low s h.0, swap_bytes_high s h.0, whole)

-- The fields that the sender keeps within their types.
pub record IsRtp (r : Rtp) : Type 0 where
  pub sequence_lt : r.sequence < u16_mod
  pub timestamp_lt : r.timestamp < u32_mod
  pub ssrc_lt : r.ssrc < u32_mod

sample_count :
    (n : ℕ)
    → 12 + n * 2 < u16_mod
    → (packet_size n / 2 ^ 8 % 2 ^ 8 * 256 + packet_size n % 2 ^ 8 - 12) / 2 ≡ n
unfolding packet_size
sample_count n h = omega arith

big_endian32 :
    (x : ℕ)
    → x < u32_mod
    → ((x / 2 ^ 24 % 2 ^ 8 * 256 + x / 2 ^ 16 % 2 ^ 8) * 256 + x / 2 ^ 8 % 2 ^ 8) * 256 + x % 2 ^ 8
      ≡ x
big_endian32 x h = omega arith

big_endian16 : (x : ℕ) → x < u16_mod → x / 2 ^ 8 % 2 ^ 8 * 256 + x % 2 ^ 8 ≡ x
big_endian16 x h = omega arith

-- A receiver reads from a packet, and whatever follows it, exactly the sequence number, timestamp,
-- source and samples that were sent, where the fields and samples fit their widths and there are
-- at most 32761 samples.
pub decode-frame :
    (r : Rtp) (samples rest : List ℕ)
    → IsRtp r
    → All IsSample samples
    → 12 + length samples * 2 < u16_mod
    → decode (frame r samples ++ rest)
      ≡ some (record {
        sequence = r.sequence;
        timestamp = r.timestamp;
        ssrc = r.ssrc;
        samples = samples;
        rest = rest;
      })
unfolding decode frame
decode-frame r samples rest v all short = rw (
  sample_count (length samples) short,
  payload-whole samples (omega arith),
  decode_samples-memory samples rest all,
  big_endian16 r.sequence v.sequence_lt,
  big_endian32 r.timestamp v.timestamp_lt,
  big_endian32 r.ssrc v.ssrc_lt,
)
