-- ===== src/Audio/Task/Packets.antt =====
-- The packets of successive rounds of audioCaptureTask (src/esp32_rtsp_mic_birdnetgo.ino) as a receiver
-- reads them.
use mathlib.Core.Option
use mathlib.Core.List.{append_assoc, append-nil}
use birdnetgo_m5stack_atom_e.Prelude.{
  ℕ, zero, suc, ◌+◌, ◌*◌, ◌%◌, ◌<◌, ◌≡◌, refl, sym, ap, ◌∙◌, true, false, Option, none, some, List,
  [], ◌∷◌, ◌++◌, arith, length, map, All,
}
use birdnetgo_m5stack_atom_e.Prelude.Int.{ℤ}
use birdnetgo_m5stack_atom_e.Prelude.Words.{u16_mod, u32_mod}
use birdnetgo_m5stack_atom_e.Prelude.Float.{Float}
use birdnetgo_m5stack_atom_e.Stream.{Stream}
use birdnetgo_m5stack_atom_e.Rtp.Packet.{Rtp, frame}
use birdnetgo_m5stack_atom_e.Rtp.Packet.Decode.{Received, decode, IsSample, IsRtp, decode-frame}
use birdnetgo_m5stack_atom_e.Rtp.Send.{Sender, send_rtp_packet}
use birdnetgo_m5stack_atom_e.Rtp.Send.Laws.{is_sent, send_rtp_packet-IsSent}
use birdnetgo_m5stack_atom_e.Audio.Task.{
  captured, Env, Task, sample_pattern, process_block, stream_block, round,
}
use birdnetgo_m5stack_atom_e.Audio.Task.Commands.{Codec, Channel, serve_commands}
use birdnetgo_m5stack_atom_e.Audio.Task.Laws.{patterns, length-output, round-streams}
use birdnetgo_m5stack_atom_e.Audio.Task.Invariant.{rounds}

-- What a receiver keeps of a packet: sequence number, timestamp, source and samples.
abbrev pub Heard : Type 0
Heard = ℕ × ℕ × ℕ × List ℕ

abbrev heard_first : Received → List Heard × List ℕ → List Heard × List ℕ
heard_first p (heard, rest) = ((p.sequence, p.timestamp, p.ssrc, p.samples) ∷ heard, rest)

abbrev follow :
    Option Received → (List ℕ → Option (List Heard × List ℕ)) → Option (List Heard × List ℕ)
follow none next = none
follow (some p) next = Option.map (heard_first p) (next p.rest)

-- A receiver of `n` packets one after the other: what it has heard, and the bytes behind them.
pub decode_all : ℕ → List ℕ → Option (List Heard × List ℕ)
decode_all zero bytes = some ([], bytes)
decode_all (suc n) bytes = follow (decode bytes) (decode_all n)

-- The packets of some blocks: sequence numbers in a row, and timestamps that count samples.
abbrev pub in_order : ℕ → ℕ → ℕ → List (List ℕ) → List Heard
in_order sequence timestamp ssrc [] = []
in_order sequence timestamp ssrc (b ∷ bs) =
    (sequence, timestamp, ssrc, b)
    ∷ in_order ((sequence + 1) % u16_mod) ((timestamp + length b) % u32_mod) ssrc bs

renumber :
    {s s' t t' c c' : ℕ} (bs : List (List ℕ))
    → s ≡ s'
    → t ≡ t'
    → c ≡ c'
    → in_order s t c bs ≡ in_order s' t' c' bs
renumber bs e1 e2 e3 = rw (e1, e2, e3) refl

decode_all-frame :
    (n : ℕ) (r : Rtp) (samples bytes rest : List ℕ) (heard : List Heard)
    → IsRtp r
    → All IsSample samples
    → 12 + length samples * 2 < u16_mod
    → decode_all n (bytes ++ rest) ≡ some (heard, rest)
    → decode_all (suc n) ((frame r samples ++ bytes) ++ rest)
      ≡ some ((r.sequence, r.timestamp, r.ssrc, samples) ∷ heard, rest)
unfolding decode_all
decode_all-frame n r samples bytes rest heard v all short later =
    rw
      (
        append_assoc (frame r samples) bytes rest,
        decode-frame r samples (bytes ++ rest) v all short,
        later,
      )
      refl

-- The task streams, and its client is silent.
pub record IsStreaming {ℓ} {F : Type ℓ} (t : Task F) : Type 0 where
  pub unasked : t.channel.sender.stream.stop_requested ≡ false
  pub streams : t.channel.sender.stream.is_streaming ≡ true
  pub set : t.channel.sender.stream.client_set ≡ true
  pub silent : t.channel.incoming ≡ []
  pub fits : IsRtp t.channel.sender.rtp

serve_commands-silent :
    (codec : Codec) (now_ms : ℕ) (c : Channel)
    → c.incoming ≡ []
    → let c' = serve_commands codec now_ms c in (c'.sender ≡ c.sender) × (c'.incoming ≡ [])
unfolding serve_commands
serve_commands-silent codec now_ms c silent =
    let none_left : length c.incoming ≡ 0 = rw silent refl in ground arith

module _ {ℓ} {F : Type ℓ} ⦃f : Float F⦄ where
  abbrev pub capturing : Env F × List ℤ → Env F
  capturing (env, zs) = record env { capture = captured zs }

  -- The processed samples of a round.
  abbrev pub output : Env F × List ℤ → Task F → List ℕ
  output (env, zs) t = map sample_pattern (process_block (capturing (env, zs)) t zs).1

  -- Each round captures a block, of which the socket takes the packet.
  abbrev pub Sends : List (Env F × List ℤ) → Task F → Type 0
  Sends [] t = Unit {0}
  Sends (b ∷ bs) t =
      (0 < length b.1)
      × (12 + length b.1 * 2 < u16_mod)
      × (is_sent t.channel.sender (output b t) ≡ true)
      × Sends bs (round (capturing b) t)

  pub outputs : List (Env F × List ℤ) → Task F → List (List ℕ)
  outputs [] t = []
  outputs (b ∷ bs) t = output b t ∷ outputs bs (round (capturing b) t)

  -- A round that sends: the packet on the wire, the next packet's fields, and the stream goes on.
  record IsRound (t : Task F) (samples : List ℕ) (t' : Task F) : Type 0 where
    goes_on : IsStreaming t'
    on_wire :
        t'.channel.sender.socket.wire
        ≡ t.channel.sender.socket.wire ++ frame t.channel.sender.rtp samples
    sequence : t'.channel.sender.rtp.sequence ≡ (t.channel.sender.rtp.sequence + 1) % u16_mod
    timestamp :
        t'.channel.sender.rtp.timestamp
        ≡ (t.channel.sender.rtp.timestamp + length samples) % u32_mod
    ssrc : t'.channel.sender.rtp.ssrc ≡ t.channel.sender.rtp.ssrc

  stream_block-IsRound :
      (env : Env F) (t : Task F) (zs : List ℤ)
      → IsStreaming t
      → is_sent t.channel.sender (map sample_pattern (process_block env t zs).1) ≡ true
      → IsRound t (map sample_pattern (process_block env t zs).1) (stream_block env t zs)
  unfolding stream_block
  stream_block-IsRound env t zs v sent =
      let samples = map sample_pattern (process_block env t zs).1 in
      let one = send_rtp_packet-IsSent t.channel.sender samples sent in
      let asked : Channel = record t.channel {
        sender = send_rtp_packet t.channel.sender samples;
      } in
      let (same, silent) = serve_commands-silent env.codec env.now_ms asked v.silent in
      let stream = ap (λ (s : Sender). s.stream) same ∙ one.stream in
      let sequence = ap (λ (s : Sender). s.rtp.sequence) same ∙ one.sequence in
      let timestamp = ap (λ (s : Sender). s.rtp.timestamp) same ∙ one.timestamp in
      let ssrc = ap (λ (s : Sender). s.rtp.ssrc) same ∙ one.ssrc in
      record {
        goes_on = record {
          unasked = ap (λ (s : Stream). s.stop_requested) stream ∙ v.unasked;
          streams = ap (λ (s : Stream). s.is_streaming) stream ∙ v.streams;
          set = ap (λ (s : Stream). s.client_set) stream ∙ v.set;
          silent = silent;
          fits = record {
            sequence_lt = omega (arith, sequence);
            timestamp_lt = omega (arith, timestamp);
            ssrc_lt = omega (arith, ssrc, v.fits.ssrc_lt);
          };
        };
        on_wire = ap (λ (s : Sender). s.socket.wire) same ∙ one.on_wire;
        sequence = sequence;
        timestamp = timestamp;
        ssrc = ssrc;
      }

  round-IsRound :
      (b : Env F × List ℤ) (t : Task F)
      → IsStreaming t
      → 0 < length b.1
      → is_sent t.channel.sender (output b t) ≡ true
      → IsRound t (output b t) (round (capturing b) t)
  round-IsRound (env, []) t v some_samples sent = absurd (omega (arith, some_samples))
  round-IsRound (env, z ∷ zs) t v some_samples sent =
      rw (round-streams (capturing (env, z ∷ zs)) t z zs v.unasked v.streams v.set refl)
        (stream_block-IsRound (capturing (env, z ∷ zs)) t (z ∷ zs) v sent)

  output-IsSample : (b : Env F × List ℤ) (t : Task F) → All IsSample (output b t)
  output-IsSample (env, zs) t = patterns (process_block (capturing (env, zs)) t zs).1

  -- Successive rounds that each capture a block and send its packet, to a client that sends no
  -- commands, put bytes on the wire from which a receiver reads one packet after the other: sequence
  -- numbers in a row, timestamps that count the samples, and the processed samples of every block; for
  -- blocks of at most 32761 samples.
  pub rounds-decode :
      (bs : List (Env F × List ℤ)) (t : Task F) (rest : List ℕ)
      → IsStreaming t
      → Sends bs t
      → let r = t.channel.sender.rtp in
        (bytes : List ℕ) × ((rounds (map capturing bs) t).channel.sender.socket.wire
          ≡ t.channel.sender.socket.wire ++ bytes)
        × (decode_all (length bs) (bytes ++ rest)
            ≡ some (in_order r.sequence r.timestamp r.ssrc (outputs bs t), rest))
  unfolding rounds outputs decode_all
  rounds-decode [] t rest v sends = ([], sym (append-nil t.channel.sender.socket.wire), refl)
  rounds-decode (b ∷ bs) t rest v sends =
      let one = round-IsRound b t v sends.0 sends.2 in
      let (bytes, on_wire, decoded) =
        rounds-decode bs (round (capturing b) t) rest one.goes_on sends.3 in
      let packet = frame t.channel.sender.rtp (output b t) in
      let blocks = outputs bs (round (capturing b) t) in
      (
        packet ++ bytes,
        on_wire
            ∙ ap (λ (w : List ℕ). w ++ bytes) one.on_wire
            ∙ append_assoc t.channel.sender.socket.wire packet bytes,
        decode_all-frame (length bs) t.channel.sender.rtp (output b t) bytes rest _ v.fits
            (output-IsSample b t) (omega (arith, length-output (capturing b) t b.1, sends.1))
            (decoded
              ∙ ap (λ (h : List Heard). some (h, rest))
                  (renumber blocks one.sequence one.timestamp one.ssrc)),
      )
