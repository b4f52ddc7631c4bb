-- ===== src/Audio/Task/Laws.antt =====
-- What rounds of audioCaptureTask (src/esp32_rtsp_mic_birdnetgo.ino) do to the wire and to the task.
use mathlib.Core.List.{append_assoc, append-nil}
use birdnetgo_m5stack_atom_e.Prelude.{
  ℕ, suc, ◌+◌, ◌*◌, ◌<◌, ◌≡◌, refl, sym, ap, subst, ◌∙◌, Bool, true, false, some, List, [], ◌∷◌,
  ◌++◌, arith, Bool-cases, inl, inr, ltb, ◌&&◌, min, drop, map, length, take, All, length-map,
}
use birdnetgo_m5stack_atom_e.Prelude.Int.{ℤ, pos, negsuc}
use birdnetgo_m5stack_atom_e.Prelude.Text.{Text, text}
use birdnetgo_m5stack_atom_e.Prelude.Words.{u16_mod, sub32}
use birdnetgo_m5stack_atom_e.Prelude.Float.{Float}
use birdnetgo_m5stack_atom_e.Rtp.Packet.{frame}
use birdnetgo_m5stack_atom_e.Rtp.Packet.Decode.{decode, IsSample, IsRtp, decode-frame}
use birdnetgo_m5stack_atom_e.Rtp.Write.{Socket, accept}
use birdnetgo_m5stack_atom_e.Rtp.Send.{disconnect, send_rtp_packet}
use birdnetgo_m5stack_atom_e.Rtp.Send.Laws.{is_sent, send_rtp_packet-IsSent}
use birdnetgo_m5stack_atom_e.Audio.Process.{
  Block, process_sample, process_samples, effective_gain, refresh_filter,
}
use birdnetgo_m5stack_atom_e.Audio.Task.{
  captured, Env, Task, sample_pattern, fresh_block, process_block, stream_block, capture_block,
  round,
}
use birdnetgo_m5stack_atom_e.Audio.Task.Commands.{
  Codec, Channel, contains, short_answer, command_size, c_string, write_once, obey_command,
  serve_commands,
}

sample_pattern-IsSample : (z : ℤ) → IsSample (sample_pattern z)
unfolding sample_pattern
sample_pattern-IsSample (pos n) = omega arith
sample_pattern-IsSample (negsuc n) = omega arith

pub patterns : (zs : List ℤ) → All IsSample (map sample_pattern zs)
patterns [] = tt
patterns (z ∷ zs) = (sample_pattern-IsSample z, patterns zs)

-- The bytes on the wire have only become more.
abbrev Longer : Socket → Socket → Type 0
Longer s t = (more : List ℕ) × (t.wire ≡ s.wire ++ more)

same-Longer : (s : Socket) → Longer s s
same-Longer s = ([], sym (append-nil s.wire))

write_once-Longer : (s : Socket) (bytes : Text) → Longer s (write_once s bytes)
unfolding write_once accept
write_once-Longer s bytes = (_, refl)

obey_command-Longer :
    (codec : Codec) (now_ms : ℕ) (c : Channel) (s : Text)
    → Longer c.sender.socket (obey_command codec now_ms c s).sender.socket
unfolding obey_command disconnect
obey_command-Longer codec now_ms c s = elim (Bool-cases (contains s (text "TEARDOWN"))) [
  | inl e ↦ rw e (write_once-Longer c.sender.socket (short_answer codec s))
  | inr e ↦ elim (Bool-cases (contains s (text "GET_PARAMETER"))) [
    | inl e' ↦ rw (e, e') (write_once-Longer c.sender.socket (short_answer codec s))
    | inr e' ↦ rw (e, e') (same-Longer c.sender.socket)
  ]
]

serve_commands-Longer :
    (codec : Codec) (now_ms : ℕ) (c : Channel)
    → Longer c.sender.socket (serve_commands codec now_ms c).sender.socket
unfolding serve_commands
serve_commands-Longer codec now_ms c =
    let n = min (length c.incoming) command_size in
    let read : Channel = record c { incoming = drop n c.incoming; last_check_ms = now_ms } in
    elim (Bool-cases (c.sender.stream.is_streaming && ltb 200 (sub32 now_ms c.last_check_ms))) [
      | inr e ↦ rw e (same-Longer c.sender.socket)
      | inl e ↦ elim (Bool-cases (ltb 0 n)) [
        | inl e' ↦ rw (e, e') (obey_command-Longer codec now_ms read (c_string (take n c.incoming)))
        | inr e' ↦ rw (e, e') (same-Longer c.sender.socket)
      ]
    ]

module _ {ℓ} {F : Type ℓ} ⦃f : Float F⦄ where
  length-process_samples :
      (highpass : Bool) (gain : F) (b : Block F) (zs : List ℤ)
      → length (process_samples highpass gain b zs).1 ≡ length zs
  unfolding process_samples
  length-process_samples highpass gain b [] = refl
  length-process_samples highpass gain b (z ∷ zs) =
      ap suc (length-process_samples highpass gain (process_sample highpass gain b z).0 zs)

  pub length-output :
      (env : Env F) (t : Task F) (zs : List ℤ)
      → length (map sample_pattern (process_block env t zs).1) ≡ length zs
  unfolding process_block
  length-output env t zs =
      length-map (process_block env t zs).1 sample_pattern
      ∙ length-process_samples env.config.highpass (effective_gain env.config t.multiplier)
          (fresh_block (refresh_filter env.config env.shared t.local)) zs

  pub round-streams :
      (env : Env F) (t : Task F) (z : ℤ) (zs : List ℤ)
      → t.channel.sender.stream.stop_requested ≡ false
      → t.channel.sender.stream.is_streaming ≡ true
      → t.channel.sender.stream.client_set ≡ true
      → env.capture ≡ captured (z ∷ zs)
      → round env t ≡ stream_block env t (z ∷ zs)
  unfolding round capture_block
  round-streams env t z zs asked on set e = rw (asked, on, set, e) refl

  -- A round that captures a block while it streams, and whose packet is sent, puts bytes on the wire
  -- from which a receiver reads exactly the processed samples, whatever answers to commands follow, where
  -- the packet's fields fit their widths and the block has at most 32761 samples.
  pub round-decodes :
      (env : Env F) (t : Task F) (z : ℤ) (zs : List ℤ)
      → t.channel.sender.stream.stop_requested ≡ false
      → t.channel.sender.stream.is_streaming ≡ true
      → t.channel.sender.stream.client_set ≡ true
      → env.capture ≡ captured (z ∷ zs)
      → IsRtp t.channel.sender.rtp
      → 12 + length (z ∷ zs) * 2 < u16_mod
      → is_sent t.channel.sender (map sample_pattern (process_block env t (z ∷ zs)).1) ≡ true
      → let s = t.channel.sender in
        (bytes more : List ℕ) × ((round env t).channel.sender.socket.wire ≡ s.socket.wire ++ bytes)
        × (decode bytes
            ≡ some (record {
              sequence = s.rtp.sequence;
              timestamp = s.rtp.timestamp;
              ssrc = s.rtp.ssrc;
              samples = map sample_pattern (process_block env t (z ∷ zs)).1;
              rest = more;
            }))
  unfolding stream_block
  round-decodes env t z zs asked on set e fits short sent =
      let output = map sample_pattern (process_block env t (z ∷ zs)).1 in
      let s = t.channel.sender in
      let count : length output ≡ length (z ∷ zs) = length-output env t (z ∷ zs) in
      let one = send_rtp_packet-IsSent s output sent in
      let (more, after) =
        serve_commands-Longer env.codec env.now_ms
          (record t.channel { sender = send_rtp_packet s output }) in
      (
        frame s.rtp output ++ more,
        more,
        ap (λ (u : Task F). u.channel.sender.socket.wire) (round-streams env t z zs asked on set e)
            ∙ after
            ∙ ap (λ (w : List ℕ). w ++ more) one.on_wire
            ∙ append_assoc s.socket.wire (frame s.rtp output) more,
        decode-frame s.rtp output more fits (patterns (process_block env t (z ∷ zs)).1)
            (subst (λ (n : ℕ). 12 + n * 2 < u16_mod) (sym count) short),
      )
