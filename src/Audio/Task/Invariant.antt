-- ===== src/Audio/Task/Invariant.antt =====
-- What holds of audioCaptureTask (src/esp32_rtsp_mic_birdnetgo.ino) between two of its rounds.
use birdnetgo_m5stack_atom_e.Prelude.{ℕ, ◌<◌, ◌≡◌, refl, List, [], ◌∷◌, arith, map, length}
use birdnetgo_m5stack_atom_e.Prelude.Int.{ℤ}
use birdnetgo_m5stack_atom_e.Prelude.Text.{Text}
use birdnetgo_m5stack_atom_e.Prelude.Float.{Float}
use birdnetgo_m5stack_atom_e.Stream.{Stream}
use birdnetgo_m5stack_atom_e.Stream.Control.{serve_stop}
use birdnetgo_m5stack_atom_e.Rtp.Send.{Sender, account, disconnect, send_rtp_packet}
use birdnetgo_m5stack_atom_e.Audio.Process.{Block}
use birdnetgo_m5stack_atom_e.Audio.Process.Laws.{IsFloat, IsBounded, update_multiplier-IsBounded}
use birdnetgo_m5stack_atom_e.Audio.Task.{
  Capture, failed, captured, Env, Task, max_errors, sample_pattern, serve_sender, count_error,
  process_block, measure, stream_block, capture_block, round,
}
use birdnetgo_m5stack_atom_e.Audio.Task.Commands.{Codec, Channel, obey_command, serve_commands}

-- There is a client exactly while there is a stream.
abbrev pub Coupled : Stream → Type 0
Coupled s = s.is_streaming ≡ s.client_set

serve_sender-Coupled : (s : Sender) → Coupled s.stream → Coupled (serve_sender s).stream
unfolding serve_sender serve_stop
serve_sender-Coupled s h = ground arith

send-Coupled :
    (s : Sender) (samples : List ℕ) → Coupled s.stream → Coupled (send_rtp_packet s samples).stream
unfolding send_rtp_packet account disconnect
send-Coupled s samples h = ground arith

obey_command-Coupled :
    (codec : Codec) (now_ms : ℕ) (c : Channel) (s : Text)
    → Coupled c.sender.stream
    → Coupled (obey_command codec now_ms c s).sender.stream
unfolding obey_command disconnect
obey_command-Coupled codec now_ms c s h = ground arith

serve_commands-Coupled :
    (codec : Codec) (now_ms : ℕ) (c : Channel)
    → Coupled c.sender.stream
    → Coupled (serve_commands codec now_ms c).sender.stream
unfolding serve_commands obey_command disconnect
serve_commands-Coupled codec now_ms c h = ground arith

module _ {ℓ} {F : Type ℓ} ⦃f : Float F⦄ where
  unfoldable pub rounds : List (Env F) → Task F → Task F
  rounds [] t = t
  rounds (env ∷ envs) t = rounds envs (round env t)

module _ {ℓ} {F : Type ℓ} ⦃f : Float F⦄ (laws : IsFloat F) where
  pub record IsTask (t : Task F) : Type 0 where
    pub coupled : Coupled t.channel.sender.stream
    pub few_errors : t.consecutive_errors < max_errors
    pub bounded : IsBounded laws t.multiplier

  count_error-IsTask : (t : Task F) → IsTask t → IsTask (count_error t)
  unfolding count_error
  count_error-IsTask t v = ground arith

  measure-IsBounded :
      (env : Env F) (t : Task F) (b : Block F) (n : ℕ)
      → IsBounded laws t.multiplier
      → IsBounded laws (measure env t b n).multiplier
  unfolding measure
  measure-IsBounded env t b n v =
      update_multiplier-IsBounded laws env.config t.multiplier b.sum_squares n v

  measure-errors :
      (env : Env F) (t : Task F) (b : Block F) (n : ℕ) → (measure env t b n).consecutive_errors ≡ 0
  unfolding measure
  measure-errors env t b n = refl

  stream_block-IsTask :
      (env : Env F) (t : Task F) (zs : List ℤ) → IsTask t → IsTask (stream_block env t zs)
  unfolding stream_block
  stream_block-IsTask env t zs v =
      let block = process_block env t zs in
      let output = map sample_pattern block.1 in
      record {
        coupled =
            serve_commands-Coupled env.codec env.now_ms _
              (send-Coupled t.channel.sender output v.coupled);
        few_errors = omega (arith, measure-errors env t block.0 (length zs));
        bounded = measure-IsBounded env t block.0 (length zs) v.bounded;
      }

  capture_block-IsTask :
      (env : Env F) (t : Task F) (c : Capture) → IsTask t → IsTask (capture_block env t c)
  unfolding capture_block
  capture_block-IsTask env t failed v = count_error-IsTask t v
  capture_block-IsTask env t (captured []) v = v
  capture_block-IsTask env t (captured (z ∷ zs)) v = stream_block-IsTask env t (z ∷ zs) v

  round-IsTask : (env : Env F) (t : Task F) → IsTask t → IsTask (round env t)
  unfolding round
  round-IsTask env t v = ground (
    arith,
    capture_block-IsTask env t env.capture v,
    serve_sender-Coupled t.channel.sender v.coupled,
  )

  -- Over any rounds, whatever the driver, the socket and the client do: there is a client exactly while
  -- there is a stream, the counter of driver errors, which is cleared at ten, stays below ten, and the
  -- multiplier of the AGC compares neither below 0.1 nor above 10.
  pub rounds-IsTask : (envs : List (Env F)) (t : Task F) → IsTask t → IsTask (rounds envs t)
  unfolding rounds
  rounds-IsTask [] t v = v
  rounds-IsTask (env ∷ envs) t v = rounds-IsTask envs (round env t) (round-IsTask env t v)
