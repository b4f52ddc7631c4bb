-- ===== src/Audio/Task.antt =====
-- One round of the loop of audioCaptureTask (src/esp32_rtsp_mic_birdnetgo.ino), as one step: Core 0
-- acts between two rounds. The I2S driver, the client's incoming bytes and `atoi` are parameters; a
-- round reads `millis()` once. Lines for the serial port are left out.
pub mod Commands
pub mod Laws
pub mod Invariant
pub mod Packets
use birdnetgo_m5stack_atom_e.Prelude.{
  ℕ, ◌+◌, ◌-◌, ◌%◌, Bool, true, false, ◌&&◌, ◌||◌, not, List, [], ◌∷◌, map, length, ltb, leb,
  if◌then◌else◌,
}
use birdnetgo_m5stack_atom_e.Prelude.Int.{ℤ, pos, negsuc}
use birdnetgo_m5stack_atom_e.Prelude.Text.{Text}
use birdnetgo_m5stack_atom_e.Prelude.Words.{u16_mod, add32, sub32}
use birdnetgo_m5stack_atom_e.Prelude.Float.{Float}
use birdnetgo_m5stack_atom_e.Stream.Control.{serve_stop}
use birdnetgo_m5stack_atom_e.Rtp.Send.{Sender, send_rtp_packet}
use birdnetgo_m5stack_atom_e.Audio.Filter.{Highpass}
use birdnetgo_m5stack_atom_e.Audio.Process.{
  Config, Block, Meter, Colour, refresh_filter, effective_gain, process_samples, update_multiplier,
  clamp_peak, led_colour, update_meter,
}
use birdnetgo_m5stack_atom_e.Audio.Task.Commands.{Channel, Codec, serve_commands}

-- What `i2s_read` gives: an error, or samples (none after its timeout).
pub data Capture : Type 0 where
  failed : Capture
  captured : List ℤ → Capture

pub record Env {ℓ} (F : Type ℓ) : Type ℓ where
  pub now_ms : ℕ
  pub config : Config F
  pub shared : Highpass F  -- hpf, hpfConfigSampleRate, hpfConfigCutoff
  pub capture : Capture
  pub codec : Codec

pub record Task {ℓ} (F : Type ℓ) : Type ℓ where
  pub channel : Channel
  pub local : Highpass F
  pub multiplier : F  -- localAgcMult
  pub published : F  -- agcMultiplier
  pub meter : Meter
  pub led : Colour
  pub last_led_ms : ℕ
  pub consecutive_errors : ℕ  -- uint32_t
  pub i2s_errors : ℕ  -- uint32_t
  pub packet_count : ℕ  -- uint32_t

abbrev pub max_errors : ℕ
max_errors = 10

-- The pattern of an int16_t.
unfoldable pub sample_pattern : ℤ → ℕ
sample_pattern (pos n) = n % u16_mod
sample_pattern (negsuc n) = u16_mod - 1 - n % u16_mod

-- serve_stop on the sender's flags and socket.
unfoldable pub serve_sender : Sender → Sender
unfolding serve_stop
serve_sender s =
    let served = serve_stop (record { stream = s.stream; connected = s.socket.connected }) in
    record s { stream = served.stream; socket = record s.socket { connected = served.connected } }

module _ {ℓ} {F : Type ℓ} ⦃f : Float F⦄ where
  unfoldable pub count_error : Task F → Task F
  count_error t =
      let errors = add32 t.consecutive_errors 1 in
      record t {
        consecutive_errors = if leb max_errors errors then 0 else errors;
        i2s_errors = add32 t.i2s_errors 1;
      }

  unfoldable pub fresh_block : Highpass F → Block F
  fresh_block local = record {
    filter = local.hpf;
    clipped = false;
    peak = f.literal 0 0;
    sum_squares = f.literal 0 0;
  }

  -- The samples of a round, processed: the variables of the loop, and the output.
  unfoldable pub process_block : Env F → Task F → List ℤ → Block F × List ℤ
  unfolding fresh_block
  process_block env t samples =
      process_samples env.config.highpass (effective_gain env.config t.multiplier)
        (fresh_block (refresh_filter env.config env.shared t.local)) samples

  -- AGC, meter and LED after a block.
  unfoldable pub measure : Env F → Task F → Block F → ℕ → Task F
  measure env t b samples =
      let multiplier = update_multiplier env.config t.multiplier b.sum_squares samples in
      let peak = clamp_peak b.peak in
      let due = ltb 100 (sub32 env.now_ms t.last_led_ms) in
      record t {
        local = record (refresh_filter env.config env.shared t.local) { hpf = b.filter };
        multiplier = multiplier;
        published = if env.config.agc && ltb 0 samples then multiplier else t.published;
        meter = update_meter env.now_ms t.meter (f.to_u16 peak) b.clipped;
        led = if due then led_colour env.config.led_mode peak b.clipped else t.led;
        last_led_ms = if due then env.now_ms else t.last_led_ms;
        consecutive_errors = 0;
      }

  -- Process the samples, send the packet, and look for commands.
  unfoldable pub stream_block : Env F → Task F → List ℤ → Task F
  unfolding measure process_block
  stream_block env t samples =
      let (b, output) = process_block env t samples in
      let measured = measure env t b (length samples) in
      let sent = send_rtp_packet t.channel.sender (map sample_pattern output) in
      record measured {
        channel = serve_commands env.codec env.now_ms (record t.channel { sender = sent });
        packet_count = add32 t.packet_count 1;
      }

  unfoldable pub capture_block : Env F → Task F → Capture → Task F
  capture_block env t failed = count_error t
  capture_block env t (captured []) = t
  capture_block env t (captured (s ∷ samples)) = stream_block env t (s ∷ samples)

  unfoldable pub round : Env F → Task F → Task F
  unfolding serve_sender
  round env t =
      let s = t.channel.sender in
      if s.stream.stop_requested
      then record t { channel = record t.channel { sender = serve_sender s } }
      else if not s.stream.is_streaming || not s.stream.client_set
      then t
      else capture_block env t env.capture
