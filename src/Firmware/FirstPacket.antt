-- ===== src/Firmware/FirstPacket.antt =====
-- The first packet that audioCaptureTask sends behind a PLAY request that reaches the main loop
-- (src/esp32_rtsp_mic_birdnetgo.ino), from the client's bytes to those that it receives.
use birdnetgo_m5stack_atom_e.Prelude.{
  ℕ, ◌+◌, ◌*◌, ◌<◌, ◌≡◌, subst, ap, ◌∙◌, Bool, true, false, some, List, [], ◌∷◌, ◌++◌, arith,
  length, All, map,
}
use birdnetgo_m5stack_atom_e.Prelude.Int.{ℤ}
use birdnetgo_m5stack_atom_e.Prelude.Text.{Text}
use birdnetgo_m5stack_atom_e.Prelude.Words.{u16_mod, u32_mod}
use birdnetgo_m5stack_atom_e.Prelude.Float.{Float}
use birdnetgo_m5stack_atom_e.Stream.Control.{Link, start_audio_task, hand_over}
use birdnetgo_m5stack_atom_e.Rtsp.Parse.Laws.{blank_line}
use birdnetgo_m5stack_atom_e.Rtsp.Parse.Stream.{IsRequest}
use birdnetgo_m5stack_atom_e.Rtsp.Parse.Turns.{process_rtsp-last}
use birdnetgo_m5stack_atom_e.Rtsp.Command.{play, method_of}
use birdnetgo_m5stack_atom_e.Rtp.Packet.Decode.{decode, IsRtp}
use birdnetgo_m5stack_atom_e.Rtp.Send.Laws.{is_sent}
use birdnetgo_m5stack_atom_e.Audio.Task as Audio
use birdnetgo_m5stack_atom_e.Audio.Task.{captured, sample_pattern, process_block, round}
use birdnetgo_m5stack_atom_e.Audio.Task.Laws.{round-decodes}
use birdnetgo_m5stack_atom_e.Firmware.{Firmware, link, Outside}
use birdnetgo_m5stack_atom_e.Firmware.Web.{no_request}
use birdnetgo_m5stack_atom_e.Firmware.Listening.{IsWaiting, IsPrompt}
use birdnetgo_m5stack_atom_e.Firmware.Playing.{
  play_answer, IsPlayed, arrivals, Hears, loop-IsPlayed, core_steps-IsWaiting,
}
use birdnetgo_m5stack_atom_e.Firmware.Cores.{
  Machine, core1_view, publish, CoreStep, core0, core1, core_step, core_steps,
}

-- A device whose client is connected, has sent nothing yet, and plays nothing.
pub record IsReady (fw : Firmware) : Type 0 where
  pub idle : (link fw).is_streaming ≡ false
  pub unasked : (link fw).stop_requested ≡ false
  pub connected : (link fw).connected ≡ true
  pub waiting : IsWaiting fw [] fw
  pub ssrc_lt : fw.rtsp.rtp.ssrc < u32_mod

hand_over-streams :
    (l : Link)
    → let l' = hand_over true l in
      (l'.is_streaming ≡ true)
      × (l'.client_set ≡ true)
      × (l'.stop_requested ≡ false)
      × (l'.task_handle ≡ true)
unfolding hand_over start_audio_task
hand_over-streams l = ground arith

-- What a receiver has read, where the packet's fields are known.
known_fields :
    (bytes : List ℕ) {more samples : List ℕ} {sequence timestamp ssrc ssrc' : ℕ}
    → decode bytes
      ≡ some (record {
        sequence = sequence;
        timestamp = timestamp;
        ssrc = ssrc;
        samples = samples;
        rest = more;
      })
    → sequence ≡ 0
    → timestamp ≡ 0
    → ssrc ≡ ssrc'
    → decode bytes
      ≡ some (record { sequence = 0; timestamp = 0; ssrc = ssrc'; samples = samples; rest = more })
known_fields bytes e at_zero at_start same = rw (at_zero, at_start, same) at e

module _ {F : Type 0} ⦃f : Float F⦄ where
  played :
      (ss : List (CoreStep F)) (out : Outside) (m : Machine F) (r : Text)
      → IsReady m.firmware
      → IsRequest r
      → method_of r ≡ play
      → All (Hears m.firmware) ss
      → IsPrompt m.firmware out
      → arrivals ss ++ out.arrived ≡ r ++ blank_line
      → 0 < length out.arrived
      → IsPlayed m.firmware out.rtsp_env.created r
          (core_step (core0 out no_request) (core_steps ss m)).firmware
  unfolding core_step
  played ss out m r ready v is_play h p e more =
      let waits =
        core_steps-IsWaiting m.firmware ready.idle ready.unasked ready.connected ss [] out.arrived r
          m v h e more ready.waiting in
      loop-IsPlayed m.firmware ready.idle ready.connected out (arrivals ss) r _ p
        (process_rtsp-last (arrivals ss) out.arrived r v e more) is_play waits

  -- A client is connected to a device with its server enabled that streams nothing, with its
  -- automatic recovery and scheduled reset off and no reboot requested. Its PLAY, whose bytes arrive
  -- over any rounds of both cores, is answered with the session's name, and the next block that the
  -- audio task captures puts a packet on the wire from which a receiver reads sequence number and
  -- timestamp 0, the device's source and exactly the processed samples; for rounds before the idle
  -- timeout without requests that change the state, with WiFi up and no valid reading at or above the
  -- limit, a request with no byte 0 that fits the parse buffer, a task that can be created, at most
  -- 32761 samples and a socket that takes the packet.
  pub first_packet :
      (ss : List (CoreStep F)) (out : Outside) (env : Audio.Env F) (m m' : Machine F) (r : Text)
      (z : ℤ) (zs : List ℤ)
      → IsReady m.firmware
      → IsRequest r
      → method_of r ≡ play
      → All (Hears m.firmware) ss
      → IsPrompt m.firmware out
      → arrivals ss ++ out.arrived ≡ r ++ blank_line
      → 0 < length out.arrived
      → out.rtsp_env.created ≡ true
      → core_step (core0 out no_request) (core_steps ss m) ≡ m'
      → env.capture ≡ captured (z ∷ zs)
      → 12 + length (z ∷ zs) * 2 < u16_mod
      → is_sent
          (core1_view m').channel.sender
          (map sample_pattern (process_block env (core1_view m') (z ∷ zs)).1)
        ≡ true
      → let samples = map sample_pattern (process_block env (core1_view m') (z ∷ zs)).1 in
        (m'.firmware.outgoing ≡ m.firmware.outgoing ++ play_answer m.firmware r)
        × ((link m'.firmware).task_handle ≡ true)
        × ((bytes more : List ℕ) × ((core_step (core1 env) m').task.channel.sender.socket.wire
              ≡ m'.task.channel.sender.socket.wire ++ bytes)
            × (decode bytes
                ≡ some (record {
                  sequence = 0;
                  timestamp = 0;
                  ssrc = m.firmware.rtsp.rtp.ssrc;
                  samples = samples;
                  rest = more;
                })))
  unfolding core_step publish core1_view
  first_packet ss out env m m' r z zs ready v is_play h p e more created same capture short sent =
      let w : IsPlayed m.firmware out.rtsp_env.created r m'.firmware =
        subst (λ (x : Machine F). IsPlayed m.firmware out.rtsp_env.created r x.firmware) same
          (played ss out m r ready v is_play h p e more) in
      let shared : link m'.firmware ≡ hand_over true (link m.firmware) =
        w.same_link ∙ ap (λ (b : Bool). hand_over b (link m.firmware)) created in
      let fits : IsRtp m'.firmware.rtsp.rtp = record {
        sequence_lt = omega (arith, w.sequence);
        timestamp_lt = omega (arith, w.timestamp);
        ssrc_lt = omega (arith, w.ssrc, ready.ssrc_lt);
      } in
      let (streams, set, unasked, task) = hand_over-streams (link m.firmware) in
      let (bytes, longer, on_wire, decoded) =
        round-decodes env (core1_view m') z zs
          (ap (λ (l : Link). l.stop_requested) shared ∙ unasked)
          (ap (λ (l : Link). l.is_streaming) shared ∙ streams)
          (ap (λ (l : Link). l.client_set) shared ∙ set) capture fits short sent in
      (
        w.answered,
        ap (λ (l : Link). l.task_handle) shared ∙ task,
        (bytes, longer, on_wire, known_fields bytes decoded w.sequence w.timestamp w.ssrc),
      )
