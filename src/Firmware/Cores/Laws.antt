-- ===== src/Firmware/Cores/Laws.antt =====
-- What holds of both cores together (src/esp32_rtsp_mic_birdnetgo.ino).
use birdnetgo_m5stack_atom_e.Prelude.{◌≡◌, refl, true, false, List, [], ◌∷◌, arith, All}
use birdnetgo_m5stack_atom_e.Prelude.Float.{Float}
use birdnetgo_m5stack_atom_e.Stream.Control.{serve_stop}
use birdnetgo_m5stack_atom_e.Audio.Task as Audio
use birdnetgo_m5stack_atom_e.Audio.Task.{Task, serve_sender, round}
use birdnetgo_m5stack_atom_e.Firmware.Invariant.{same_parts, IsFirmware, Waits, set_link-IsFirmware}
use birdnetgo_m5stack_atom_e.Firmware.Safety.{loop-IsFirmware}
use birdnetgo_m5stack_atom_e.Firmware.Cores.{
  Machine, core1_view, publish, CoreStep, core0, core1, core_step, core_steps,
}

-- While Core 0 waits for the task to exit, nothing starts a stream.
abbrev pub StepWaits : {F : Type 0} → CoreStep F → Type 0
StepWaits (core0 out r) = Waits out
StepWaits (core1 env) = Unit {0}

-- A round of the task without a stream: no stream behind it, and no byte on the wire.
record IsSilent {F : Type 0} (t t' : Task F) : Type 0 where
  stays_off : t'.channel.sender.stream.is_streaming ≡ false
  same_wire : t'.channel.sender.socket.wire ≡ t.channel.sender.socket.wire

module _ {F : Type 0} ⦃f : Float F⦄ where
  round-IsSilent :
      (env : Audio.Env F) (t : Task F)
      → t.channel.sender.stream.is_streaming ≡ false
      → IsSilent t (round env t)
  unfolding round serve_sender serve_stop
  round-IsSilent env t off = ground arith

  core_step-IsFirmware :
      (s : CoreStep F) (m : Machine F)
      → StepWaits s
      → IsFirmware m.firmware
      → IsFirmware (core_step s m).firmware
  unfolding core_step publish core1_view
  core_step-IsFirmware (core0 out r) m p v = loop-IsFirmware out r m.firmware p v
  core_step-IsFirmware (core1 env) m p v =
      let t = round env (core1_view m) in
      let w =
        set_link-IsFirmware m.firmware
          (record {
            stream = t.channel.sender.stream;
            connected = t.channel.sender.socket.connected;
          })
          v (λ off. (round-IsSilent env (core1_view m) off).stays_off) in
      same_parts w refl refl refl refl

  pub core_steps-IsFirmware :
      (ss : List (CoreStep F)) (m : Machine F)
      → All StepWaits ss
      → IsFirmware m.firmware
      → IsFirmware (core_steps ss m).firmware
  unfolding core_steps
  core_steps-IsFirmware [] m p v = v
  core_steps-IsFirmware (s ∷ rest) m p v =
      core_steps-IsFirmware rest (core_step s m) p.1 (core_step-IsFirmware s m p.0 v)

  -- Over any rounds of the main loop and of the audio task in any order: once the device is latched, a
  -- round of the audio task puts no byte on the wire, whatever is captured.
  pub latched_silent :
      (ss : List (CoreStep F)) (env : Audio.Env F) (m : Machine F)
      → All StepWaits ss
      → IsFirmware m.firmware
      → (core_steps ss m).firmware.thermal.latched ≡ true
      → let m' = core_steps ss m in
        (core_step (core1 env) m').task.channel.sender.socket.wire
        ≡ m'.task.channel.sender.socket.wire
  unfolding core_step publish core1_view
  latched_silent ss env m p v latched =
      let m' = core_steps ss m in
      let w = core_steps-IsFirmware ss m p v in
      (round-IsSilent env (core1_view m') (w.safe.latched_quiet latched)).same_wire
