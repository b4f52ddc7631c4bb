-- ===== src/Firmware/Safety.antt =====
-- What holds of all components together over any rounds of the main loop
-- (src/esp32_rtsp_mic_birdnetgo.ino, loop), whatever the outside answers.
use birdnetgo_m5stack_atom_e.Prelude.{refl, Bool-cases, inl, inr, List, [], ◌∷◌, All}
use birdnetgo_m5stack_atom_e.Stream.Control.{Link}
use birdnetgo_m5stack_atom_e.Stream.Control.Laws.{IsPassive}
use birdnetgo_m5stack_atom_e.WireGuard.Calls.{ticks, call}
use birdnetgo_m5stack_atom_e.Rtp.Packet.{Rtp}
use birdnetgo_m5stack_atom_e.Firmware.{Firmware, link, set_link, Outside}
use birdnetgo_m5stack_atom_e.Firmware.Web.{Request}
use birdnetgo_m5stack_atom_e.Firmware.Invariant.{
  same_parts, IsFirmware, Waits, set_link-IsFirmware, call-IsFirmware, serve_request-IsFirmware,
}
use birdnetgo_m5stack_atom_e.Firmware.Loop.{tick_step, rest_of_loop, checks, loop}
use birdnetgo_m5stack_atom_e.Checks.Reboot.{scheduled_reset_due}
use birdnetgo_m5stack_atom_e.Firmware.Steps.{
  temperature_step-IsFirmware, memory_step-IsFirmware, performance_step-IsFirmware,
  wifi_step-IsFirmware, idle_step-IsFirmware, server_step-IsFirmware, reboot_step-IsFirmware,
}

pub loop-IsFirmware :
    (out : Outside) (r : Request) (fw : Firmware)
    → Waits out
    → IsFirmware fw
    → IsFirmware (loop out r fw)
unfolding loop checks rest_of_loop tick_step call
loop-IsFirmware out r fw p v =
    let ticked = call-IsFirmware (ticks out.wg_env) fw v in
    let served = serve_request-IsFirmware out r _ p ticked in
    let c = wifi_step-IsFirmware out _ (
      performance_step-IsFirmware out _
        (memory_step-IsFirmware out _ (temperature_step-IsFirmware out _ p served))) in
    elim (Bool-cases (
      scheduled_reset_due out.now_ms out.boot_ms (checks out r fw).device.settings.scheduled_reset
        (checks out r fw).device.settings.reset_hours)) [
          | inl e ↦ rw e (same_parts c refl refl refl refl)
          | inr e ↦ rw e (
              reboot_step-IsFirmware out _
                (server_step-IsFirmware out _ p (idle_step-IsFirmware out _ c)))
        ]

-- A round of the loop, or what Core 1 does to the link and the counters of RTP between two rounds.
pub data Turn : Type 0 where
  core0 : Outside → Request → Turn
  core1 : (Link → Link) → Rtp → Turn

unfoldable pub turn : Turn → Firmware → Firmware
turn (core0 out r) fw = loop out r fw
turn (core1 acts rtp) fw = record (set_link fw (acts (link fw))) {
  rtsp = record fw.rtsp { rtp = rtp };
}

-- Core 1 starts no stream, neither between two rounds nor while Core 0 waits for its task to exit.
abbrev pub StartsNone : Turn → Type 0
StartsNone (core0 out r) = Waits out
StartsNone (core1 acts rtp) = IsPassive acts

pub turns : List Turn → Firmware → Firmware
turns [] fw = fw
turns (t ∷ ts) fw = turns ts (turn t fw)

turn-IsFirmware : (t : Turn) (fw : Firmware) → StartsNone t → IsFirmware fw → IsFirmware (turn t fw)
unfolding turn
turn-IsFirmware (core0 out r) fw p v = loop-IsFirmware out r fw p v
turn-IsFirmware (core1 acts rtp) fw p v =
    let w = set_link-IsFirmware fw (acts (link fw)) v (p.stays_stopped (link fw)) in
    same_parts w refl refl refl refl

-- Over any rounds of the loop with any requests, any answers of the outside and any turns of Core 1
-- that start no stream by themselves: a latched device has its server down and streams nothing, the
-- tunnel manager keeps its invariant, the audio settings stay in their ranges, the flash holds the
-- tunnel's settings and, but for the minimum rate in the automatic mode, the audio settings, and the
-- parse buffer does not overflow.
pub turns-IsFirmware :
    (ts : List Turn) (fw : Firmware) → All StartsNone ts → IsFirmware fw → IsFirmware (turns ts fw)
unfolding turns
turns-IsFirmware [] fw p v = v
turns-IsFirmware (t ∷ ts) fw p v = turns-IsFirmware ts (turn t fw) p.1 (turn-IsFirmware t fw p.0 v)
