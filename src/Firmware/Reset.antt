-- ===== src/Firmware/Reset.antt =====
-- A factory reset from the request of the web interface (src/WebUI.cpp) over the rounds of the loop to
-- the start-up that follows it (src/esp32_rtsp_mic_birdnetgo.ino: scheduleReboot,
-- resetToDefaultSettings, the end of loop, setup).
pub mod Appointment
pub mod Fresh
use birdnetgo_m5stack_atom_e.Firmware.Reset.Appointment.{
  asks_reboot, Rounds, tick-reboot, checks-reboot, loop-reboot, Rounds-reboot, server_step-reboot,
  idle_step-reboot, schedule_reboot-due,
}
use birdnetgo_m5stack_atom_e.Firmware.Reset.Fresh.{IsFreshBoot, setup-IsFreshBoot}
use birdnetgo_m5stack_atom_e.Prelude.{◌+◌, ◌^◌, ◌≤◌, ◌<◌, ◌≡◌, refl, ◌∙◌, true, false}
use birdnetgo_m5stack_atom_e.Checks.Reboot.{schedule_reboot, reboot_due, scheduled_reset_due}
use birdnetgo_m5stack_atom_e.Firmware.{Firmware, Outside, reset_to_defaults}
use birdnetgo_m5stack_atom_e.Firmware.Web.{Request, factory_resets, serve_request}
use birdnetgo_m5stack_atom_e.Firmware.Loop.{
  tick_step, idle_step, server_step, reboot_step, rest_of_loop, checks, loop,
}
use birdnetgo_m5stack_atom_e.Firmware.Boot as Boot
use birdnetgo_m5stack_atom_e.Firmware.Boot.{PowerUp, power_off}

-- The round in which the appointment for a factory reset is due.
due_round :
    (out : Outside) (req : Request) (fw : Firmware)
    → asks_reboot req ≡ false
    → reboot_due out.now_ms fw.reboot ≡ true
    → fw.reboot.factory_reset ≡ true
    → scheduled_reset_due out.now_ms out.boot_ms
        (checks out req fw).device.settings.scheduled_reset
        (checks out req fw).device.settings.reset_hours
      ≡ false
    → let served = server_step out (idle_step out (checks out req fw)) in
      loop out req fw ≡ record (reset_to_defaults served) { restarting = true }
unfolding loop rest_of_loop reboot_step
due_round out req fw h due factory unscheduled =
    let checked = checks out req fw in
    let same =
      server_step-reboot out (idle_step out checked)
      ∙ idle_step-reboot out checked
      ∙ checks-reboot out req fw
      ∙ tick-reboot out req fw h in
    rw (unscheduled, same, due, factory) refl

-- Where the round of a request for a factory reset does not restart the device: after any rounds that
-- ask for no reboot and do not restart it either, a round at least 600 ms after the request and before
-- the millisecond counter wraps, which is not a scheduled reset and asks for no reboot, restarts the
-- device; and the start-up after it has the default settings, the tunnel's default configuration, the
-- protection on with a limit of 80 C, no latch, the server enabled and no stream.
pub factory_reset-IsFreshBoot :
    (asked later : Outside) (req : Request) (up : PowerUp) (fw last : Firmware)
    → (loop asked factory_resets fw).restarting ≡ false
    → Rounds (loop asked factory_resets fw) last
    → asks_reboot req ≡ false
    → asked.now_ms + 600 ≤ later.now_ms
    → later.now_ms < 2 ^ 32
    → scheduled_reset_due later.now_ms later.boot_ms
        (checks later req last).device.settings.scheduled_reset
        (checks later req last).device.settings.reset_hours
      ≡ false
    → ((loop later req last).restarting ≡ true)
      × IsFreshBoot (Boot.setup up (power_off (loop later req last)))
unfolding serve_request tick_step schedule_reboot
factory_reset-IsFreshBoot asked later req up fw last on rounds h late small unscheduled =
    let kept : last.reboot ≡ schedule_reboot asked.now_ms true 600 =
      Rounds-reboot rounds ∙ loop-reboot asked factory_resets fw on in
    let due : reboot_due later.now_ms last.reboot ≡ true =
      rw kept (schedule_reboot-due asked.now_ms later.now_ms true late small) in
    let factory : last.reboot.factory_reset ≡ true = rw kept refl in
    rw (due_round later req last h due factory unscheduled) (refl, setup-IsFreshBoot up _)
