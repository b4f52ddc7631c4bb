-- ===== src/Checks/Reboot.antt =====
-- checkScheduledReset, scheduleReboot and the deferred reboot at the end of the main loop
-- (src/esp32_rtsp_mic_birdnetgo.ino).
use birdnetgo_m5stack_atom_e.Prelude.{ℕ, ◌/◌, Bool, not, ◌&&◌, leb, ◌==◌}
use birdnetgo_m5stack_atom_e.Prelude.Words.{add32, sub32}

pub record Reboot : Type 0 where
  pub factory_reset : Bool
  pub reboot_at : ℕ  -- unsigned long, 0 for none

unfoldable pub schedule_reboot : ℕ → Bool → ℕ → Reboot
schedule_reboot now_ms factory delay_ms = record {
  factory_reset = factory;
  reboot_at = add32 now_ms delay_ms;
}

-- `scheduledRebootAt != 0 && millis() >= scheduledRebootAt`
unfoldable pub reboot_due : ℕ → Reboot → Bool
reboot_due now_ms r = not (r.reboot_at == 0) && leb r.reboot_at now_ms

-- The device restarts: enabled, the boot time, and the hours.
unfoldable pub scheduled_reset_due : ℕ → ℕ → Bool → ℕ → Bool
scheduled_reset_due now_ms boot_ms enabled hours =
    enabled && leb hours (sub32 now_ms boot_ms / 3600000)
