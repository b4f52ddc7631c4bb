-- ===== src/Firmware/Tests/Forgets.antt =====
-- A factory reset of a device that plays.
use birdnetgo_m5stack_atom_e.Prelude.{◌≡◌, refl, true, false, arith}
use birdnetgo_m5stack_atom_e.Thermal.{not_a_number}
use birdnetgo_m5stack_atom_e.Checks.Reboot.{scheduled_reset_due, reboot_due, schedule_reboot}
use birdnetgo_m5stack_atom_e.Settings.{default_settings}
use birdnetgo_m5stack_atom_e.Firmware.{Firmware, Outside}
use birdnetgo_m5stack_atom_e.Firmware.Web.{no_request, factory_resets, serve_request}
use birdnetgo_m5stack_atom_e.Firmware.Loop.{
  loop, checks, wifi_step, performance_step, memory_step, temperature_step, tick_step, rest_of_loop,
  reboot_step, server_step, idle_step,
}
use birdnetgo_m5stack_atom_e.Firmware.Boot.{PowerUp, setup, power_off}
use birdnetgo_m5stack_atom_e.Firmware.Reset.Appointment.{Rounds, done, round}
use birdnetgo_m5stack_atom_e.Firmware.Reset.Fresh.{IsFreshBoot}
use birdnetgo_m5stack_atom_e.Firmware.Reset.{factory_reset-IsFreshBoot}
use birdnetgo_m5stack_atom_e.Firmware.Tests.{playing, hot}

-- No check is due.
abbrev quiet : Firmware
quiet = record playing {
  last_temp_check = 100000;
  last_memory_check = 100000;
  last_performance_check = 100000;
  last_wifi_check = 100000;
}

abbrev asked : Firmware
asked = loop hot factory_resets quiet

abbrev between : Outside
between = record hot { now_ms = 100300 }

abbrev waiting : Firmware
waiting = loop between no_request asked

abbrev late : Outside
late = record hot { now_ms = 100700 }

abbrev power_up : PowerUp
power_up = record { now_ms = 0; ssrc = 7; reading = not_a_number; free_heap = 100000 }

asked_runs : asked.restarting ≡ false
unfolding loop scheduled_reset_due checks wifi_step performance_step memory_step temperature_step
    serve_request tick_step default_settings rest_of_loop reboot_step reboot_due server_step
    idle_step schedule_reboot
asked_runs = refl

between_runs : waiting.restarting ≡ false
unfolding loop scheduled_reset_due checks wifi_step performance_step memory_step temperature_step
    serve_request tick_step default_settings rest_of_loop reboot_step reboot_due server_step
    idle_step schedule_reboot
between_runs = refl

one_round : Rounds asked waiting
one_round = round between no_request refl between_runs done

unscheduled :
    scheduled_reset_due 100700 late.boot_ms
      (checks late no_request waiting).device.settings.scheduled_reset
      (checks late no_request waiting).device.settings.reset_hours
    ≡ false
unfolding loop scheduled_reset_due checks wifi_step performance_step memory_step temperature_step
    serve_request tick_step default_settings rest_of_loop reboot_step reboot_due server_step
    idle_step schedule_reboot
unscheduled = refl

factory_reset-IsFreshBoot_example :
    ((loop late no_request waiting).restarting ≡ true)
    × IsFreshBoot (setup power_up (power_off (loop late no_request waiting)))
factory_reset-IsFreshBoot_example =
    factory_reset-IsFreshBoot hot late no_request power_up quiet waiting asked_runs one_round refl
      (omega arith) (omega arith) unscheduled
