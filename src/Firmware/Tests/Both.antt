-- ===== src/Firmware/Tests/Both.antt =====
-- Both cores: a device that plays gets too hot, and its audio task goes on.
use birdnetgo_m5stack_atom_e.Prelude.{◌≡◌, refl, true, [], ◌∷◌}
use birdnetgo_m5stack_atom_e.Prelude.Int.{ℤ, pos}
use birdnetgo_m5stack_atom_e.Audio.Tests.Whole.{whole}
use birdnetgo_m5stack_atom_e.Audio.Tests.{task, env}
use birdnetgo_m5stack_atom_e.Audio.Task.{captured}
use birdnetgo_m5stack_atom_e.Stream.Control.{stop_audio_task, request_stream_stop}
use birdnetgo_m5stack_atom_e.Thermal.{
  stop_if_streaming, check_temperature, on_reading, protect, sensor_read, trip,
  record_overheat_trip, valid_temperature, enforce_disabled,
}
use birdnetgo_m5stack_atom_e.Settings.{default_settings}
use birdnetgo_m5stack_atom_e.Checks.Performance.{check_performance}
use birdnetgo_m5stack_atom_e.Checks.Wifi.{check_wifi_health}
use birdnetgo_m5stack_atom_e.Checks.Reboot.{reboot_due, scheduled_reset_due}
use birdnetgo_m5stack_atom_e.Firmware.Loop.{
  tick_step, temperature_step, memory_step, performance_step, wifi_step, idle_step, server_step,
  reboot_step, rest_of_loop, checks, loop,
}
use birdnetgo_m5stack_atom_e.Firmware.Web.{no_request, serve_request}
use birdnetgo_m5stack_atom_e.Firmware.Cores.{Machine, core0, core1, core_step, core_steps}
use birdnetgo_m5stack_atom_e.Firmware.Cores.Laws.{latched_silent}
use birdnetgo_m5stack_atom_e.Firmware.Tests.{playing, playing-IsFirmware, hot, idle-IsPassive}

abbrev machine : Machine ℤ
machine = record { firmware = playing; task = task }

gets_latched : (core_steps (core0 hot no_request ∷ []) machine).firmware.thermal.latched ≡ true
unfolding core_steps core_step loop scheduled_reset_due checks wifi_step performance_step
    memory_step temperature_step serve_request tick_step default_settings rest_of_loop reboot_step
    reboot_due server_step idle_step check_wifi_health check_performance check_temperature
    on_reading protect sensor_read trip record_overheat_trip valid_temperature enforce_disabled
    stop_audio_task stop_if_streaming request_stream_stop
gets_latched = refl

latched_silent_example :
    let m' = core_steps (core0 hot no_request ∷ []) machine in
    (core_step (core1 (env (captured (pos 5 ∷ [])))) m').task.channel.sender.socket.wire
    ≡ m'.task.channel.sender.socket.wire
latched_silent_example =
    latched_silent (core0 hot no_request ∷ []) (env (captured (pos 5 ∷ []))) machine
      (idle-IsPassive, tt) playing-IsFirmware gets_latched
