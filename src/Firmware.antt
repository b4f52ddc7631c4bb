-- ===== src/Firmware.antt =====
-- The main loop (src/esp32_rtsp_mic_birdnetgo.ino, loop) as the composition of the components of
-- Core 0, with the requests of the web interface (src/WebUI.cpp) that reach it. The log, the LED and
-- the filter, which Core 1 uses, are left out.
pub mod Web
pub mod Loop
pub mod Invariant
mod Steps
pub mod Safety
pub mod Reset
pub mod Boot
pub mod Hung
pub mod Cores
pub mod Listening
pub mod Playing
pub mod FirstPacket
mod Tests
use birdnetgo_m5stack_atom_e.Prelude.{ℕ, ◌+◌, Bool, true, false, []}
use birdnetgo_m5stack_atom_e.Prelude.Int.{ℤ, pos}
use birdnetgo_m5stack_atom_e.Prelude.Text.{Text}
use birdnetgo_m5stack_atom_e.Stream.Control.{Link}
use birdnetgo_m5stack_atom_e.WireGuard.State as WgState
use birdnetgo_m5stack_atom_e.WireGuard.State.{Wg}
use birdnetgo_m5stack_atom_e.WireGuard.Config.{clear}
use birdnetgo_m5stack_atom_e.Thermal as ThermalMod
use birdnetgo_m5stack_atom_e.Thermal.{Thermal, Reading, no_reason, save_thermal}
use birdnetgo_m5stack_atom_e.Settings.{default_settings, save_settings, save_limit, load_limit}
use birdnetgo_m5stack_atom_e.Settings.Interface.{Arduino, Device}
use birdnetgo_m5stack_atom_e.Rtsp.Command as Command
use birdnetgo_m5stack_atom_e.Rtsp.Command.{Rtsp}
use birdnetgo_m5stack_atom_e.Checks.Performance.{Perf}
use birdnetgo_m5stack_atom_e.Checks.Wifi.{Radio}
use birdnetgo_m5stack_atom_e.Checks.Reboot.{Reboot}

-- The link in `thermal` is the one that counts; the one in `rtsp` is set from it before each use.
pub record Firmware : Type 0 where
  pub wg : Wg
  pub thermal : Thermal
  pub device : Device
  pub rtsp : Rtsp
  pub parse_buffer : Text
  pub incoming : Text  -- what the client has sent and was not yet read
  pub outgoing : Text  -- the answers to the client
  pub perf : Perf
  pub radio : Radio
  pub reboot : Reboot
  pub last_temp_check : ℕ
  pub last_memory_check : ℕ
  pub last_performance_check : ℕ
  pub last_wifi_check : ℕ
  pub last_connect_ms : ℕ
  pub connect_count : ℕ
  pub restarting : Bool  -- ESP.restart() has been called

abbrev pub link : Firmware → Link
link fw = fw.thermal.link

abbrev pub set_link : Firmware → Link → Firmware
set_link fw l = record fw { thermal = record fw.thermal { link = l } }

-- What a round of the loop reads of the outside.
pub record Outside : Type 0 where
  pub now_ms : ℕ
  pub boot_ms : ℕ
  pub wg_env : WgState.Env
  pub thermal_env : ThermalMod.Env
  pub rtsp_env : Command.Env
  pub arduino : Arduino
  pub reading : Reading
  pub free_heap : ℕ
  pub wifi_connected : Bool
  pub accepts : Bool  -- a client waits to be accepted
  pub arrived : Text  -- bytes of the client since the last round
  pub created : Bool

-- The thermal part of resetToDefaultSettings, and its save.
unfoldable pub reset_thermal : Thermal → Thermal
unfolding save_thermal
reset_thermal d = save_thermal (record d {
  protection_enabled = true;
  shutdown_c = 80;
  lockout_active = false;
  triggered_at = 0;
  note = record {
    last_reason = no_reason;
    last_timestamp = [];
    trip_temp = pos 0;
    latched = false;
  };
  sensor_fault = false;
  last_temperature = pos 0;
  last_valid = false;
  link = record d.link { stream = record d.link.stream { is_streaming = false } };
})

unfoldable pub reset_to_defaults : Firmware → Firmware
unfolding reset_thermal clear default_settings save_settings
reset_to_defaults fw = record fw {
  wg = clear fw.wg;
  thermal = reset_thermal fw.thermal;
  device = record fw.device { settings = default_settings; flash = save_settings default_settings };
}
