-- ===== src/Firmware/Web.antt =====
-- The requests of the web interface (src/WebUI.cpp) that change the state: httpSet with the calls it
-- makes of other components, and the actions.
pub mod Actions
use birdnetgo_m5stack_atom_e.Prelude.{◌-◌, true, false, Option, List, [], ◌∷◌, if◌then◌else◌}
use birdnetgo_m5stack_atom_e.Prelude.Text.{Text}
use birdnetgo_m5stack_atom_e.Prelude.Words.{u32_mod}
use birdnetgo_m5stack_atom_e.Stream.Control.{restart_i2s}
use birdnetgo_m5stack_atom_e.WireGuard.Calls.{call}
use birdnetgo_m5stack_atom_e.Thermal.{
  thermal_clear, server_start, server_stop, set_protection, set_limit,
}
use birdnetgo_m5stack_atom_e.Settings.{save_settings}
use birdnetgo_m5stack_atom_e.Settings.Interface.{
  Effect, restarts_i2s, applies_tx, calls, protects, limits,
}
use birdnetgo_m5stack_atom_e.Settings.Interface.Keys.{http_set}
use birdnetgo_m5stack_atom_e.Checks.Wifi.{apply_wifi_tx_power}
use birdnetgo_m5stack_atom_e.Checks.Reboot.{schedule_reboot}
use birdnetgo_m5stack_atom_e.Firmware.{Firmware, link, set_link, Outside}

pub data Request : Type 0 where
  no_request : Request  -- or a page that only shows the state
  set : Text → Option Text → Request
  clears_latch starts_server stops_server resets_i2s reboots factory_resets : Request

-- restartI2S, with the packet rates that it resets.
unfoldable pub restart_driver : Outside → Firmware → Firmware
restart_driver out fw =
    let restarted = restart_i2s out.thermal_env.core1 out.thermal_env.exit out.created (link fw) in
    record (set_link fw restarted) {
      perf = record fw.perf { max_packet_rate = 0; min_packet_rate = u32_mod - 1 };
    }

-- The calls that httpSet makes; those that only concern the log, the clock rate and Core 1's filter
-- and gain change nothing here.
unfoldable pub apply_effect : Outside → Effect → Firmware → Firmware
apply_effect out restarts_i2s fw = restart_driver out fw
apply_effect out applies_tx fw = record fw {
  radio = apply_wifi_tx_power fw.device.settings.tx_dbm fw.radio;
}
apply_effect out (calls c) fw = record fw { wg = call c fw.wg }
apply_effect out (protects on) fw = record fw { thermal = set_protection fw.thermal on }
apply_effect out (limits n) fw = record fw { thermal = set_limit fw.thermal n }
apply_effect out _ fw = fw

unfoldable pub apply_effects : Outside → List Effect → Firmware → Firmware
apply_effects out [] fw = fw
apply_effects out (e ∷ es) fw = apply_effects out es (apply_effect out e fw)

unfoldable pub serve_request : Outside → Request → Firmware → Firmware
serve_request out no_request fw = fw
serve_request out (set key value) fw =
    let changed = http_set out.arduino (record fw.device { effects = [] }) key value in
    apply_effects out changed.effects (record fw { device = changed })
serve_request out clears_latch fw = record fw {
  thermal = thermal_clear fw.thermal;
  device = record fw.device {
    flash = if fw.thermal.latched then save_settings fw.device.settings else fw.device.flash;
  };
}
serve_request out starts_server fw = record fw { thermal = (server_start fw.thermal).0 }
serve_request out stops_server fw = record fw { thermal = server_stop out.thermal_env fw.thermal }
serve_request out resets_i2s fw = restart_driver out fw
serve_request out reboots fw = record fw { reboot = schedule_reboot out.now_ms false 600 }
serve_request out factory_resets fw = record fw { reboot = schedule_reboot out.now_ms true 600 }
