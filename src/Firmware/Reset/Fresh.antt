-- ===== src/Firmware/Reset/Fresh.antt =====
-- What a start-up finds after a factory reset (src/esp32_rtsp_mic_birdnetgo.ino:
-- resetToDefaultSettings, loadAudioSettings, setup).
use birdnetgo_m5stack_atom_e.Prelude.{◌≡◌, refl, true, false, Option, none, some}
use birdnetgo_m5stack_atom_e.Prelude.Int.{ℤ}
use birdnetgo_m5stack_atom_e.WireGuard.State.{boot, default_config}
use birdnetgo_m5stack_atom_e.WireGuard.Config.{load}
use birdnetgo_m5stack_atom_e.Thermal.{
  Thermal, Reading, save_thermal, persist_note, valid_temperature, start_listening,
}
use birdnetgo_m5stack_atom_e.Thermal.Boot as ThermalBoot
use birdnetgo_m5stack_atom_e.Thermal.Boot.{load_thermal, setup_server, first_reading, switched_off}
use birdnetgo_m5stack_atom_e.Settings.{load_limit, load_settings, save_settings, default_settings}
use birdnetgo_m5stack_atom_e.Firmware.{Firmware, link, reset_thermal, reset_to_defaults}
use birdnetgo_m5stack_atom_e.Firmware.Boot as Boot
use birdnetgo_m5stack_atom_e.Firmware.Boot.{PowerUp, power_off}

-- A start-up with the default settings, no tunnel, the protection at its defaults, no latch and no
-- stream.
pub record IsFreshBoot (fw : Firmware) : Type 0 where
  pub settings : fw.device.settings ≡ default_settings
  pub config : fw.wg.config ≡ default_config
  pub protected : fw.thermal.protection_enabled ≡ true
  pub limit : fw.thermal.shutdown_c ≡ 80
  pub unlatched : fw.thermal.note.latched ≡ false
  pub server : fw.thermal.server_enabled ≡ true
  pub quiet : (link fw).is_streaming ≡ false

record IsFreshThermal (d : Thermal) : Type 0 where
  protected : d.protection_enabled ≡ true
  limit : d.shutdown_c ≡ 80
  unlatched : d.note.latched ≡ false
  server : d.server_enabled ≡ true
  quiet : d.link.stream.is_streaming ≡ false

load-default_settings : load_settings (save_settings default_settings) ≡ default_settings
unfolding load_settings save_settings default_settings
load-default_settings = refl

first_reading-IsFreshThermal :
    (d : Thermal) (o : Option ℤ) → IsFreshThermal d → IsFreshThermal (first_reading d o)
unfolding first_reading persist_note
first_reading-IsFreshThermal d none v = record {
  protected = v.protected;
  limit = v.limit;
  unlatched = v.unlatched;
  server = v.server;
  quiet = v.quiet;
}
first_reading-IsFreshThermal d (some t) v = record {
  protected = v.protected;
  limit = v.limit;
  unlatched = v.unlatched;
  server = v.server;
  quiet = v.quiet;
}

load_thermal-IsFreshThermal :
    (d : Thermal) → IsFreshThermal (setup_server (load_thermal (switched_off (reset_thermal d))))
unfolding setup_server load_thermal switched_off reset_thermal save_thermal persist_note
    start_listening load_limit
load_thermal-IsFreshThermal d = record {
  protected = refl;
  limit = refl;
  unlatched = refl;
  server = refl;
  quiet = refl;
}

setup-IsFreshThermal :
    (d : Thermal) (reading : Reading)
    → IsFreshThermal (ThermalBoot.setup (switched_off (reset_thermal d)) reading)
unfolding ThermalBoot.setup
setup-IsFreshThermal d reading =
    first_reading-IsFreshThermal _ (valid_temperature reading) (load_thermal-IsFreshThermal d)

pub setup-IsFreshBoot :
    (up : PowerUp) (fw : Firmware)
    → IsFreshBoot (Boot.setup up (power_off (record (reset_to_defaults fw) { restarting = true })))
unfolding Boot.setup power_off reset_to_defaults load boot
setup-IsFreshBoot up fw =
    let t = setup-IsFreshThermal fw.thermal up.reading in
    record {
      settings = load-default_settings;
      config = refl;
      protected = t.protected;
      limit = t.limit;
      unlatched = t.unlatched;
      server = t.server;
      quiet = t.quiet;
    }
