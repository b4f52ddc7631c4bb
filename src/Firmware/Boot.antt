-- ===== src/Firmware/Boot.antt =====
-- The start-up (src/esp32_rtsp_mic_birdnetgo.ino, setup) of all components of Core 0, from what the
-- flash holds. The calls of libraries (M5, Serial, WiFiManager, NTP, mDNS, the I2S driver, the web
-- server), the LED and the log are left out, and `millis()` is read once.
pub mod Laws
use birdnetgo_m5stack_atom_e.Prelude.{ℕ, ◌-◌, false, Option, []}
use birdnetgo_m5stack_atom_e.Prelude.Words.{u32_mod}
use birdnetgo_m5stack_atom_e.WireGuard.State.{WgConfig, boot}
use birdnetgo_m5stack_atom_e.WireGuard.Config.{load}
use birdnetgo_m5stack_atom_e.Thermal.{Reading}
use birdnetgo_m5stack_atom_e.Thermal.Boot as ThermalBoot
use birdnetgo_m5stack_atom_e.Thermal.Boot.{no_link, switched_off}
use birdnetgo_m5stack_atom_e.Settings.{Flash, load_settings}
use birdnetgo_m5stack_atom_e.Power.{dbm_19_5}
use birdnetgo_m5stack_atom_e.Checks.Wifi.{apply_wifi_tx_power}
use birdnetgo_m5stack_atom_e.Firmware.{Firmware}

-- What stays without power: the thermal keys and the other keys of the "audio" namespace, and the
-- "wg" namespace.
pub record Persistent : Type 0 where
  pub thermal_keys : ThermalBoot.Stored
  pub audio_keys : Flash
  pub wg_keys : Option WgConfig

-- What the start-up reads of the outside.
pub record PowerUp : Type 0 where
  pub now_ms : ℕ
  pub ssrc : ℕ  -- random(1, 0x7FFFFFFF)
  pub reading : Reading
  pub free_heap : ℕ

unfoldable pub setup : PowerUp → Persistent → Firmware
setup up kept =
    let settings = load_settings kept.audio_keys in
    record {
      wg = load (boot kept.wg_keys);
      thermal = ThermalBoot.setup kept.thermal_keys up.reading;
      device = record { settings = settings; flash = kept.audio_keys; effects = [] };
      rtsp = record {
        session_id = [];
        last_activity_ms = up.now_ms;
        last_stats_reset = up.now_ms;
        last_play_ms = 0;
        play_count = 0;
        rtp = record {
          sequence = 0;
          timestamp = 0;
          ssrc = up.ssrc;
          packets_sent = 0;
          packets_dropped = 0;
          write_failures = 0;
        };
        link = no_link;
      };
      parse_buffer = [];
      incoming = [];
      outgoing = [];
      perf = record {
        min_free_heap = up.free_heap;
        max_packet_rate = 0;
        min_packet_rate = u32_mod - 1;
        packets_sent = 0;
        last_stats_reset = up.now_ms;
        last_i2s_reset = 0;
        low_count = 0;
      };
      radio =
          apply_wifi_tx_power settings.tx_dbm
            (record { level = dbm_19_5; driver_level = dbm_19_5; reconnects = 0 });
      reboot = record { factory_reset = false; reboot_at = 0 };
      last_temp_check = 0;
      last_memory_check = up.now_ms;
      last_performance_check = up.now_ms;
      last_wifi_check = up.now_ms;
      last_connect_ms = 0;
      connect_count = 0;
      restarting = false;
    }

unfoldable pub power_off : Firmware → Persistent
power_off fw = record {
  thermal_keys = switched_off fw.thermal;
  audio_keys = fw.device.flash;
  wg_keys = fw.wg.nvs;
}
