-- ===== src/Thermal/Boot.antt =====
-- The thermal part of the start-up (src/esp32_rtsp_mic_birdnetgo.ino: loadAudioSettings and setup):
-- what the flash holds, the server's start, and the first reading of the sensor.
pub mod Laws
use birdnetgo_m5stack_atom_e.Prelude.{ℕ, Bool, true, false, Option, none, some, [], if◌then◌else◌}
use birdnetgo_m5stack_atom_e.Prelude.Int.{ℤ, pos}
use birdnetgo_m5stack_atom_e.Stream.Control.{Link}
use birdnetgo_m5stack_atom_e.Settings.{fetch, load_limit, save_limit}
use birdnetgo_m5stack_atom_e.Thermal.{
  Reading, valid_temperature, sensor_unavailable, Note, Thermal, persist_note, start_listening,
}

-- The keys of the "audio" namespace; the note of a missing key is the empty one.
pub record Stored : Type 0 where
  pub enabled_key : Option Bool
  pub limit_key : Option ℕ
  pub note_keys : Note

-- No stream, and no task on Core 1.
abbrev pub no_link : Link
no_link = record {
  stream = record {
    client_set = false;
    is_streaming = false;
    stop_requested = false;
    cleanup_done = false;
    core1_owns_led = false;
    task_running = false;
    task_handle = false;
  };
  connected = false;
}

unfoldable pub load_thermal : Stored → Thermal
load_thermal f = record {
  note = f.note_keys;
  protection_enabled = fetch f.enabled_key true;
  shutdown_c = load_limit f.limit_key;
  lockout_active = false;
  triggered_at = 0;
  sensor_fault = false;
  last_temperature = pos 0;
  last_valid = false;
  max_temperature = pos 0;
  server_enabled = if f.note_keys.latched then false else true;
  listening = false;
  link = no_link;
  flash_note = f.note_keys;
  flash_enabled = f.enabled_key;
  flash_limit = f.limit_key;
}

unfoldable pub setup_server : Thermal → Thermal
unfolding start_listening
setup_server d =
    if d.latched then record d { server_enabled = false; listening = false } else start_listening d

unfoldable pub first_reading : Thermal → Option ℤ → Thermal
unfolding persist_note
first_reading d (some t) = record d {
  max_temperature = t;
  last_temperature = t;
  last_valid = true;
  sensor_fault = false;
}
first_reading d none = persist_note (record d {
  max_temperature = pos 0;
  last_temperature = pos 0;
  last_valid = false;
  sensor_fault = true;
  triggered_at = 0;
  note = record d.note { last_reason = sensor_unavailable; last_timestamp = []; trip_temp = pos 0 };
})

unfoldable pub setup : Stored → Reading → Thermal
setup f reading = first_reading (setup_server (load_thermal f)) (valid_temperature reading)

-- What the flash holds of a device that was switched off.
unfoldable pub switched_off : Thermal → Stored
switched_off d = record {
  enabled_key = d.flash_enabled;
  limit_key = d.flash_limit;
  note_keys = d.flash_note;
}
