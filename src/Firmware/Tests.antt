-- ===== src/Firmware/Tests.antt =====
-- The laws of the whole program at a concrete state.
mod Lives
pub mod Hung
mod Shown
mod Both
mod Packet
mod Forgets
use birdnetgo_m5stack_atom_e.Prelude.{◌-◌, refl, true, false, none, some, List, [], ◌∷◌, arith}
use birdnetgo_m5stack_atom_e.Prelude.Int.{pos}
use birdnetgo_m5stack_atom_e.Prelude.Text.{text}
use birdnetgo_m5stack_atom_e.Stream.Control.{Link}
use birdnetgo_m5stack_atom_e.Stream.Control.Laws.{IsPassive}
use birdnetgo_m5stack_atom_e.WireGuard.State.{boot}
use birdnetgo_m5stack_atom_e.WireGuard.Config.{load}
use birdnetgo_m5stack_atom_e.WireGuard.Invariant.{boot-IsWg}
use birdnetgo_m5stack_atom_e.WireGuard.Storage.{load-IsStored}
use birdnetgo_m5stack_atom_e.Thermal.{Note, Thermal, no_reason, measured}
use birdnetgo_m5stack_atom_e.Thermal.Safety.{IsSafe}
use birdnetgo_m5stack_atom_e.Settings.{default_settings, save_settings, load_limit}
use birdnetgo_m5stack_atom_e.Settings.Stored.{default_settings-IsSettings, load-save_settings}
use birdnetgo_m5stack_atom_e.Power.{dbm_19_5}
use birdnetgo_m5stack_atom_e.Rtp.Packet.{Rtp}
use birdnetgo_m5stack_atom_e.Firmware.{Firmware, Outside}
use birdnetgo_m5stack_atom_e.Firmware.Web.{no_request, set, factory_resets, serve_request}
use birdnetgo_m5stack_atom_e.Firmware.Loop.{reboot_step}
use birdnetgo_m5stack_atom_e.Firmware.Invariant.{IsFirmware}
use birdnetgo_m5stack_atom_e.Firmware.Safety.{Turn, core0, core1, turns, turns-IsFirmware}

abbrev fresh_note : Note
fresh_note = record {
  last_reason = no_reason;
  last_timestamp = [];
  trip_temp = pos 0;
  latched = false;
}

abbrev pub playing_link : Link
playing_link = record {
  stream = record {
    client_set = true;
    is_streaming = true;
    stop_requested = false;
    cleanup_done = false;
    core1_owns_led = true;
    task_running = true;
    task_handle = true;
  };
  connected = true;
}

abbrev pub thermal : Thermal
thermal = record {
  note = fresh_note;
  protection_enabled = true;
  shutdown_c = 80;
  lockout_active = false;
  triggered_at = 0;
  sensor_fault = false;
  last_temperature = pos 0;
  last_valid = false;
  max_temperature = pos 0;
  server_enabled = true;
  listening = true;
  link = playing_link;
  flash_note = fresh_note;
  flash_enabled = some true;
  flash_limit = some 80;
}

abbrev rtp : Rtp
rtp = record {
  sequence = 0;
  timestamp = 0;
  ssrc = 0x43215678;
  packets_sent = 0;
  packets_dropped = 0;
  write_failures = 0;
}

abbrev pub playing : Firmware
playing = record {
  wg = load (boot none);
  thermal = thermal;
  device = record {
    settings = default_settings;
    flash = save_settings default_settings;
    effects = [];
  };
  rtsp = record {
    session_id = [];
    last_activity_ms = 0;
    last_stats_reset = 0;
    last_play_ms = 0;
    play_count = 1;
    rtp = rtp;
    link = playing_link;
  };
  parse_buffer = [];
  incoming = [];
  outgoing = [];
  perf = record {
    min_free_heap = 100000;
    max_packet_rate = 16;
    min_packet_rate = 16;
    packets_sent = 0;
    last_stats_reset = 0;
    last_i2s_reset = 0;
    low_count = 0;
  };
  radio = record { level = dbm_19_5; driver_level = dbm_19_5; reconnects = 0 };
  reboot = record { factory_reset = false; reboot_at = 0 };
  last_temp_check = 0;
  last_memory_check = 0;
  last_performance_check = 0;
  last_wifi_check = 0;
  last_connect_ms = 20000;
  connect_count = 1;
  restarting = false;
}

-- A round 100 seconds after the boot, with a hot sensor.
abbrev pub hot : Outside
hot = record {
  now_ms = 100000;
  boot_ms = 0;
  wg_env = record {
    now_ms = 100000;
    epoch = 200000;
    wifi_connected = true;
    peer_up = false;
    begin_ok = λ a. true;
    task_ok = true;
    parsers = record { to_int = λ s. pos 0; from_string = λ s. none };
  };
  thermal_env = record {
    now_ms = 100000;
    boot_ms = 0;
    format = λ n. n ∷ [];
    core1 = λ l. l;
    exit = λ l. l;
  };
  rtsp_env = record {
    now_ms = 100000;
    local_ip = text "10.0.0.2";
    decimal = λ n. n ∷ [];
    session_number = 123456789;
    sample_rate = 16000;
    created = true;
    core1 = λ l. l;
  };
  arduino = record {
    to_int = λ s. elim s [ [] ↦ pos 0 | d ∷ rest ↦ pos (d - 48) ];
    to_float = λ s. pos 0;
    round = λ z. z;
  };
  reading = measured (pos 92160);
  free_heap = 90000;
  wifi_connected = true;
  accepts = true;
  arrived = text "OPTIONS";
  created = true;
}

pub idle-IsPassive : IsPassive (λ (l : Link). l)
idle-IsPassive = record { stays_closed = λ l h. h; stays_stopped = λ l h. h }

thermal-IsSafe : IsSafe thermal
unfolding load_limit
thermal-IsSafe = ground arith

pub playing-IsFirmware : IsFirmware playing
playing-IsFirmware = record {
  safe = thermal-IsSafe;
  wg_ok = boot-IsWg none;
  kept = load-IsStored none;
  device_ok = record {
    in_range = default_settings-IsSettings;
    stored = load-save_settings default_settings default_settings-IsSettings;
  };
  fits = omega arith;
}

-- A setting, a turn of Core 1, and a round without a request.
abbrev pub day : List Turn
day =
    core0 hot (set (text "led_mode") (some (text "2")))
    ∷ core1 (λ l. l) rtp
    ∷ core0 hot no_request
    ∷ []
