-- ===== src/Firmware/Tests/Lives.antt =====
-- Losses of power, from an erased flash on.
use birdnetgo_m5stack_atom_e.Prelude.{◌≡◌, refl, subst, sym, false, none, [], ◌∷◌}
use birdnetgo_m5stack_atom_e.Prelude.Int.{pos}
use birdnetgo_m5stack_atom_e.Thermal.{no_reason, measured}
use birdnetgo_m5stack_atom_e.Settings.{default_settings, load_settings, recommended_min_rate}
use birdnetgo_m5stack_atom_e.Settings.Stored.{IsSettings, default_settings-IsSettings}
use birdnetgo_m5stack_atom_e.Firmware.Boot.{Persistent, PowerUp, setup, power_off}
use birdnetgo_m5stack_atom_e.Firmware.Boot.Laws.{
  IsRestored, turns-IsRestored, lives, lives-IsFirmware,
}
use birdnetgo_m5stack_atom_e.Firmware.Invariant.{IsFirmware}
use birdnetgo_m5stack_atom_e.Firmware.Safety.{turns}
use birdnetgo_m5stack_atom_e.Firmware.Tests.{playing, playing-IsFirmware, day, idle-IsPassive}

abbrev erased : Persistent
erased = record {
  thermal_keys = record {
    enabled_key = none;
    limit_key = none;
    note_keys = record {
      last_reason = no_reason;
      last_timestamp = [];
      trip_temp = pos 0;
      latched = false;
    };
  };
  audio_keys = record {
    sample_rate_key = none;
    gain_key = none;
    buffer_size_key = none;
    auto_recovery_key = none;
    scheduled_reset_key = none;
    reset_hours_key = none;
    min_rate_key = none;
    check_interval_key = none;
    auto_threshold_key = none;
    cpu_mhz_key = none;
    tx_dbm_key = none;
    highpass_key = none;
    cutoff_hz_key = none;
    agc_key = none;
    led_mode_key = none;
  };
  wg_keys = none;
}

abbrev morning : PowerUp
morning = record {
  now_ms = 900;
  ssrc = 0x12345678;
  reading = measured (pos 40000);
  free_heap = 120000;
}

erased_default : load_settings erased.audio_keys ≡ default_settings
unfolding load_settings default_settings recommended_min_rate
erased_default = refl

erased-IsSettings : IsSettings (load_settings erased.audio_keys)
erased-IsSettings = subst IsSettings (sym erased_default) default_settings-IsSettings

turns-IsRestored_example :
    IsRestored (turns day playing) (setup morning (power_off (turns day playing)))
turns-IsRestored_example =
    turns-IsRestored day playing morning (idle-IsPassive, (idle-IsPassive, (idle-IsPassive, tt)))
      playing-IsFirmware

lives-IsFirmware_example :
    IsFirmware (turns day (setup morning (lives ((morning, day) ∷ []) erased)))
lives-IsFirmware_example =
    lives-IsFirmware ((morning, day) ∷ []) erased morning day
      ((idle-IsPassive, (idle-IsPassive, (idle-IsPassive, tt))), tt)
      (idle-IsPassive, (idle-IsPassive, (idle-IsPassive, tt))) erased-IsSettings
