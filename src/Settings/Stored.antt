-- ===== src/Settings/Stored.antt =====
-- The settings' way through the flash (src/esp32_rtsp_mic_birdnetgo.ino).
use native.Mathlib.Nat.{div-lt_iff_lt-mul}
use birdnetgo_m5stack_atom_e.Prelude.{
  ◌+◌, ◌*◌, ◌/◌, ◌<◌, max, ℕ, Bool, true, ◌&&◌, ◌%◌, ◌≤◌, ◌≡◌, if◌then◌else◌, Option, none, some,
  arith,
}
use birdnetgo_m5stack_atom_e.Prelude.Int.{ℤ, leb_int}
use birdnetgo_m5stack_atom_e.Settings.{
  default_tx, tenth, hundred, minus_one, Settings, recommended_min_rate, load_settings,
  save_settings, load_limit, save_limit, default_settings,
}

-- A gain of 0.1 to 100, and a power of -1 to 19.5 dBm.
unfoldable pub is_gain : ℤ → Bool
is_gain x = leb_int tenth x && leb_int x hundred

unfoldable pub is_tx : ℤ → Bool
is_tx x = leb_int minus_one x && leb_int x default_tx

-- The settings that the program can hold.
pub record IsSettings (s : Settings) : Type 0 where
  pub rate_low : 8000 ≤ s.sample_rate
  pub rate_high : s.sample_rate ≤ 96000
  pub size_low : 256 ≤ s.buffer_size
  pub size_high : s.buffer_size ≤ 8192
  pub hours_low : 1 ≤ s.reset_hours
  pub hours_high : s.reset_hours ≤ 168
  pub interval_low : 1 ≤ s.check_interval
  pub interval_high : s.check_interval ≤ 60
  pub cpu_low : 40 ≤ s.cpu_mhz
  pub cpu_high : s.cpu_mhz ≤ 240
  pub cutoff_low : 10 ≤ s.cutoff_hz
  pub cutoff_high : s.cutoff_hz ≤ 10000
  pub mode_high : s.led_mode ≤ 2
  pub min_low : 5 ≤ s.min_rate
  pub min_high : s.min_rate ≤ 200
  pub gain_ok : is_gain s.gain ≡ true
  pub tx_ok : is_tx s.tx_dbm ≡ true

pub recommended_low : (r b : ℕ) → 5 ≤ recommended_min_rate r b
unfolding recommended_min_rate
recommended_low r b = ground arith

pub recommended_high : (r b : ℕ) → r ≤ 96000 → 256 ≤ b → recommended_min_rate r b ≤ 200
unfolding recommended_min_rate
recommended_high r b small large =
    let bound : (r + max 1 b) / (2 * max 1 b) < 201 =
      (div-lt_iff_lt-mul {k = 2 * max 1 b} (omega arith)).1 (omega arith) in
    ground arith

-- The settings as they are loaded: the minimum rate is the recommended one in the automatic mode.
abbrev pub reloaded : Settings → Settings
reloaded s = record s {
  min_rate =
      if s.auto_threshold then recommended_min_rate s.sample_rate s.buffer_size else s.min_rate;
}

-- Settings in their ranges survive a save and a reboot, but for the minimum rate in the automatic
-- mode, which is the recommended one again.
pub load-save_settings :
    (s : Settings) → IsSettings s → load_settings (save_settings s) ≡ reloaded s
unfolding load_settings save_settings
load-save_settings s v = ground arith

-- The settings of a factory reset are in their ranges.
pub default_settings-IsSettings : IsSettings default_settings
unfolding default_settings recommended_min_rate is_gain is_tx
default_settings-IsSettings = ground arith

-- Whatever number the flash holds for the thermal limit, the limit loaded is one of 30, 35, ..., 95,
-- and such a limit survives a save and a reboot.
pub load_limit_lem :
    (key : Option ℕ)
    → (30 ≤ load_limit key)
      × (load_limit key ≤ 95)
      × (load_limit key % 5 ≡ 0)
      × (load_limit (save_limit (load_limit key)) ≡ load_limit key)
unfolding load_limit save_limit
load_limit_lem none = ground arith
load_limit_lem (some n) = ground arith
