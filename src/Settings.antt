-- ===== src/Settings.antt =====
-- The audio settings (src/esp32_rtsp_mic_birdnetgo.ino): loadAudioSettings, saveAudioSettings,
-- resetToDefaultSettings and computeRecommendedMinRate. The thermal settings are in `Thermal`, but
-- for the limit's way through the flash. A float is a whole number of units of 2^-149, which every
-- finite float is; the settings are only compared and stored. i2sShiftBits is always 0.
pub mod Stored
pub mod Interface
mod Tests
use birdnetgo_m5stack_atom_e.Prelude.{
  ℕ, ◌+◌, ◌-◌, ◌*◌, ◌/◌, ◌^◌, Bool, true, false, Option, none, some, ltb, if◌then◌else◌, max,
}
use birdnetgo_m5stack_atom_e.Prelude.Int.{ℤ, pos, negsuc}

abbrev pub unit_of_float : ℕ
unit_of_float = 2 ^ 149

-- 3.0f
abbrev pub default_gain : ℤ
default_gain = pos (3 * unit_of_float)

-- 19.5f
abbrev pub default_tx : ℤ
default_tx = pos (39 * 2 ^ 148)

-- 0.1f, 100.0f and -1.0f
abbrev pub tenth : ℤ
tenth = pos (13421773 * 2 ^ 122)

abbrev pub hundred : ℤ
hundred = pos (100 * unit_of_float)

abbrev pub minus_one : ℤ
minus_one = negsuc (unit_of_float - 1)

pub record Settings : Type 0 where
  pub sample_rate : ℕ  -- uint32_t
  pub gain : ℤ
  pub buffer_size : ℕ  -- uint16_t
  pub auto_recovery : Bool
  pub scheduled_reset : Bool
  pub reset_hours : ℕ  -- uint32_t
  pub min_rate : ℕ  -- uint32_t
  pub check_interval : ℕ  -- uint32_t
  pub auto_threshold : Bool
  pub cpu_mhz : ℕ  -- uint8_t
  pub tx_dbm : ℤ
  pub highpass : Bool
  pub cutoff_hz : ℕ  -- uint16_t
  pub agc : Bool
  pub led_mode : ℕ  -- uint8_t

-- The keys of the "audio" namespace, each of which may be missing.
pub record Flash : Type 0 where
  pub sample_rate_key : Option ℕ
  pub gain_key : Option ℤ
  pub buffer_size_key : Option ℕ
  pub auto_recovery_key : Option Bool
  pub scheduled_reset_key : Option Bool
  pub reset_hours_key : Option ℕ
  pub min_rate_key : Option ℕ
  pub check_interval_key : Option ℕ
  pub auto_threshold_key : Option Bool
  pub cpu_mhz_key : Option ℕ
  pub tx_dbm_key : Option ℤ
  pub highpass_key : Option Bool
  pub cutoff_hz_key : Option ℕ
  pub agc_key : Option Bool
  pub led_mode_key : Option ℕ

-- The getters of `Preferences`: the stored value, or the default for a missing key.
abbrev pub fetch {ℓ} : {A : Type ℓ} → Option A → A → A
fetch none d = d
fetch (some a) d = a

-- `(uint32_t)(rate / buf * 0.5f + 0.5f)`. For the rates and sizes that the interface accepts, the
-- float result is off by less than its distance to the next whole number, so the division is exact.
unfoldable pub recommended_min_rate : ℕ → ℕ → ℕ
recommended_min_rate rate size =
    let buf = max 1 size in let rec = (rate + buf) / (2 * buf) in if ltb rec 5 then 5 else rec

unfoldable pub load_settings : Flash → Settings
unfolding recommended_min_rate
load_settings f =
    let rate = fetch f.sample_rate_key 16000 in
    let size = fetch f.buffer_size_key 1024 in
    let auto = fetch f.auto_threshold_key true in
    let mode = fetch f.led_mode_key 1 in
    record {
      sample_rate = rate;
      gain = fetch f.gain_key default_gain;
      buffer_size = size;
      auto_recovery = fetch f.auto_recovery_key false;
      scheduled_reset = fetch f.scheduled_reset_key false;
      reset_hours = fetch f.reset_hours_key 24;
      min_rate = if auto then recommended_min_rate rate size else fetch f.min_rate_key 50;
      check_interval = fetch f.check_interval_key 15;
      auto_threshold = auto;
      cpu_mhz = fetch f.cpu_mhz_key 160;
      tx_dbm = fetch f.tx_dbm_key default_tx;
      highpass = fetch f.highpass_key true;
      cutoff_hz = fetch f.cutoff_hz_key 300;
      agc = fetch f.agc_key false;
      led_mode = if ltb 2 mode then 1 else mode;
    }

unfoldable pub save_settings : Settings → Flash
save_settings s = record {
  sample_rate_key = some s.sample_rate;
  gain_key = some s.gain;
  buffer_size_key = some s.buffer_size;
  auto_recovery_key = some s.auto_recovery;
  scheduled_reset_key = some s.scheduled_reset;
  reset_hours_key = some s.reset_hours;
  min_rate_key = some s.min_rate;
  check_interval_key = some s.check_interval;
  auto_threshold_key = some s.auto_threshold;
  cpu_mhz_key = some s.cpu_mhz;
  tx_dbm_key = some s.tx_dbm;
  highpass_key = some s.highpass;
  cutoff_hz_key = some s.cutoff_hz;
  agc_key = some s.agc;
  led_mode_key = some s.led_mode;
}

-- The settings part of resetToDefaultSettings.
unfoldable pub default_settings : Settings
unfolding recommended_min_rate
default_settings = record {
  sample_rate = 16000;
  gain = default_gain;
  buffer_size = 1024;
  auto_recovery = false;
  scheduled_reset = false;
  reset_hours = 24;
  min_rate = recommended_min_rate 16000 1024;
  check_interval = 15;
  auto_threshold = true;
  cpu_mhz = 160;
  tx_dbm = default_tx;
  highpass = true;
  cutoff_hz = 300;
  agc = false;
  led_mode = 1;
}

-- The way of the thermal limit out of the flash and into it.
unfoldable pub load_limit : Option ℕ → ℕ
load_limit key =
    let limit = fetch key 80 in
    let limit = if ltb limit 30 then 30 else limit in
    let limit = if ltb 95 limit then 95 else limit in 30 + (limit - 30) / 5 * 5

unfoldable pub save_limit : ℕ → Option ℕ
save_limit limit =
    let limit = if ltb limit 30 then 30 else limit in some (if ltb 95 limit then 95 else limit)
