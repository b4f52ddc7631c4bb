-- ===== src/Firmware/Boot/Laws.antt =====
-- What a power cycle keeps (src/esp32_rtsp_mic_birdnetgo.ino, setup).
use birdnetgo_m5stack_atom_e.Prelude.{
  ◌≡◌, ap, sym, subst, ◌∙◌, Bool, true, false, Option, none, some, List, [], ◌∷◌, arith, All,
  if◌then◌else◌,
}
use birdnetgo_m5stack_atom_e.Prelude.Int.{ℤ}
use birdnetgo_m5stack_atom_e.WireGuard.State.{boot}
use birdnetgo_m5stack_atom_e.WireGuard.Config.{load}
use birdnetgo_m5stack_atom_e.WireGuard.Invariant.{IsWg, boot-IsWg}
use birdnetgo_m5stack_atom_e.WireGuard.Storage.{load-IsStored}
use birdnetgo_m5stack_atom_e.Thermal.{Thermal, Reading, valid_temperature}
use birdnetgo_m5stack_atom_e.Thermal.Safety.{IsSafe}
use birdnetgo_m5stack_atom_e.Thermal.Boot as ThermalBoot
use birdnetgo_m5stack_atom_e.Thermal.Boot.{switched_off, load_thermal, setup_server, first_reading}
use birdnetgo_m5stack_atom_e.Thermal.Boot.Laws.{setup-IsSafe}
use birdnetgo_m5stack_atom_e.Settings.{
  Settings, Flash, recommended_min_rate, load_settings, load_limit, fetch,
}
use birdnetgo_m5stack_atom_e.Settings.Stored.{
  IsSettings, recommended_low, recommended_high, reloaded,
}
use birdnetgo_m5stack_atom_e.Firmware.{Firmware, link}
use birdnetgo_m5stack_atom_e.Firmware.Invariant.{IsFirmware}
use birdnetgo_m5stack_atom_e.Firmware.Safety.{Turn, StartsNone, turns, turns-IsFirmware}
use birdnetgo_m5stack_atom_e.Firmware.Boot.{Persistent, PowerUp, setup, power_off}

-- A device, and the same behind a power cycle.
pub record IsRestored (fw fw' : Firmware) : Type 0 where
  pub settings : fw'.device.settings ≡ reloaded fw.device.settings
  pub in_range : IsSettings fw'.device.settings
  pub tunnel : fw'.wg.config ≡ fw.wg.config
  pub latch : fw'.thermal.latched ≡ fw.thermal.latched
  pub limit : fw'.thermal.shutdown_c ≡ fw.thermal.shutdown_c
  pub protection : fw'.thermal.protection_enabled ≡ fw.thermal.protection_enabled
  pub serves : fw'.thermal.server_enabled ≡ (if fw.thermal.latched then false else true)
  pub safe : IsSafe fw'.thermal
  pub wg_ok : IsWg fw'.wg
  pub quiet : (link fw').is_streaming ≡ false

load_settings-reloaded : (f : Flash) → load_settings f ≡ reloaded (load_settings f)
unfolding load_settings recommended_min_rate
load_settings-reloaded f = ground arith

-- The start-up makes a device in order of any flash with settings in their ranges.
setup-IsFirmware :
    (up : PowerUp) (kept : Persistent)
    → IsSettings (load_settings kept.audio_keys)
    → IsFirmware (setup up kept)
unfolding setup
setup-IsFirmware up kept v = record {
  safe = setup-IsSafe kept.thermal_keys up.reading;
  wg_ok = boot-IsWg kept.wg_keys;
  kept = load-IsStored kept.wg_keys;
  device_ok = record { in_range = v; stored = load_settings-reloaded kept.audio_keys };
  fits = omega arith;
}

reloaded-IsSettings : (s : Settings) → IsSettings s → IsSettings (reloaded s)
reloaded-IsSettings s v = ground (
  arith,
  recommended_low s.sample_rate s.buffer_size,
  recommended_high s.sample_rate s.buffer_size v.rate_high v.size_low,
)

-- What the start-up makes of the thermal part, whatever the sensor reads.
pub record IsThermalBoot (f : ThermalBoot.Stored) (d : Thermal) : Type 0 where
  pub latch : d.latched ≡ f.note_keys.latched
  pub limit : d.shutdown_c ≡ load_limit f.limit_key
  pub serves : d.server_enabled ≡ (if f.note_keys.latched then false else true)
  pub protection : d.protection_enabled ≡ fetch f.enabled_key true
  pub quiet : d.link.is_streaming ≡ false

thermal_boot :
    (f : ThermalBoot.Stored) (reading : Reading) → IsThermalBoot f (ThermalBoot.setup f reading)
unfolding ThermalBoot.setup load_thermal setup_server first_reading
thermal_boot f reading = at (valid_temperature reading)
  where
    at : (o : Option ℤ) → IsThermalBoot f (first_reading (setup_server (load_thermal f)) o)
    at none = ground arith
    at (some t) = ground arith

-- What a device in order is behind a power cycle.
power_cycle-IsRestored :
    (fw : Firmware) (up : PowerUp) → IsFirmware fw → IsRestored fw (setup up (power_off fw))
unfolding setup power_off switched_off load boot
power_cycle-IsRestored fw up v =
    let loaded : load_settings fw.device.flash ≡ reloaded fw.device.settings = v.device_ok.stored in
    let booted = thermal_boot (switched_off fw.thermal) up.reading in
    let wg_ok = boot-IsWg fw.wg.nvs in
    record {
      settings = loaded;
      in_range =
          subst IsSettings (sym loaded)
            (reloaded-IsSettings fw.device.settings v.device_ok.in_range);
      tunnel = v.kept;
      latch = booted.latch ∙ v.safe.stored;
      limit = booted.limit ∙ v.safe.stored_limit;
      protection = booted.protection ∙ v.safe.stored_protection;
      serves = booted.serves ∙ ap (λ (b : Bool). if b then false else true) v.safe.stored;
      safe = setup-IsSafe (switched_off fw.thermal) up.reading;
      wg_ok = wg_ok;
      quiet = booted.quiet;
    }

-- A power cycle after any rounds of the loop with any requests and any turns of Core 1 that start no
-- stream by themselves brings back the settings, within their ranges, but for the minimum rate in the
-- automatic mode, which is the recommended one; the tunnel's settings; the latch, the thermal limit
-- and the switch of the protection. The server is enabled exactly without a latch, nothing streams,
-- and the thermal part and the manager keep their invariants.
pub turns-IsRestored :
    (ts : List Turn) (fw : Firmware) (up : PowerUp)
    → All StartsNone ts
    → IsFirmware fw
    → IsRestored (turns ts fw) (setup up (power_off (turns ts fw)))
turns-IsRestored ts fw up p v = power_cycle-IsRestored (turns ts fw) up (turns-IsFirmware ts fw p v)

-- A start-up and the rounds up to the next loss of power, any number of times.
unfoldable pub lives : List (PowerUp × List Turn) → Persistent → Persistent
lives [] kept = kept
lives ((up, ts) ∷ rest) kept = lives rest (power_off (turns ts (setup up kept)))

abbrev pub StartNone : List (PowerUp × List Turn) → Type 0
StartNone [] = Unit {0}
StartNone ((up, ts) ∷ rest) = All StartsNone ts × StartNone rest

power_off-IsSettings :
    (fw : Firmware) → IsFirmware fw → IsSettings (load_settings (power_off fw).audio_keys)
unfolding power_off
power_off-IsSettings fw v =
    subst IsSettings (sym v.device_ok.stored)
      (reloaded-IsSettings fw.device.settings v.device_ok.in_range)

lives-IsSettings :
    (ls : List (PowerUp × List Turn)) (kept : Persistent)
    → StartNone ls
    → IsSettings (load_settings kept.audio_keys)
    → IsSettings (load_settings (lives ls kept).audio_keys)
unfolding lives
lives-IsSettings [] kept p v = v
lives-IsSettings ((up, ts) ∷ rest) kept p v =
    let fw = turns ts (setup up kept) in
    let w = turns-IsFirmware ts (setup up kept) p.0 (setup-IsFirmware up kept v) in
    lives-IsSettings rest (power_off fw) p.1 (power_off-IsSettings fw w)

-- From a flash with audio settings in their ranges, such as an erased one, over any number of
-- start-ups, rounds of the loop with any requests, turns of Core 1 that start no stream by themselves,
-- and losses of power between two of these: a latched device has its server down and streams nothing,
-- the tunnel manager keeps its invariant, the audio settings stay in their ranges, the flash holds the
-- tunnel's settings and, but for the minimum rate in the automatic mode, the audio settings, and the
-- parse buffer does not overflow.
pub lives-IsFirmware :
    (ls : List (PowerUp × List Turn)) (kept : Persistent) (up : PowerUp) (ts : List Turn)
    → StartNone ls
    → All StartsNone ts
    → IsSettings (load_settings kept.audio_keys)
    → IsFirmware (turns ts (setup up (lives ls kept)))
lives-IsFirmware ls kept up ts p q v =
    turns-IsFirmware ts (setup up (lives ls kept)) q
      (setup-IsFirmware up (lives ls kept) (lives-IsSettings ls kept p v))
