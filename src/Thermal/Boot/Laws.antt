-- ===== src/Thermal/Boot/Laws.antt =====
-- What holds of the latch from the start-up on, and over a power cycle
-- (src/esp32_rtsp_mic_birdnetgo.ino, setup).
use birdnetgo_m5stack_atom_e.Prelude.{◌≡◌, ◌∙◌, true, false, Option, none, some, List, arith, All}
use birdnetgo_m5stack_atom_e.Prelude.Int.{ℤ}
use birdnetgo_m5stack_atom_e.Settings.Stored.{load_limit_lem}
use birdnetgo_m5stack_atom_e.Thermal.{Reading, valid_temperature, Thermal}
use birdnetgo_m5stack_atom_e.Thermal.Safety.{IsSafe, Event, Exits, events, events-IsSafe}
use birdnetgo_m5stack_atom_e.Thermal.Boot.{
  Stored, load_thermal, setup_server, first_reading, setup, switched_off,
}

setup_server-IsSafe : (f : Stored) → IsSafe (setup_server (load_thermal f))
unfolding setup_server load_thermal
setup_server-IsSafe f = ground (arith, load_limit_lem f.limit_key)

first_reading-IsSafe : (d : Thermal) (o : Option ℤ) → IsSafe d → IsSafe (first_reading d o)
unfolding first_reading
first_reading-IsSafe d (some t) v = ground arith
first_reading-IsSafe d none v = ground arith

pub setup-IsSafe : (f : Stored) (reading : Reading) → IsSafe (setup f reading)
unfolding setup
setup-IsSafe f reading =
    first_reading-IsSafe (setup_server (load_thermal f)) (valid_temperature reading)
      (setup_server-IsSafe f)

-- Whatever the flash holds and the sensor reads at the start-up, over any events from there on where
-- Core 1's task opens nothing while it exits: while the latch is set the server neither listens nor is
-- enabled and nothing streams, the limit stays one of 30, 35, ..., 95 degrees, and the flash holds the
-- latch as it is.
pub setup-events-IsSafe :
    (f : Stored) (reading : Reading) (es : List Event)
    → All Exits es
    → IsSafe (events es (setup f reading))
setup-events-IsSafe f reading es p = events-IsSafe es (setup f reading) p (setup-IsSafe f reading)

setup-latched :
    (f : Stored) (reading : Reading)
    → f.note_keys.latched ≡ true
    → let d = setup f reading in
      (d.latched ≡ true) × (d.server_enabled ≡ false) × (d.listening ≡ false)
unfolding setup setup_server load_thermal first_reading
setup-latched f reading h = ground arith

-- A latch that is set after any events survives a power cycle: whatever the sensor reads at the next
-- start-up, the latch is set and the server neither enabled nor listening.
pub reboot_latched :
    (es : List Event) (d : Thermal) (reading : Reading)
    → All Exits es
    → IsSafe d
    → (events es d).latched ≡ true
    → let d' = setup (switched_off (events es d)) reading in
      (d'.latched ≡ true) × (d'.server_enabled ≡ false) × (d'.listening ≡ false)
unfolding switched_off
reboot_latched es d reading p v h =
    setup-latched (switched_off (events es d)) reading ((events-IsSafe es d p v).stored ∙ h)
