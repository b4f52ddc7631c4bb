-- ===== src/Thermal/Trip.antt =====
-- When checkTemperature (src/esp32_rtsp_mic_birdnetgo.ino) sets the thermal latch and what it then
-- records.
use birdnetgo_m5stack_atom_e.Prelude.{
  ℕ, ◌≡◌, refl, sym, subst, ap, ◌∙◌, true, false, Option, none, some, arith,
}
use birdnetgo_m5stack_atom_e.Prelude.Int.{ℤ, leb_int}
use birdnetgo_m5stack_atom_e.Stream.Control.Laws.{IsPassive}
use birdnetgo_m5stack_atom_e.Thermal.{
  Reading, Thermal, Env, degrees, valid_temperature, sensor_lost, sensor_read, record_overheat_trip,
  stop_if_streaming, trip, protect, on_reading, check_temperature, shutdown_at,
}
use birdnetgo_m5stack_atom_e.Thermal.Safety.{stop_if_streaming-stopped, stop_audio_task-stopped}

-- The device after a shutdown at a temperature.
pub record IsTripped (limit : ℕ) (t : ℤ) (d : Thermal) : Type 0 where
  pub is_latched : d.latched ≡ true
  pub is_locked : d.lockout_active ≡ true
  pub is_off : d.server_enabled ≡ false
  pub is_closed : d.listening ≡ false
  pub is_quiet : d.link.is_streaming ≡ false
  pub why : d.last_reason ≡ shutdown_at t limit
  pub at_temp : d.trip_temp ≡ t
  pub kept : d.flash_note ≡ d.note

trip-IsTripped :
    (env : Env) (d : Thermal) (t : ℤ) → IsPassive env.exit → IsTripped d.shutdown_c t (trip env d t)
unfolding trip record_overheat_trip
trip-IsTripped env d t p =
    let quiet =
      stop_audio_task-stopped env.exit (stop_if_streaming env d.link) p
        (stop_if_streaming-stopped env d.link) in
    ground arith

protect-trips :
    (env : Env) (d : Thermal) (t : ℤ)
    → IsPassive env.exit
    → d.protection_enabled ≡ true
    → d.sensor_fault ≡ false
    → d.lockout_active ≡ false
    → leb_int (degrees d.shutdown_c) t ≡ true
    → IsTripped d.shutdown_c t (protect env d t)
unfolding protect
protect-trips env d t p on sound free hot = let tripped = trip-IsTripped env d t p in ground arith

-- The one way the latch is set: a valid reading at or above the limit, the protection being on.
protect-latched :
    (env : Env) (d : Thermal) (t : ℤ)
    → d.latched ≡ false
    → (protect env d t).latched ≡ true
    → (d.protection_enabled ≡ true) × (leb_int (degrees d.shutdown_c) t ≡ true)
unfolding protect
protect-latched env d t low high = ground arith

sensor_lost-latched : (d : Thermal) → (sensor_lost d).latched ≡ d.latched
unfolding sensor_lost
sensor_lost-latched d = ground arith

sensor_read-latched :
    (env : Env) (d : Thermal) (t : ℤ)
    → ((sensor_read env d t).latched ≡ d.latched)
      × ((sensor_read env d t).protection_enabled ≡ d.protection_enabled)
      × ((sensor_read env d t).shutdown_c ≡ d.shutdown_c)
unfolding sensor_read
sensor_read-latched env d t = ground arith

sensor_read-free :
    (env : Env) (d : Thermal) (t : ℤ)
    → ((sensor_read env d t).sensor_fault ≡ false)
      × ((sensor_read env d t).lockout_active ≡ d.lockout_active)
unfolding sensor_read
sensor_read-free env d t = ground arith

read-trips :
    (env : Env) (d : Thermal) (t : ℤ)
    → IsPassive env.exit
    → d.protection_enabled ≡ true
    → d.lockout_active ≡ false
    → leb_int (degrees d.shutdown_c) t ≡ true
    → IsTripped d.shutdown_c t (protect env (sensor_read env d t) t)
read-trips env d t p on free hot =
    let d' = sensor_read env d t in
    let (latched, enabled, limit) = sensor_read-latched env d t in
    let (sound, lockout) = sensor_read-free env d t in
    subst (λ (n : ℕ). IsTripped n t (protect env d' t)) limit
      (protect-trips env d' t p (enabled ∙ on) sound (lockout ∙ free)
        (ap (λ (n : ℕ). leb_int (degrees n) t) limit ∙ hot))

-- A valid reading at or above the limit, with the protection on and no lockout, where Core 1's task
-- opens nothing while it exits, shuts the server and the stream down, sets the latch and records the
-- reason, the limit and the temperature, in the flash as well.
pub check_temperature-IsTripped :
    (env : Env) (d : Thermal) (reading : Reading) (t : ℤ)
    → IsPassive env.exit
    → valid_temperature reading ≡ some t
    → d.protection_enabled ≡ true
    → d.lockout_active ≡ false
    → leb_int (degrees d.shutdown_c) t ≡ true
    → IsTripped d.shutdown_c t (check_temperature env d reading)
unfolding check_temperature on_reading
check_temperature-IsTripped env d reading t p valid on free hot =
    subst (λ (o : Option ℤ). IsTripped d.shutdown_c t (on_reading env d o)) (sym valid)
      (read-trips env d t p on free hot)

on_reading-latched :
    (env : Env) (d : Thermal) (o : Option ℤ)
    → d.latched ≡ false
    → (on_reading env d o).latched ≡ true
    → (d.protection_enabled ≡ true)
      × (t : ℤ) × (o ≡ some t)
      × (leb_int (degrees d.shutdown_c) t ≡ true)
unfolding on_reading
on_reading-latched env d none low high = ground (arith, sensor_lost-latched d)
on_reading-latched env d (some t) low high =
    let (latched, enabled, limit) = sensor_read-latched env d t in
    let (on, hot) = protect-latched env (sensor_read env d t) t (latched ∙ low) high in
    (sym enabled ∙ on, t, refl, ap (λ (n : ℕ). leb_int (degrees n) t) (sym limit) ∙ hot)

-- Where a reading sets the latch, it is valid and at or above the limit, and the protection is on.
pub check_temperature-latched :
    (env : Env) (d : Thermal) (reading : Reading)
    → d.latched ≡ false
    → (check_temperature env d reading).latched ≡ true
    → (d.protection_enabled ≡ true)
      × (t : ℤ) × (valid_temperature reading ≡ some t)
      × (leb_int (degrees d.shutdown_c) t ≡ true)
unfolding check_temperature
check_temperature-latched env d reading low high =
    on_reading-latched env d (valid_temperature reading) low high
