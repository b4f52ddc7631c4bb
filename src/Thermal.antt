-- ===== src/Thermal.antt =====
-- Thermal protection and the RTSP server's switch: checkTemperature, recordOverheatTrip,
-- persistOverheatNote and the loop's server branch (src/esp32_rtsp_mic_birdnetgo.ino),
-- httpThermalClear, httpActionServerStart, httpActionServerStop and the keys oh_enable and oh_limit
-- of httpSet (src/WebUI.cpp). Log lines, LED colours and the occasional warning are left out.
-- A temperature is a number of 1/1024 degrees Celsius: the code only compares temperatures, with
-- whole degrees and with each other.
pub mod Safety
pub mod Trip
pub mod Boot
mod Tests
use birdnetgo_m5stack_atom_e.Prelude.{
  ℕ, ◌+◌, ◌-◌, ◌*◌, ◌/◌, Bool, true, false, not, ◌&&◌, Option, none, some, [], ltb, leb,
  if◌then◌else◌,
}
use birdnetgo_m5stack_atom_e.Prelude.Int.{ℤ, pos, negsuc, leb_int, ltb_int}
use birdnetgo_m5stack_atom_e.Prelude.Text.{Text}
use birdnetgo_m5stack_atom_e.Prelude.Words.{sub32}
use birdnetgo_m5stack_atom_e.Stream.{Stream}
use birdnetgo_m5stack_atom_e.Settings.{save_limit}
use birdnetgo_m5stack_atom_e.Stream.Control.{Link, request_stream_stop, stop_audio_task, hand_over}

abbrev pub degrees : ℕ → ℤ
degrees n = pos (n * 1024)

-- What `temperatureRead` returns.
pub data Reading : Type 0 where
  not_a_number infinite : Reading
  measured : ℤ → Reading

-- isTemperatureValid; -20480 is -20 degrees.
unfoldable pub valid_temperature : Reading → Option ℤ
valid_temperature not_a_number = none
valid_temperature infinite = none
valid_temperature (measured t) =
    if ltb_int t (negsuc 20479) then none else if ltb_int (degrees 130) t then none else some t

-- The sentence in overheatLastReason.
pub data Reason : Type 0 where
  no_reason sensor_unavailable sensor_restored cleared_manually : Reason
  shutdown_at : (temp : ℤ) (limit : ℕ) → Reason

pub record Note : Type 0 where
  pub last_reason : Reason
  pub last_timestamp : Text
  pub trip_temp : ℤ
  pub latched : Bool

pub record Thermal : Type 0 where
  pub note : Note
  pub open note use *
  pub protection_enabled : Bool
  pub shutdown_c : ℕ
  pub lockout_active : Bool
  pub triggered_at : ℕ  -- unsigned long
  pub sensor_fault : Bool
  pub last_temperature : ℤ
  pub last_valid : Bool
  pub max_temperature : ℤ
  pub server_enabled : Bool
  pub listening : Bool  -- between rtspServer.begin() and rtspServer.stop()
  pub link : Link
  -- As in the "audio" namespace.
  pub flash_note : Note
  pub flash_enabled : Option Bool
  pub flash_limit : Option ℕ

-- `millis()`, the boot time, formatUptime, and what Core 1 does while Core 0 waits.
pub record Env : Type 0 where
  pub now_ms : ℕ
  pub boot_ms : ℕ
  pub format : ℕ → Text
  pub core1 : Link → Link
  pub exit : Link → Link

unfoldable pub persist_note : Thermal → Thermal
persist_note d = record d { flash_note = d.note }

-- The thermal part of saveAudioSettings.
unfoldable pub save_thermal : Thermal → Thermal
unfolding persist_note save_limit
save_thermal d = record (persist_note d) {
  flash_enabled = some d.protection_enabled;
  flash_limit = save_limit d.shutdown_c;
}

unfoldable pub uptime_stamp : Env → Text
uptime_stamp env = env.format (sub32 env.now_ms env.boot_ms / 1000)

unfoldable pub sensor_lost : Thermal → Thermal
unfolding persist_note
sensor_lost d =
    let d' : Thermal = record d { last_valid = false } in
    if d.sensor_fault
    then d'
    else persist_note (record d' {
      sensor_fault = true;
      triggered_at = 0;
      note = record d.note {
        last_reason = sensor_unavailable;
        last_timestamp = [];
        trip_temp = pos 0;
      };
    })

unfoldable pub sensor_read : Env → Thermal → ℤ → Thermal
unfolding persist_note uptime_stamp
sensor_read env d t =
    let d' : Thermal = record d {
      last_temperature = t;
      last_valid = true;
      max_temperature = if ltb_int d.max_temperature t then t else d.max_temperature;
    } in
    if d.sensor_fault
    then persist_note (record d' {
      sensor_fault = false;
      note = record d.note { last_reason = sensor_restored; last_timestamp = uptime_stamp env };
    })
    else d'

unfoldable pub record_overheat_trip : Env → Thermal → ℤ → Thermal
unfolding persist_note uptime_stamp
record_overheat_trip env d t = persist_note (record d {
  triggered_at = env.now_ms;
  note = record {
    last_reason = shutdown_at t d.shutdown_c;
    last_timestamp = uptime_stamp env;
    trip_temp = t;
    latched = true;
  };
})

-- `if (isStreaming) requestStreamStop(...)`
unfoldable pub stop_if_streaming : Env → Link → Link
stop_if_streaming env l = if l.is_streaming then (request_stream_stop env.core1 l).0 else l

unfoldable pub trip : Env → Thermal → ℤ → Thermal
unfolding record_overheat_trip
trip env d t =
    let d' = record_overheat_trip env (record d { lockout_active = true }) t in
    record d' {
      link = stop_audio_task env.exit (stop_if_streaming env d'.link);
      server_enabled = false;
      listening = false;
    }

-- The part of checkTemperature behind a valid reading.
unfoldable pub protect : Env → Thermal → ℤ → Thermal
protect env d t =
    if d.protection_enabled && not d.sensor_fault
    then (if not d.lockout_active && leb_int (degrees d.shutdown_c) t
        then trip env d t
        else if d.lockout_active && leb_int t (degrees (d.shutdown_c - 5))
        then record d { lockout_active = false }
        else d)
    else record d { lockout_active = false }

unfoldable pub on_reading : Env → Thermal → Option ℤ → Thermal
on_reading env d none = sensor_lost d
on_reading env d (some t) = protect env (sensor_read env d t) t

unfoldable pub check_temperature : Env → Thermal → Reading → Thermal
check_temperature env d reading = on_reading env d (valid_temperature reading)

unfoldable pub start_listening : Thermal → Thermal
start_listening d = record d { server_enabled = true; listening = true }

unfoldable pub thermal_clear : Thermal → Thermal
unfolding save_thermal start_listening
thermal_clear d =
    if d.latched
    then (let d' : Thermal = record d {
      lockout_active = false;
      triggered_at = 0;
      note = record {
        last_reason = cleared_manually;
        last_timestamp = [];
        trip_temp = pos 0;
        latched = false;
      };
    } in
        save_thermal (if d.server_enabled then d' else start_listening d'))
    else d

-- The flag tells the answer, false for "thermal_latched".
unfoldable pub server_start : Thermal → Thermal × Bool
unfolding start_listening
server_start d = if d.latched then (d, false) else (
  if d.server_enabled then d else record (start_listening d) { lockout_active = false },
  true,
)

unfoldable pub server_stop : Env → Thermal → Thermal
server_stop env d = record d {
  link = stop_if_streaming env d.link;
  server_enabled = false;
  listening = false;
}

unfoldable pub set_protection : Thermal → Bool → Thermal
unfolding save_thermal
set_protection d on =
    save_thermal (record d {
      protection_enabled = on;
      lockout_active = if on then d.lockout_active else false;
    })

unfoldable pub set_limit : Thermal → ℕ → Thermal
unfolding save_thermal
set_limit d v =
    if leb 30 v && leb v 95
    then save_thermal (record d { shutdown_c = 30 + (v - 30) / 5 * 5; lockout_active = false })
    else d

-- PLAY, which the loop reaches only with the server enabled and no stream.
unfoldable pub play : Bool → Thermal → Thermal
unfolding hand_over
play created d =
    if d.server_enabled && not d.link.is_streaming
    then record d { link = hand_over created d.link }
    else d

-- The loop with the server disabled.
unfoldable pub enforce_disabled : Env → Thermal → Thermal
enforce_disabled env d =
    if not d.server_enabled && d.link.is_streaming
    then record d { link = stop_audio_task env.exit (request_stream_stop env.core1 d.link).0 }
    else d
