-- ===== src/Thermal/Tests.antt =====
-- The thermal laws at a concrete device.
use birdnetgo_m5stack_atom_e.Prelude.{◌≡◌, true, false, none, some, [], ◌∷◌, refl, arith}
use birdnetgo_m5stack_atom_e.Prelude.Int.{ℤ, pos, leb_int}
use birdnetgo_m5stack_atom_e.Settings.{load_limit}
use birdnetgo_m5stack_atom_e.Stream.Control.{Link}
use birdnetgo_m5stack_atom_e.Stream.Control.Laws.{IsPassive}
use birdnetgo_m5stack_atom_e.Thermal.{
  degrees, not_a_number, measured, valid_temperature, no_reason, Thermal, Env, Note,
  check_temperature,
}
use birdnetgo_m5stack_atom_e.Thermal.Safety.{IsSafe, reads, starts, event, events}
use birdnetgo_m5stack_atom_e.Thermal.Boot.{Stored, setup}
use birdnetgo_m5stack_atom_e.Thermal.Boot.Laws.{setup-events-IsSafe}
use birdnetgo_m5stack_atom_e.Thermal.Trip.{
  IsTripped, check_temperature-IsTripped, check_temperature-latched,
}

abbrev fresh_note : Note
fresh_note = record {
  last_reason = no_reason;
  last_timestamp = [];
  trip_temp = pos 0;
  latched = false;
}

abbrev playing : Thermal
playing = record {
  note = fresh_note;
  protection_enabled = true;
  shutdown_c = 80;
  lockout_active = false;
  triggered_at = 0;
  sensor_fault = false;
  last_temperature = pos 0;
  last_valid = false;
  max_temperature = pos 0;
  server_enabled = true;
  listening = true;
  link = record {
    stream = record {
      client_set = true;
      is_streaming = true;
      stop_requested = false;
      cleanup_done = false;
      core1_owns_led = true;
      task_running = true;
      task_handle = true;
    };
    connected = true;
  };
  flash_note = fresh_note;
  flash_enabled = none;
  flash_limit = none;
}

abbrev env : Env
env = record { now_ms = 5000; boot_ms = 0; format = λ n. n ∷ []; core1 = λ l. l; exit = λ l. l }

idle-IsPassive : IsPassive (λ (l : Link). l)
idle-IsPassive = record { stays_closed = λ l h. h; stays_stopped = λ l h. h }

playing-IsSafe : IsSafe playing
unfolding load_limit
playing-IsSafe = ground arith

at_90 : valid_temperature (measured (degrees 90)) ≡ some (degrees 90)
unfolding valid_temperature
at_90 = refl

check_temperature-IsTripped_example :
    IsTripped 80 (degrees 90) (check_temperature env playing (measured (degrees 90)))
check_temperature-IsTripped_example =
    check_temperature-IsTripped env playing (measured (degrees 90)) (degrees 90) idle-IsPassive
      at_90 refl refl refl

check_temperature-latched_example :
    (true ≡ true)
    × (t : ℤ) × (valid_temperature (measured (degrees 90)) ≡ some t)
    × (leb_int (degrees 80) t ≡ true)
check_temperature-latched_example =
    check_temperature-latched env playing (measured (degrees 90)) refl
      check_temperature-IsTripped_example.is_latched

-- A flash with a limit that the interface would not accept.
abbrev odd_flash : Stored
odd_flash = record { enabled_key = none; limit_key = some 93; note_keys = fresh_note }

setup-events-IsSafe_example :
    IsSafe (events (reads env (measured (degrees 95)) ∷ starts ∷ []) (setup odd_flash not_a_number))
setup-events-IsSafe_example =
    setup-events-IsSafe odd_flash not_a_number (reads env (measured (degrees 95)) ∷ starts ∷ [])
      (idle-IsPassive, (tt, tt))

trips : (events (reads env (measured (degrees 90)) ∷ []) playing).latched ≡ true
unfolding events event
trips = check_temperature-IsTripped_example.is_latched
