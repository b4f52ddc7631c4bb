-- ===== src/Thermal/Safety.antt =====
-- What holds of the thermal latch over any events: sensor readings, the actions of the web interface
-- (src/WebUI.cpp), PLAY and the loop's server branch (src/esp32_rtsp_mic_birdnetgo.ino).
use birdnetgo_m5stack_atom_e.Prelude.{
  ℕ, ◌+◌, ◌-◌, ◌*◌, ◌/◌, ◌%◌, ◌≤◌, ◌≡◌, refl, Bool-cases, inl, inr, leb, ◌&&◌, Bool, true, false,
  Option, none, some, List, [], ◌∷◌, arith, All,
}
use birdnetgo_m5stack_atom_e.Prelude.Int.{ℤ}
use birdnetgo_m5stack_atom_e.Stream.Control.{Link, request_stream_stop, stop_audio_task}
use birdnetgo_m5stack_atom_e.Stream.Control.Laws.{IsPassive}
use birdnetgo_m5stack_atom_e.Settings.{fetch, load_limit, save_limit}
use birdnetgo_m5stack_atom_e.Thermal.{
  Reading, Thermal, Env, valid_temperature, sensor_lost, sensor_read, trip, protect, on_reading,
  check_temperature, thermal_clear, server_start, server_stop, set_protection, set_limit, play,
  enforce_disabled, stop_if_streaming,
}

pub record IsSafe (d : Thermal) : Type 0 where
  pub listens : d.listening ≡ d.server_enabled
  pub latched_down : d.latched ≡ true → d.server_enabled ≡ false
  pub latched_quiet : d.latched ≡ true → d.link.is_streaming ≡ false
  pub limit_low : 30 ≤ d.shutdown_c
  pub limit_high : d.shutdown_c ≤ 95
  pub limit_step : d.shutdown_c % 5 ≡ 0
  pub stored : d.flash_note.latched ≡ d.latched
  pub stored_protection : fetch d.flash_enabled true ≡ d.protection_enabled
  pub stored_limit : load_limit d.flash_limit ≡ d.shutdown_c

pub limit_kept : (n : ℕ) → 30 ≤ n → n ≤ 95 → n % 5 ≡ 0 → load_limit (save_limit n) ≡ n
unfolding load_limit save_limit
limit_kept n low high step = ground arith

pub data Event : Type 0 where
  reads : Env → Reading → Event
  clears starts : Event
  stops enforces : Env → Event
  protects : Bool → Event
  limits : ℕ → Event
  plays : Bool → Event

unfoldable pub event : Event → Thermal → Thermal
event (reads env reading) d = check_temperature env d reading
event clears d = thermal_clear d
event starts d = (server_start d).0
event (stops env) d = server_stop env d
event (enforces env) d = enforce_disabled env d
event (protects on) d = set_protection d on
event (limits v) d = set_limit d v
event (plays created) d = play created d

-- While its task exits, Core 1 starts no stream.
abbrev pub Exits : Event → Type 0
Exits (reads env reading) = IsPassive env.exit
Exits (enforces env) = IsPassive env.exit
Exits _ = Unit {0}

pub stop_if_streaming-stopped :
    (env : Env) (l : Link) → (stop_if_streaming env l).is_streaming ≡ false
unfolding stop_if_streaming request_stream_stop
stop_if_streaming-stopped env l = ground arith

pub stop_audio_task-stopped :
    (exit : Link → Link) (l : Link)
    → IsPassive exit
    → l.is_streaming ≡ false
    → (stop_audio_task exit l).is_streaming ≡ false
unfolding stop_audio_task
stop_audio_task-stopped exit l p s =
    ground (arith, p.stays_stopped (record l { stream = record l.stream { task_running = false } }))

sensor_lost-IsSafe : (d : Thermal) → IsSafe d → IsSafe (sensor_lost d)
unfolding sensor_lost
sensor_lost-IsSafe d v = ground arith

sensor_read-IsSafe : (env : Env) (d : Thermal) (t : ℤ) → IsSafe d → IsSafe (sensor_read env d t)
unfolding sensor_read
sensor_read-IsSafe env d t v = ground arith

trip-IsSafe :
    (env : Env) (d : Thermal) (t : ℤ) → IsPassive env.exit → IsSafe d → IsSafe (trip env d t)
unfolding trip
trip-IsSafe env d t p v =
    let quiet =
      stop_audio_task-stopped env.exit (stop_if_streaming env d.link) p
        (stop_if_streaming-stopped env d.link) in
    ground arith

protect-IsSafe :
    (env : Env) (d : Thermal) (t : ℤ) → IsPassive env.exit → IsSafe d → IsSafe (protect env d t)
unfolding protect
protect-IsSafe env d t p v = ground (arith, trip-IsSafe env d t p v)

on_reading-IsSafe :
    (env : Env) (d : Thermal) (o : Option ℤ)
    → IsPassive env.exit
    → IsSafe d
    → IsSafe (on_reading env d o)
unfolding on_reading
on_reading-IsSafe env d none p v = sensor_lost-IsSafe d v
on_reading-IsSafe env d (some t) p v =
    protect-IsSafe env (sensor_read env d t) t p (sensor_read-IsSafe env d t v)

check_temperature-IsSafe :
    (env : Env) (d : Thermal) (reading : Reading)
    → IsPassive env.exit
    → IsSafe d
    → IsSafe (check_temperature env d reading)
unfolding check_temperature
check_temperature-IsSafe env d reading p v = on_reading-IsSafe env d (valid_temperature reading) p v

enforce_disabled-IsSafe :
    (env : Env) (d : Thermal) → IsPassive env.exit → IsSafe d → IsSafe (enforce_disabled env d)
unfolding enforce_disabled
enforce_disabled-IsSafe env d p v = ground arith

set_limit-IsSafe : (d : Thermal) (n : ℕ) → IsSafe d → IsSafe (set_limit d n)
unfolding set_limit
set_limit-IsSafe d n v = elim (Bool-cases (leb 30 n && leb n 95)) [
  | inr e ↦ rw e v
  | inl e ↦
      let snapped : ((30 ≤ 30 + (n - 30) / 5 * 5) × (30 + (n - 30) / 5 * 5 ≤ 95))
          × ((30 + (n - 30) / 5 * 5) % 5 ≡ 0) =
        ((omega arith, ground arith), omega arith) in
      let kept = limit_kept (30 + (n - 30) / 5 * 5) snapped.0.0 snapped.0.1 snapped.1 in
      rw e (record {
        listens = v.listens;
        latched_down = v.latched_down;
        latched_quiet = v.latched_quiet;
        limit_low = snapped.0.0;
        limit_high = snapped.0.1;
        limit_step = snapped.1;
        stored = refl;
        stored_protection = refl;
        stored_limit = kept;
      })
]

pub event-IsSafe : (e : Event) (d : Thermal) → Exits e → IsSafe d → IsSafe (event e d)
unfolding event thermal_clear server_start server_stop set_protection play
event-IsSafe (reads env reading) d p v = check_temperature-IsSafe env d reading p v
event-IsSafe clears d p v =
    ground (arith, limit_kept d.shutdown_c v.limit_low v.limit_high v.limit_step)
event-IsSafe starts d p v = ground arith
event-IsSafe (stops env) d p v = ground (arith, stop_if_streaming-stopped env d.link)
event-IsSafe (enforces env) d p v = enforce_disabled-IsSafe env d p v
event-IsSafe (protects on) d p v =
    ground (arith, limit_kept d.shutdown_c v.limit_low v.limit_high v.limit_step)
event-IsSafe (limits n) d p v = set_limit-IsSafe d n v
event-IsSafe (plays created) d p v = ground arith

unfoldable pub events : List Event → Thermal → Thermal
events [] d = d
events (e ∷ es) d = events es (event e d)

-- Over any list of sensor readings, button presses, settings and PLAY requests, from a safe state,
-- where Core 1's task opens nothing while it exits: while the latch is
-- set the server neither listens nor is enabled and nothing streams, the limit stays one of 30, 35,
-- ..., 95 degrees, and the flash holds the latch as it is.
pub events-IsSafe : (es : List Event) (d : Thermal) → All Exits es → IsSafe d → IsSafe (events es d)
unfolding events
events-IsSafe [] d p v = v
events-IsSafe (e ∷ es) d p v = events-IsSafe es (event e d) p.1 (event-IsSafe e d p.0 v)
