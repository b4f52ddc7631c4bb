-- ===== src/Firmware/Steps.antt =====
-- What each step of the main loop (src/esp32_rtsp_mic_birdnetgo.ino, loop) keeps of all components.
use birdnetgo_m5stack_atom_e.Prelude.{
  ◌≡◌, refl, Bool, true, false, Bool-cases, inl, inr, Option, none, some, ◌++◌, arith, ◌∙◌, ◌*◌,
  ◌%◌, ltb, not, ◌&&◌,
}
use birdnetgo_m5stack_atom_e.Prelude.Int.{ℤ}
use birdnetgo_m5stack_atom_e.Prelude.Text.{Text}
use birdnetgo_m5stack_atom_e.Stream.Control.{Link}
use birdnetgo_m5stack_atom_e.WireGuard.Calls.{clears, call}
use birdnetgo_m5stack_atom_e.WireGuard.Invariant.{call-IsWg}
use birdnetgo_m5stack_atom_e.WireGuard.Storage.{call-IsStored}
use birdnetgo_m5stack_atom_e.Thermal.{Thermal, persist_note, save_thermal, enforce_disabled}
use birdnetgo_m5stack_atom_e.Thermal.Safety.{IsSafe, limit_kept, event, reads, enforces}
use birdnetgo_m5stack_atom_e.Settings.{default_settings}
use birdnetgo_m5stack_atom_e.Settings.Stored.{default_settings-IsSettings, load-save_settings}
use birdnetgo_m5stack_atom_e.Rtsp.Parse.{process_rtsp}
use birdnetgo_m5stack_atom_e.Rtsp.Parse.Laws.{process_rtsp-fits}
use birdnetgo_m5stack_atom_e.Checks.Performance as Performance
use birdnetgo_m5stack_atom_e.Checks.Performance.{Perf, check_performance}
use birdnetgo_m5stack_atom_e.Checks.Wifi.{Radio, halt_stream, check_wifi_health}
use birdnetgo_m5stack_atom_e.Firmware.{Firmware, link, Outside, reset_thermal, reset_to_defaults}
use birdnetgo_m5stack_atom_e.Firmware.Invariant.{
  same_parts, IsFirmware, Waits, enabled-IsSafe, set_link-IsFirmware, event-IsFirmware,
}
use birdnetgo_m5stack_atom_e.Firmware.Loop.{
  temperature_step, memory_step, performance_step, wifi_step, idle_step, accept_client,
  handle_request, negotiate, server_step, reboot_step, performance_env, performance_view,
}
use birdnetgo_m5stack_atom_e.Prelude.Words.{u32_mod, sub32}
use birdnetgo_m5stack_atom_e.Checks.Reboot.{reboot_due}

pub temperature_step-IsFirmware :
    (out : Outside) (fw : Firmware)
    → Waits out
    → IsFirmware fw
    → IsFirmware (temperature_step out fw)
unfolding temperature_step event
temperature_step-IsFirmware out fw p v =
    let w = event-IsFirmware (reads out.thermal_env out.reading) fw p v in
    ground (arith, w.safe, v.safe, v.wg_ok, v.kept, v.device_ok)

pub memory_step-IsFirmware :
    (out : Outside) (fw : Firmware) → IsFirmware fw → IsFirmware (memory_step out fw)
unfolding memory_step
memory_step-IsFirmware out fw v =
    elim (Bool-cases (ltb 600000 (sub32 out.now_ms fw.last_memory_check))) [
      | inl e ↦ rw e (same_parts v refl refl refl refl)
      | inr e ↦ rw e v
    ]

check_performance-quiet :
    (env : Performance.Env) (l : Link) (p : Perf)
    → l.is_streaming ≡ false
    → (check_performance env l p).0.is_streaming ≡ false
unfolding check_performance
check_performance-quiet env l p off = ground arith

pub performance_step-IsFirmware :
    (out : Outside) (fw : Firmware) → IsFirmware fw → IsFirmware (performance_step out fw)
unfolding performance_step
performance_step-IsFirmware out fw v =
    let judged = check_performance (performance_env out fw) (link fw) (performance_view fw) in
    let w =
      set_link-IsFirmware fw judged.0 v
        (check_performance-quiet (performance_env out fw) (link fw) (performance_view fw)) in
    elim (Bool-cases (
      ltb (fw.device.settings.check_interval * 60000 % u32_mod)
        (sub32 out.now_ms fw.last_performance_check))) [
          | inl e ↦ rw e (same_parts w refl refl refl refl)
          | inr e ↦ rw e v
        ]

check_wifi_health-quiet :
    (core1 exit : Link → Link) (connected : Bool) (dbm : ℤ) (l : Link) (r : Radio)
    → l.is_streaming ≡ false
    → (check_wifi_health core1 exit connected dbm l r).0.is_streaming ≡ false
unfolding check_wifi_health halt_stream
check_wifi_health-quiet core1 exit connected dbm l r off = ground arith

pub wifi_step-IsFirmware :
    (out : Outside) (fw : Firmware) → IsFirmware fw → IsFirmware (wifi_step out fw)
unfolding wifi_step
wifi_step-IsFirmware out fw v =
    let checked =
      check_wifi_health out.thermal_env.core1 out.thermal_env.exit out.wifi_connected
        fw.device.settings.tx_dbm (link fw) fw.radio in
    let w = set_link-IsFirmware fw checked.0 v (
      check_wifi_health-quiet out.thermal_env.core1 out.thermal_env.exit out.wifi_connected
        fw.device.settings.tx_dbm (link fw) fw.radio) in
    elim (Bool-cases (ltb 30000 (sub32 out.now_ms fw.last_wifi_check))) [
      | inl e ↦ rw e (same_parts w refl refl refl refl)
      | inr e ↦ rw e v
    ]

pub idle_step-IsFirmware :
    (out : Outside) (fw : Firmware) → IsFirmware fw → IsFirmware (idle_step out fw)
unfolding idle_step
idle_step-IsFirmware out fw v =
    let w = set_link-IsFirmware fw (record (link fw) { connected = false }) v (λ off. off) in
    elim (Bool-cases (
      ((link fw).connected && not (link fw).is_streaming)
      && ltb 60000 (sub32 out.now_ms fw.rtsp.last_activity_ms))) [
        | inl e ↦ rw e (record {
          safe = w.safe;
          wg_ok = w.wg_ok;
          kept = w.kept;
          device_ok = w.device_ok;
          fits = omega arith;
        })
        | inr e ↦ rw e v
      ]

handle_request-IsFirmware :
    (out : Outside) (fw : Firmware) (request : Option Text)
    → fw.thermal.server_enabled ≡ true
    → IsFirmware fw
    → IsFirmware (handle_request out fw request)
unfolding handle_request
handle_request-IsFirmware out fw none on v = v
handle_request-IsFirmware out fw (some request) on v = record {
  safe = enabled-IsSafe fw.thermal _ v.safe on;
  wg_ok = v.wg_ok;
  kept = v.kept;
  device_ok = v.device_ok;
  fits = v.fits;
}

negotiate-IsFirmware :
    (out : Outside) (fw : Firmware)
    → fw.thermal.server_enabled ≡ true
    → IsFirmware fw
    → IsFirmware (negotiate out fw)
unfolding negotiate
negotiate-IsFirmware out fw on v =
    let pending = fw.incoming ++ out.arrived in
    let parsed = process_rtsp (link fw).connected fw.parse_buffer pending in
    handle_request-IsFirmware out
      (record fw { parse_buffer = parsed.buffer; incoming = parsed.pending }) parsed.request on
      (record {
        safe = v.safe;
        wg_ok = v.wg_ok;
        kept = v.kept;
        device_ok = v.device_ok;
        fits = process_rtsp-fits (link fw).connected fw.parse_buffer pending v.fits;
      })

accept_client-IsFirmware :
    (out : Outside) (fw : Firmware) → IsFirmware fw → IsFirmware (accept_client out fw)
unfolding accept_client
accept_client-IsFirmware out fw v =
    let w = set_link-IsFirmware fw (record (link fw) { connected = true }) v (λ off. off) in
    elim (Bool-cases (not (link fw).connected && out.accepts)) [
      | inl e ↦ rw e (record {
        safe = w.safe;
        wg_ok = w.wg_ok;
        kept = w.kept;
        device_ok = w.device_ok;
        fits = omega arith;
      })
      | inr e ↦ rw e v
    ]

accept_client-enabled :
    (out : Outside) (fw : Firmware)
    → (accept_client out fw).thermal.server_enabled ≡ fw.thermal.server_enabled
unfolding accept_client
accept_client-enabled out fw = ground arith

enforce-IsFirmware :
    (out : Outside) (fw : Firmware)
    → Waits out
    → IsFirmware fw
    → IsFirmware (record fw { thermal = enforce_disabled out.thermal_env fw.thermal })
unfolding event
enforce-IsFirmware out fw p v = event-IsFirmware (enforces out.thermal_env) fw p v

pub server_step-IsFirmware :
    (out : Outside) (fw : Firmware) → Waits out → IsFirmware fw → IsFirmware (server_step out fw)
unfolding server_step
server_step-IsFirmware out fw p v = elim (Bool-cases fw.thermal.server_enabled) [
  | inr off ↦ simp off (enforce-IsFirmware out fw p v)
  | inl on ↦ elim (Bool-cases (link fw).is_streaming) [
    | inl streams ↦ simp (on, streams) v
    | inr idle ↦
        simp (on, idle)
          (negotiate-IsFirmware out (accept_client out fw) (accept_client-enabled out fw ∙ on)
            (accept_client-IsFirmware out fw v))
  ]
]

reset_thermal-IsSafe : (d : Thermal) → IsSafe d → IsSafe (reset_thermal d)
unfolding reset_thermal save_thermal persist_note
reset_thermal-IsSafe d v = ground (arith, limit_kept 80 (omega arith) (omega arith) refl)

reset_to_defaults-IsFirmware : (fw : Firmware) → IsFirmware fw → IsFirmware (reset_to_defaults fw)
unfolding reset_to_defaults call
reset_to_defaults-IsFirmware fw v = record {
  safe = reset_thermal-IsSafe fw.thermal v.safe;
  wg_ok = call-IsWg clears fw.wg v.wg_ok;
  kept = call-IsStored clears fw.wg v.kept;
  device_ok = record {
    in_range = default_settings-IsSettings;
    stored = load-save_settings default_settings default_settings-IsSettings;
  };
  fits = v.fits;
}

pub reboot_step-IsFirmware :
    (out : Outside) (fw : Firmware) → IsFirmware fw → IsFirmware (reboot_step out fw)
unfolding reboot_step reset_to_defaults
reboot_step-IsFirmware out fw v =
    let w = reset_to_defaults-IsFirmware fw v in
    elim (Bool-cases (reboot_due out.now_ms fw.reboot)) [
      | inr e ↦ rw e v
      | inl e ↦ elim (Bool-cases fw.reboot.factory_reset) [
        | inl e' ↦ rw (e, e') (same_parts w refl refl refl refl)
        | inr e' ↦ rw (e, e') (same_parts v refl refl refl refl)
      ]
    ]
