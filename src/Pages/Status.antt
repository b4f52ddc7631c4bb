-- ===== src/Pages/Status.antt =====
-- httpThermal, httpPerfStatus and httpWgStatus (src/WebUI.cpp), with the getters of
-- src/WireGuardManager.cpp that they call.
pub mod Laws
pub mod Tunnel
pub mod Device
use birdnetgo_m5stack_atom_e.Prelude.{
  ℕ, ◌/◌, Bool, true, false, not, ◌&&◌, ◌||◌, Option, none, some, List, [], ◌∷◌, ◌++◌, take, ltb,
  ◌==◌, if◌then◌else◌,
}
use birdnetgo_m5stack_atom_e.Prelude.Int.{ℤ, pos, ltb_int}
use birdnetgo_m5stack_atom_e.Prelude.Text.{Text, text, index_of}
use birdnetgo_m5stack_atom_e.Format.Json.{json_escape}
use birdnetgo_m5stack_atom_e.Prelude.Words.{sub32}
use birdnetgo_m5stack_atom_e.Format.Uptime.{format_uptime, format_since}
use birdnetgo_m5stack_atom_e.WireGuard.State.{
  WgState, disabled, wait_time, wait_wifi, connecting, up, Wg,
}
use birdnetgo_m5stack_atom_e.Thermal.{
  degrees, Reason, no_reason, sensor_unavailable, sensor_restored, cleared_manually, shutdown_at,
  Thermal,
}
use birdnetgo_m5stack_atom_e.Settings.{Settings, recommended_min_rate}
use birdnetgo_m5stack_atom_e.Pages.{Value, raw, quoted, escaped, Field, join}

-- `String(n)`, `String(t, digits)` of a temperature, and `String(b / unit, digits)` of a count.
pub record Printer : Type 0 where
  pub decimal : ℕ → Text
  pub degrees_text : ℤ → ℕ → Text
  pub ratio_text : ℕ → ℕ → ℕ → Text

abbrev pub field : Text → Value → Field
field name value = record { name = name; value = value }

unfoldable pub bool_text : Bool → Text
bool_text on = if on then text "true" else text "false"

-- The sentence that is kept in overheatLastReason.
unfoldable pub reason_text : Printer → Reason → Text
reason_text p no_reason = []
reason_text p sensor_unavailable =
    text "Thermal protection disabled: temperature sensor unavailable."
reason_text p sensor_restored =
    text "Thermal protection restored: temperature sensor reading valid."
reason_text p cleared_manually = text "Thermal latch cleared manually."
reason_text p (shutdown_at t limit) =
    text "Thermal shutdown: "
    ++ (p.degrees_text t 1
        ++ (text " C reached (limit "
            ++ (p.degrees_text (degrees limit) 1
                ++ text " C). Stream disabled; acknowledge in UI.")))

unfoldable pub trip_since : Printer → ℕ → Thermal → Text
trip_since p now_ms d =
    if ltb_int (pos 0) d.trip_temp && not (d.triggered_at == 0)
    then format_since p.decimal now_ms d.triggered_at
    else []

-- Whether the server waits for somebody to start it again.
unfoldable pub manual_required : Thermal → Bool
manual_required d =
    d.latched || ((not d.server_enabled && d.protection_enabled) && ltb_int (pos 0) d.trip_temp)

-- What httpThermal shows, with the clock rate of the processor.
unfoldable pub thermal_fields : Printer → ℕ → ℕ → Thermal → List Field
thermal_fields p now_ms cpu_mhz d =
    field (text "current_valid") (raw (bool_text d.last_valid))
    ∷ field (text "max_c") (raw (p.degrees_text d.max_temperature 1))
    ∷ field (text "cpu_mhz") (raw (p.decimal cpu_mhz))
    ∷ field (text "protection_enabled") (raw (bool_text d.protection_enabled))
    ∷ field (text "shutdown_c") (raw (p.degrees_text (degrees d.shutdown_c) 0))
    ∷ field (text "latched") (raw (bool_text d.lockout_active))
    ∷ field (text "latched_persist") (raw (bool_text d.latched))
    ∷ field (text "sensor_fault") (raw (bool_text d.sensor_fault))
    ∷ field (text "last_trip_c") (raw (p.degrees_text d.trip_temp 1))
    ∷ field (text "last_reason") (escaped (reason_text p d.last_reason))
    ∷ field (text "last_trip_ts") (escaped d.last_timestamp)
    ∷ field (text "last_trip_since") (escaped (trip_since p now_ms d))
    ∷ field (text "manual_restart") (raw (bool_text (manual_required d)))
    ∷ []

unfoldable pub current_field : Printer → Thermal → Field
current_field p d =
    field (text "current_c")
      (raw (if d.last_valid then p.degrees_text d.last_temperature 1 else text "null"))

-- httpThermal
unfoldable pub thermal_page : Printer → ℕ → ℕ → Thermal → Text
thermal_page p now_ms cpu_mhz d = join (
    text "{"
    ∷ text "\"current_c\":"
    ∷ (if d.last_valid then p.degrees_text d.last_temperature 1 else text "null")
    ∷ text ","
    ∷ text "\"current_valid\":"
    ∷ bool_text d.last_valid
    ∷ text ","
    ∷ text "\"max_c\":"
    ∷ p.degrees_text d.max_temperature 1
    ∷ text ","
    ∷ text "\"cpu_mhz\":"
    ∷ p.decimal cpu_mhz
    ∷ text ","
    ∷ text "\"protection_enabled\":"
    ∷ bool_text d.protection_enabled
    ∷ text ","
    ∷ text "\"shutdown_c\":"
    ∷ p.degrees_text (degrees d.shutdown_c) 0
    ∷ text ","
    ∷ text "\"latched\":"
    ∷ bool_text d.lockout_active
    ∷ text ","
    ∷ text "\"latched_persist\":"
    ∷ bool_text d.latched
    ∷ text ","
    ∷ text "\"sensor_fault\":"
    ∷ bool_text d.sensor_fault
    ∷ text ","
    ∷ text "\"last_trip_c\":"
    ∷ p.degrees_text d.trip_temp 1
    ∷ text ","
    ∷ text "\"last_reason\":\""
    ∷ json_escape (reason_text p d.last_reason)
    ∷ text "\","
    ∷ text "\"last_trip_ts\":\""
    ∷ json_escape d.last_timestamp
    ∷ text "\","
    ∷ text "\"last_trip_since\":\""
    ∷ json_escape (trip_since p now_ms d)
    ∷ text "\","
    ∷ text "\"manual_restart\":"
    ∷ bool_text (manual_required d)
    ∷ text "}"
    ∷ [])

-- What httpPerfStatus shows.
unfoldable pub perf_fields : Printer → Settings → List Field
perf_fields p s =
    field (text "check_interval_min") (raw (p.decimal s.check_interval))
    ∷ field (text "auto_recovery") (raw (bool_text s.auto_recovery))
    ∷ field (text "auto_threshold") (raw (bool_text s.auto_threshold))
    ∷ field (text "recommended_min_rate")
        (raw (p.decimal (recommended_min_rate s.sample_rate s.buffer_size)))
    ∷ field (text "scheduled_reset") (raw (bool_text s.scheduled_reset))
    ∷ field (text "reset_hours") (raw (p.decimal s.reset_hours))
    ∷ []

-- httpPerfStatus
unfoldable pub perf_page : Printer → Settings → Text
perf_page p s = join (
    text "{"
    ∷ text "\"restart_threshold_pkt_s\":"
    ∷ p.decimal s.min_rate
    ∷ text ","
    ∷ text "\"check_interval_min\":"
    ∷ p.decimal s.check_interval
    ∷ text ","
    ∷ text "\"auto_recovery\":"
    ∷ bool_text s.auto_recovery
    ∷ text ","
    ∷ text "\"auto_threshold\":"
    ∷ bool_text s.auto_threshold
    ∷ text ","
    ∷ text "\"recommended_min_rate\":"
    ∷ p.decimal (recommended_min_rate s.sample_rate s.buffer_size)
    ∷ text ","
    ∷ text "\"scheduled_reset\":"
    ∷ bool_text s.scheduled_reset
    ∷ text ","
    ∷ text "\"reset_hours\":"
    ∷ p.decimal s.reset_hours
    ∷ text "}"
    ∷ [])

-- wg_stateStr
unfoldable pub state_text : WgState → Text
state_text disabled = text "disabled"
state_text wait_time = text "waiting_time"
state_text wait_wifi = text "waiting_wifi"
state_text connecting = text "connecting"
state_text up = text "up"

-- wg_tunnelIp
unfoldable pub tunnel_ip : Text → Text
tunnel_ip address = elim (index_of b'/' address) [ none ↦ [] | some slash ↦ take slash address ]

-- fmtBytes
unfoldable pub format_bytes : Printer → ℕ → Text
format_bytes p b =
    if ltb b 1024
    then p.decimal b ++ text " B"
    else if ltb b 1048576
    then p.ratio_text b 1024 1 ++ text " KB"
    else if ltb b 1073741824
    then p.ratio_text b 1048576 1 ++ text " MB"
    else p.ratio_text b 1073741824 2 ++ text " GB"

unfoldable pub is_up : WgState → Bool
is_up up = true
is_up _ = false

-- What the pages read of the outside: `millis()`, the address of the device, the clock rate of the
-- processor, and the library's counters.
pub record Seen : Type 0 where
  pub now_ms : ℕ
  pub local_ip : Text
  pub cpu_mhz : ℕ  -- getCpuFrequencyMhz()
  pub handshake_ms : ℕ
  pub rx_bytes : ℕ
  pub tx_bytes : ℕ

unfoldable pub last_handshake : Printer → Seen → Text
last_handshake p e =
    if ltb 0 e.handshake_ms
    then format_uptime p.decimal (sub32 e.now_ms e.handshake_ms / 1000) ++ text " ago"
    else text "never"

unfoldable pub url : Text → Text
url ip = text "rtsp://" ++ (ip ++ text ":8554/")

unfoldable pub tunnel_url : Wg → Text
tunnel_url w =
    let ip = tunnel_ip w.tunnel_address in
    elim ip [ [] ↦ [] | c ∷ rest ↦ if is_up w.state then url (c ∷ rest) else [] ]

-- What httpWgStatus shows.
unfoldable pub wg_fields : Printer → Seen → Wg → List Field
wg_fields p e w =
    field (text "state") (quoted (state_text w.state))
    ∷ field (text "last_handshake") (quoted (last_handshake p e))
    ∷ field (text "rx_bytes") (raw (p.decimal e.rx_bytes))
    ∷ field (text "tx_bytes") (raw (p.decimal e.tx_bytes))
    ∷ field (text "rx_pretty") (quoted (format_bytes p e.rx_bytes))
    ∷ field (text "tx_pretty") (quoted (format_bytes p e.tx_bytes))
    ∷ field (text "tunnel_ip") (quoted (tunnel_ip w.tunnel_address))
    ∷ field (text "tunnel_addr") (quoted w.tunnel_address)
    ∷ field (text "endpoint") (escaped (w.endpoint_host ++ b':' ∷ p.decimal w.endpoint_port))
    ∷ field (text "keepalive") (raw (p.decimal w.keepalive))
    ∷ field (text "private_key")
        (quoted (elim w.private_key [ [] ↦ [] | c ∷ rest ↦ text "********" ]))
    ∷ field (text "server_public_key") (escaped w.server_public_key)
    ∷ field (text "lan_url") (quoted (url e.local_ip))
    ∷ field (text "wg_url") (quoted (tunnel_url w))
    ∷ []

-- httpWgStatus
unfoldable pub wg_page : Printer → Seen → Wg → Text
wg_page p e w = join (
    text "{"
    ∷ text "\"enabled\":"
    ∷ bool_text w.enabled
    ∷ text ","
    ∷ text "\"state\":\""
    ∷ state_text w.state
    ∷ text "\","
    ∷ text "\"last_handshake\":\""
    ∷ last_handshake p e
    ∷ text "\","
    ∷ text "\"rx_bytes\":"
    ∷ p.decimal e.rx_bytes
    ∷ text ","
    ∷ text "\"tx_bytes\":"
    ∷ p.decimal e.tx_bytes
    ∷ text ","
    ∷ text "\"rx_pretty\":\""
    ∷ format_bytes p e.rx_bytes
    ∷ text "\","
    ∷ text "\"tx_pretty\":\""
    ∷ format_bytes p e.tx_bytes
    ∷ text "\","
    ∷ text "\"tunnel_ip\":\""
    ∷ tunnel_ip w.tunnel_address
    ∷ text "\","
    ∷ text "\"tunnel_addr\":\""
    ∷ w.tunnel_address
    ∷ text "\","
    ∷ text "\"endpoint\":\""
    ∷ json_escape (w.endpoint_host ++ b':' ∷ p.decimal w.endpoint_port)
    ∷ text "\","
    ∷ text "\"keepalive\":"
    ∷ p.decimal w.keepalive
    ∷ text ","
    ∷ text "\"private_key\":\""
    ∷ (elim w.private_key [ [] ↦ [] | c ∷ rest ↦ text "********" ])
    ∷ text "\","
    ∷ text "\"server_public_key\":\""
    ∷ json_escape w.server_public_key
    ∷ text "\","
    ∷ text "\"lan_url\":\""
    ∷ url e.local_ip
    ∷ text "\","
    ∷ text "\"wg_url\":\""
    ∷ tunnel_url w
    ∷ text "\""
    ∷ text "}"
    ∷ [])
