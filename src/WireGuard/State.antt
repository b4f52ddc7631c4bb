-- ===== src/WireGuard/State.antt =====
-- The static variables of src/WireGuardManager.cpp, and what a call reads of the outside.
-- Log lines are left out. `peer` stands for the vendored library's interface object: the
-- arguments of the `begin` under which it is initialized, or `none` (`is_initialized()` is false).
use birdnetgo_m5stack_atom_e.Prelude.{ℕ, Bool, false, Option, none, [], is_some}
use birdnetgo_m5stack_atom_e.Prelude.Text.{Text}
use birdnetgo_m5stack_atom_e.WireGuard.Address.{IpAddress, Parsers}

pub data WgState : Type 0 where
  disabled wait_time wait_wifi connecting up : WgState

-- The persistent settings.
pub record WgConfig : Type 0 where
  pub enabled : Bool
  pub private_key : Text
  pub server_public_key : Text
  pub endpoint_host : Text
  pub endpoint_port : ℕ  -- uint16_t
  pub tunnel_address : Text
  pub keepalive : ℕ  -- uint16_t

-- The arguments of `s_wg.begin`; the gateway is always 0.0.0.0.
pub record BeginArgs : Type 0 where
  pub ip : IpAddress
  pub mask : IpAddress
  pub key : Text
  pub remote : Text
  pub remote_key : Text
  pub port : ℕ
  pub keep : ℕ

pub record Wg : Type 0 where
  pub config : WgConfig
  pub open config use *
  pub state : WgState
  pub peer : Option BeginArgs
  pub last_attempt_ms : ℕ  -- unsigned long
  pub backoff_ms : ℕ  -- uint32_t
  pub was_up : Bool
  pub task_alive : Bool  -- s_dnsTaskHandle != NULL
  pub resolved_ip : Text
  pub dns_done : Bool
  pub dns_failed : Bool
  pub generation : ℕ  -- uint8_t
  pub nvs : Option WgConfig  -- the "wg" namespace; all its keys are written together

-- What a call reads of the outside: `millis()` (one value for the call), `time()`, `WiFi.status()`,
-- `isPeerUp()`, whether `begin` succeeds, whether a task can be created, and Arduino's parsers.
pub record Env : Type 0 where
  pub now_ms : ℕ
  pub epoch : ℕ
  pub wifi_connected : Bool
  pub peer_up : Bool
  pub begin_ok : BeginArgs → Bool
  pub task_ok : Bool
  pub parsers : Parsers

abbrev pub default_config : WgConfig
default_config = record {
  enabled = false;
  private_key = [];
  server_public_key = [];
  endpoint_host = [];
  endpoint_port = 51820;
  tunnel_address = [];
  keepalive = 25;
}

-- The initial values of the static variables, with `nvs` as found in flash.
unfoldable pub boot : Option WgConfig → Wg
boot nvs = record {
  config = default_config;
  state = disabled;
  peer = none;
  last_attempt_ms = 0;
  backoff_ms = 5000;
  was_up = false;
  task_alive = false;
  resolved_ip = [];
  dns_done = false;
  dns_failed = false;
  generation = 0;
  nvs = nvs;
}

-- `s_wg.is_initialized()`
abbrev pub is_initialized : Wg → Bool
is_initialized w = is_some w.peer
