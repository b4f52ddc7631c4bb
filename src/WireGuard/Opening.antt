-- ===== src/WireGuard/Opening.antt =====
-- When wg_tick (src/WireGuardManager.cpp) opens the tunnel interface, and with which arguments.
use birdnetgo_m5stack_atom_e.Prelude.{◌≤◌, ◌≡◌, ◌≢◌, true, false, none, some, [], arith}
use birdnetgo_m5stack_atom_e.WireGuard.Address.{parse_tunnel_address}
use birdnetgo_m5stack_atom_e.WireGuard.State.{WgState, BeginArgs, Wg, Env}
use birdnetgo_m5stack_atom_e.WireGuard.Manager.{
  tick, retry_begin, begin, take_dns_result, cancel_and_stop,
}

-- All that has to hold for the interface of `w` to be opened with `a`.
pub record IsOpening (env : Env) (w : Wg) (a : BeginArgs) : Type 0 where
  pub enabled : w.enabled ≡ true
  pub clock_set : 100000 ≤ env.epoch
  pub wifi : env.wifi_connected ≡ true
  pub no_task : w.task_alive ≡ false
  pub done : w.dns_done ≡ true
  pub success : w.dns_failed ≡ false
  pub host_given : w.endpoint_host ≢ []
  pub key_given : w.private_key ≢ []
  pub remote_key_given : w.server_public_key ≢ []
  pub parsed :
      parse_tunnel_address env.parsers w.tunnel_address ≡ some (record { ip = a.ip; mask = a.mask })
  pub accepted : env.begin_ok a ≡ true
  pub remote : a.remote ≡ w.resolved_ip
  pub key : a.key ≡ w.private_key
  pub remote_key : a.remote_key ≡ w.server_public_key
  pub port : a.port ≡ w.endpoint_port
  pub keep : a.keep ≡ w.keepalive

record IsBegun (env : Env) (w : Wg) (a : BeginArgs) : Type 0 where
  parsed :
      parse_tunnel_address env.parsers w.tunnel_address ≡ some (record { ip = a.ip; mask = a.mask })
  accepted : env.begin_ok a ≡ true
  remote : a.remote ≡ w.resolved_ip
  key : a.key ≡ w.private_key
  remote_key : a.remote_key ≡ w.server_public_key
  port : a.port ≡ w.endpoint_port
  keep : a.keep ≡ w.keepalive
  success : w.dns_failed ≡ false

take_dns_result-IsBegun :
    (env : Env) (w : Wg) (a : BeginArgs)
    → w.peer ≡ none
    → (take_dns_result env w).peer ≡ some a
    → IsBegun env w a
unfolding take_dns_result
take_dns_result-IsBegun env w a off e = ground arith

record IsReady (env : Env) (w : Wg) (a : BeginArgs) : Type 0 where
  begun : IsBegun env w a
  no_task : w.task_alive ≡ false
  done : w.dns_done ≡ true
  host_given : w.endpoint_host ≢ []
  key_given : w.private_key ≢ []
  remote_key_given : w.server_public_key ≢ []

begin-IsReady :
    (env : Env) (w : Wg) (a : BeginArgs)
    → w.peer ≡ none
    → (begin env w).peer ≡ some a
    → IsReady env w a
unfolding begin
begin-IsReady env w a off e = ground (arith, take_dns_result-IsBegun env w a off)

retry_begin-IsReady :
    (env : Env) (w : Wg) (a : BeginArgs)
    → w.peer ≡ none
    → (retry_begin env w).peer ≡ some a
    → IsReady env w a
unfolding retry_begin
retry_begin-IsReady env w a off e = ground (arith, begin-IsReady env w a off)

cancel_and_stop-peer : (w : Wg) → w.peer ≡ none → (cancel_and_stop w).peer ≡ none
unfolding cancel_and_stop
cancel_and_stop-peer w off = ground arith

-- If `wg_tick` opens the interface, then the tunnel is enabled, the clock is set, WiFi is up, the
-- keys and the host are given, the tunnel address parses to the address and mask used, the DNS
-- task has ended with a success, and the arguments are its result and the current settings.
pub tick-IsOpening :
    (env : Env) (w : Wg) (a : BeginArgs)
    → w.peer ≡ none
    → (tick env w).peer ≡ some a
    → IsOpening env w a
unfolding tick
tick-IsOpening env w a off e = ground (
  arith,
  cancel_and_stop-peer w off,
  cancel_and_stop-peer (record w { state = WgState.wait_time }),
  retry_begin-IsReady env w a off,
)
