-- ===== src/WireGuard/Manager.antt =====
-- wg_begin, wg_stop and wg_tick (src/WireGuardManager.cpp) with the functions below them. Each is
-- one atomic step of the main loop; the DNS task that runs beside it is in `Resolver`.
use birdnetgo_m5stack_atom_e.Prelude.{
  ℕ, ◌+◌, ◌%◌, Bool, true, false, not, ◌&&◌, ◌||◌, none, some, [], ltb, if◌then◌else◌,
}
use birdnetgo_m5stack_atom_e.Prelude.Text.{Text, is_empty}
use birdnetgo_m5stack_atom_e.Prelude.Words.{sub32, u8_mod}
use birdnetgo_m5stack_atom_e.WireGuard.Address.{IpAddress, parse_tunnel_address}
use birdnetgo_m5stack_atom_e.WireGuard.State.{
  WgState, disabled, wait_time, wait_wifi, connecting, up, WgConfig, BeginArgs, Wg, Env,
  is_initialized,
}

-- `if (s_backoffMs < 30000) s_backoffMs += 5000;`
unfoldable pub grow_backoff : ℕ → ℕ
grow_backoff ms = if ltb ms 30000 then ms + 5000 else ms

unfoldable pub begin_args : Wg → Text → IpAddress → IpAddress → BeginArgs
begin_args w resolved ip mask = record {
  ip = ip;
  mask = mask;
  key = w.private_key;
  remote = resolved;
  remote_key = w.server_public_key;
  port = w.endpoint_port;
  keep = w.keepalive;
}

unfoldable pub open_tunnel : Env → Wg → BeginArgs → Wg
open_tunnel env w args =
    if env.begin_ok args
    then record w { peer = some args; last_attempt_ms = env.now_ms }
    else record w { last_attempt_ms = env.now_ms; backoff_ms = grow_backoff w.backoff_ms }

unfoldable pub start_tunnel_with_ip : Env → Wg → Text → Wg
unfolding open_tunnel begin_args
start_tunnel_with_ip env w resolved = elim (parse_tunnel_address env.parsers w.tunnel_address) [
  | none ↦ w
  | some parsed ↦ open_tunnel env w (begin_args w resolved parsed.ip parsed.mask)
]

unfoldable pub cancel_dns : Wg → Wg
cancel_dns w =
    if w.task_alive
    then record w { generation = (w.generation + 1) % u8_mod }
    else record w { dns_done = false; dns_failed = false; resolved_ip = [] }

-- The configuration lacks something that the tunnel needs.
unfoldable pub incomplete : WgConfig → Bool
incomplete c =
    (is_empty c.private_key || is_empty c.server_public_key)
    || is_empty c.endpoint_host
    || is_empty c.tunnel_address

-- The branch of `wg_begin` where the DNS task has finished.
unfoldable pub take_dns_result : Env → Wg → Wg
unfolding start_tunnel_with_ip grow_backoff
take_dns_result env w =
    let taken : Wg = record w { dns_done = false; dns_failed = false; resolved_ip = [] } in
    if w.dns_failed || is_empty w.resolved_ip
    then record taken { last_attempt_ms = env.now_ms; backoff_ms = grow_backoff w.backoff_ms }
    else start_tunnel_with_ip env taken w.resolved_ip

-- The last branch of `wg_begin`: create the DNS task, under a new generation.
unfoldable pub start_dns : Env → Wg → Wg
start_dns env w =
    let next : Wg = record w {
      generation = (w.generation + 1) % u8_mod;
      state = connecting;
      task_alive = env.task_ok;
    } in
    if env.task_ok then next else record next { last_attempt_ms = env.now_ms }

unfoldable pub begin : Env → Wg → Wg
unfolding take_dns_result start_dns incomplete
begin env w =
    if is_initialized w
    then w
    else if incomplete w.config
    then w
    else if w.task_alive
    then w
    else if w.dns_done
    then take_dns_result env w
    else start_dns env w

unfoldable pub stop : Wg → Wg
unfolding cancel_dns
stop w = record (cancel_dns w) {
  peer = none;
  state = if w.enabled then wait_time else disabled;
  was_up = false;
}

-- `if (s_dnsTaskHandle != NULL) _cancelDNS(...); if (s_wg.is_initialized()) wg_stop();`
unfoldable pub cancel_and_stop : Wg → Wg
unfolding cancel_dns stop
cancel_and_stop w =
    let w' = if w.task_alive then cancel_dns w else w in if is_initialized w' then stop w' else w'

abbrev pub is_disabled : WgState → Bool
is_disabled disabled = true
is_disabled _ = false

abbrev pub is_wait_time : WgState → Bool
is_wait_time wait_time = true
is_wait_time _ = false

-- The part of `wg_tick` where the interface is up.
unfoldable pub watch_peer : Env → Wg → Wg
unfolding stop grow_backoff
watch_peer env w =
    if env.peer_up
    then record w {
      was_up = true;
      backoff_ms = if w.was_up then w.backoff_ms else 5000;
      state = up;
    }
    else let down : Wg = record w { was_up = false; state = connecting } in
      if ltb 30000 (sub32 env.now_ms w.last_attempt_ms)
      then record (stop down) {
        last_attempt_ms = env.now_ms;
        backoff_ms = grow_backoff w.backoff_ms;
      }
      else down

-- The part of `wg_tick` where the interface is not up.
unfoldable pub retry_begin : Env → Wg → Wg
unfolding begin
retry_begin env w =
    if w.dns_done && not w.dns_failed
    then begin env w
    else if w.task_alive
    then record w { state = connecting }
    else if ltb (sub32 env.now_ms w.last_attempt_ms) w.backoff_ms
    then w
    else begin env w

unfoldable pub tick : Env → Wg → Wg
tick env w =
    if not w.enabled
    then record (if is_disabled w.state then w else cancel_and_stop w) { state = disabled }
    else if ltb env.epoch 100000
    then (if is_wait_time w.state then w else cancel_and_stop (record w { state = wait_time }))
    else if not env.wifi_connected
    then record (cancel_and_stop w) { state = wait_wifi }
    else if is_initialized w
    then watch_peer env w
    else retry_begin env w
