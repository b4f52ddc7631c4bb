-- ===== src/WireGuard/Invariant.antt =====
-- What holds of the manager's variables between two calls.
use birdnetgo_m5stack_atom_e.Prelude.{
  ◌≤◌, ◌<◌, ◌%◌, ◌≡◌, Bool, true, false, Option, none, some, arith,
}
use birdnetgo_m5stack_atom_e.Prelude.Words.{u8_mod}
use birdnetgo_m5stack_atom_e.WireGuard.State.{
  WgState, up, WgConfig, BeginArgs, Wg, Env, boot, is_initialized,
}
use birdnetgo_m5stack_atom_e.WireGuard.Manager.{
  begin, take_dns_result, cancel_and_stop, watch_peer, retry_begin, tick, start_dns,
}
use birdnetgo_m5stack_atom_e.WireGuard.Config.{
  load, apply_config, set_enabled, set_private_key, set_server_public_key, set_endpoint,
  set_tunnel_address, set_keepalive, clear,
}
use birdnetgo_m5stack_atom_e.WireGuard.Calls.{
  Call, ticks, sets_enabled, sets_private_key, sets_server_public_key, sets_endpoint,
  sets_tunnel_address, sets_keepalive, clears, call,
}

-- The interface runs under the current settings, and only while the tunnel is enabled.
abbrev pub Matches : Option BeginArgs → WgConfig → Type 0
Matches none c = Unit {0}
Matches (some a) c =
    (c.enabled ≡ true)
    × (a.key ≡ c.private_key)
    × (a.remote_key ≡ c.server_public_key)
    × (a.port ≡ c.endpoint_port)
    × (a.keep ≡ c.keepalive)

pub record IsWg (w : Wg) : Type 0 where
  pub backoff_low : 5000 ≤ w.backoff_ms
  pub backoff_high : w.backoff_ms ≤ 30000
  pub backoff_step : w.backoff_ms % 5000 ≡ 0
  pub generation_lt : w.generation < u8_mod
  pub matches : Matches w.peer w.config
  pub up_initialized : w.state ≡ up → is_initialized w ≡ true
  pub task_alone : w.task_alive ≡ true → is_initialized w ≡ false

pub boot-IsWg : (nvs : Option WgConfig) → IsWg (load (boot nvs))
unfolding boot load
boot-IsWg nvs = ground arith

cancel_and_stop-IsWg : (w : Wg) → IsWg w → IsWg (cancel_and_stop w)
unfolding cancel_and_stop
cancel_and_stop-IsWg w v = ground arith

watch_peer-IsWg : (env : Env) (w : Wg) → IsWg w → is_initialized w ≡ true → IsWg (watch_peer env w)
unfolding watch_peer
watch_peer-IsWg env w v on = ground arith

apply_config-IsWg : (w : Wg) (c : WgConfig) → IsWg w → IsWg (apply_config w c)
unfolding apply_config
apply_config-IsWg w c v = ground arith

take_dns_result-IsWg :
    (env : Env) (w : Wg)
    → IsWg w
    → w.enabled ≡ true
    → w.task_alive ≡ false
    → is_initialized w ≡ false
    → IsWg (take_dns_result env w)
unfolding take_dns_result
take_dns_result-IsWg env w v en idle off = ground arith

start_dns-IsWg : (env : Env) (w : Wg) → IsWg w → is_initialized w ≡ false → IsWg (start_dns env w)
unfolding start_dns
start_dns-IsWg env w v off = ground arith

retry_begin-IsWg :
    (env : Env) (w : Wg)
    → IsWg w
    → w.enabled ≡ true
    → is_initialized w ≡ false
    → IsWg (retry_begin env w)
unfolding retry_begin begin
retry_begin-IsWg env w v en off =
    ground (arith, take_dns_result-IsWg env w v en, start_dns-IsWg env w v off)

tick-IsWg : (env : Env) (w : Wg) → IsWg w → IsWg (tick env w)
unfolding tick
tick-IsWg env w v = ground (
  arith,
  cancel_and_stop-IsWg w v,
  cancel_and_stop-IsWg (record w { state = WgState.wait_time }),
  watch_peer-IsWg env w v,
  retry_begin-IsWg env w v,
)

set_enabled-IsWg : (b : Bool) (w : Wg) → IsWg w → IsWg (set_enabled w b)
unfolding set_enabled
set_enabled-IsWg true w v = ground arith
set_enabled-IsWg false w v = ground arith

-- Every call keeps the invariant: the backoff stays between 5 and 30 s in steps of 5 s, a running
-- interface has the current settings and an enabled tunnel, and no DNS task runs beside it.
pub call-IsWg : (c : Call) (w : Wg) → IsWg w → IsWg (call c w)
unfolding call set_private_key set_server_public_key set_endpoint set_tunnel_address set_keepalive
    clear
call-IsWg (ticks env) w v = tick-IsWg env w v
call-IsWg (sets_enabled b) w v = set_enabled-IsWg b w v
call-IsWg (sets_private_key key) w v = apply_config-IsWg w _ v
call-IsWg (sets_server_public_key key) w v = apply_config-IsWg w _ v
call-IsWg (sets_endpoint host port) w v = apply_config-IsWg w _ v
call-IsWg (sets_tunnel_address address) w v = apply_config-IsWg w _ v
call-IsWg (sets_keepalive seconds) w v = apply_config-IsWg w _ v
call-IsWg clears w v = ground arith
