-- ===== src/WireGuard/Resolver/Kept.antt =====
-- What a call of the manager leaves alone while the DNS task runs, and what it does to a published
-- result when none runs.
use birdnetgo_m5stack_atom_e.Prelude.{◌≡◌, ◌⊎◌, Bool, true, false, [], arith}
use birdnetgo_m5stack_atom_e.Prelude.Text.{Text}
use birdnetgo_m5stack_atom_e.WireGuard.State.{WgState, Wg, Env}
use birdnetgo_m5stack_atom_e.WireGuard.Manager.{
  tick, retry_begin, cancel_and_stop, watch_peer, take_dns_result, begin,
}
use birdnetgo_m5stack_atom_e.WireGuard.Invariant.{IsWg}
use birdnetgo_m5stack_atom_e.WireGuard.Calls.{
  Call, ticks, sets_enabled, sets_private_key, sets_server_public_key, sets_endpoint,
  sets_tunnel_address, sets_keepalive, clears, call,
}

-- `w'` comes from `w` while a task runs: the host changes only under a new generation.
pub record Kept (w w' : Wg) : Type 0 where
  pub handle : w'.task_alive ≡ true
  pub host : w'.generation ≡ w.generation → w'.endpoint_host ≡ w.endpoint_host
  pub ip : w'.resolved_ip ≡ w.resolved_ip
  pub done : w'.dns_done ≡ w.dns_done
  pub failed : w'.dns_failed ≡ w.dns_failed

tick-Kept : (env : Env) (w : Wg) → IsWg w → w.task_alive ≡ true → Kept w (tick env w)
unfolding tick cancel_and_stop watch_peer retry_begin
tick-Kept env w v on = ground arith

pub call-Kept : (c : Call) (w : Wg) → IsWg w → w.task_alive ≡ true → Kept w (call c w)
unfolding call
call-Kept (ticks env) w v on = tick-Kept env w v on
call-Kept (sets_enabled true) w v on = ground arith
call-Kept (sets_enabled false) w v on = ground arith
call-Kept (sets_private_key key) w v on = ground arith
call-Kept (sets_server_public_key key) w v on = ground arith
call-Kept (sets_endpoint host port) w v on = ground arith
call-Kept (sets_tunnel_address address) w v on = ground arith
call-Kept (sets_keepalive seconds) w v on = ground arith
call-Kept clears w v on = ground arith

module _ (answers : Text → Text → Bool) where
  -- A published success is an answer for the configured host, if one is configured.
  pub record Usable (w : Wg) : Type 0 where
    pub answer :
        w.dns_done ≡ true
        → w.dns_failed ≡ false
        → (w.endpoint_host ≡ []) ⊎ (answers w.endpoint_host w.resolved_ip ≡ true)

  -- With no task, a call keeps a published result usable, and creates a task only if there is none.
  pub record Idle (w' : Wg) : Type 0 where
    pub usable : Usable w'
    pub fresh : w'.task_alive ≡ true → w'.dns_done ≡ false

  cancel_and_stop-Idle : (w : Wg) → Usable w → w.task_alive ≡ false → Idle (cancel_and_stop w)
  unfolding cancel_and_stop
  cancel_and_stop-Idle w u off = ground arith

  watch_peer-Idle : (env : Env) (w : Wg) → Usable w → w.task_alive ≡ false → Idle (watch_peer env w)
  unfolding watch_peer
  watch_peer-Idle env w u off = ground arith

  take_dns_result-Idle : (env : Env) (w : Wg) → w.task_alive ≡ false → Idle (take_dns_result env w)
  unfolding take_dns_result
  take_dns_result-Idle env w off = ground arith

  begin-Idle : (env : Env) (w : Wg) → Usable w → w.task_alive ≡ false → Idle (begin env w)
  unfolding begin
  begin-Idle env w u off = ground (arith, take_dns_result-Idle env w off)

  retry_begin-Idle :
      (env : Env) (w : Wg) → Usable w → w.task_alive ≡ false → Idle (retry_begin env w)
  unfolding retry_begin
  retry_begin-Idle env w u off = ground (arith, begin-Idle env w u off)

  tick-Idle : (env : Env) (w : Wg) → Usable w → w.task_alive ≡ false → Idle (tick env w)
  unfolding tick
  tick-Idle env w u off = ground (
    arith,
    cancel_and_stop-Idle w u off,
    cancel_and_stop-Idle (record w { state = WgState.wait_time }),
    watch_peer-Idle env w u off,
    retry_begin-Idle env w u off,
  )

  pub call-Idle : (c : Call) (w : Wg) → Usable w → w.task_alive ≡ false → Idle (call c w)
  unfolding call
  call-Idle (ticks env) w u off = tick-Idle env w u off
  call-Idle (sets_enabled true) w u off = ground arith
  call-Idle (sets_enabled false) w u off = ground arith
  call-Idle (sets_private_key key) w u off = ground arith
  call-Idle (sets_server_public_key key) w u off = ground arith
  call-Idle (sets_endpoint host port) w u off = ground arith
  call-Idle (sets_tunnel_address address) w u off = ground arith
  call-Idle (sets_keepalive seconds) w u off = ground arith
  call-Idle clears w u off = ground arith
