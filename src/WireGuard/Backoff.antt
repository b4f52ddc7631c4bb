-- ===== src/WireGuard/Backoff.antt =====
-- How wg_tick (src/WireGuardManager.cpp) paces its attempts, when a lookup fails and when the tunnel
-- address is malformed.
use birdnetgo_m5stack_atom_e.Prelude.{
  ◌+◌, ◌≤◌, ◌<◌, ◌≡◌, ◌≢◌, refl, true, false, none, [], arith, min,
}
use birdnetgo_m5stack_atom_e.Prelude.Words.{sub32}
use birdnetgo_m5stack_atom_e.WireGuard.Address.{parse_tunnel_address}
use birdnetgo_m5stack_atom_e.WireGuard.State.{Wg, Env}
use birdnetgo_m5stack_atom_e.WireGuard.Manager.{tick, retry_begin, begin, start_dns}
use birdnetgo_m5stack_atom_e.WireGuard.Invariant.{IsWg}

-- The tunnel may be opened, and neither an interface nor a DNS task is there.
pub record IsClosed (env : Env) (w : Wg) : Type 0 where
  pub enabled : w.enabled ≡ true
  pub clock_set : 100000 ≤ env.epoch
  pub wifi : env.wifi_connected ≡ true
  pub closed : w.peer ≡ none
  pub idle : w.task_alive ≡ false

pub record IsComplete (w : Wg) : Type 0 where
  pub key_given : w.private_key ≢ []
  pub remote_key_given : w.server_public_key ≢ []
  pub host_given : w.endpoint_host ≢ []
  pub address_given : w.tunnel_address ≢ []

-- Within the backoff since the last attempt, and with no success to take up, a tick does nothing.
pub tick_waits :
    (env : Env) (w : Wg)
    → IsClosed env w
    → w.dns_done ≡ false
    → sub32 env.now_ms w.last_attempt_ms < w.backoff_ms
    → tick env w ≡ w
unfolding tick retry_begin
tick_waits env w c idle soon = ground arith

tick_failed :
    (env : Env) (w : Wg)
    → IsClosed env w
    → IsComplete w
    → IsWg w
    → w.dns_done ≡ true
    → w.dns_failed ≡ true
    → w.backoff_ms ≤ sub32 env.now_ms w.last_attempt_ms
    → tick env w ≡ record w {
      dns_done = false;
      dns_failed = false;
      resolved_ip = [];
      last_attempt_ms = env.now_ms;
      backoff_ms = min 30000 (w.backoff_ms + 5000);
    }
unfolding tick retry_begin begin
tick_failed env w c full v done failed late = ground arith

-- With the tunnel enabled and complete, the network up and no interface or task, a failed lookup is
-- taken up by a tick after the backoff. It raises the backoff by 5 s up to 30 s,
-- and then a tick within the new backoff leaves everything as it is.
pub failed_lookup_backs_off :
    (env env' : Env) (w : Wg)
    → IsClosed env w
    → IsComplete w
    → IsWg w
    → w.dns_done ≡ true
    → w.dns_failed ≡ true
    → w.backoff_ms ≤ sub32 env.now_ms w.last_attempt_ms
    → IsClosed env' (tick env w)
    → sub32 env'.now_ms env.now_ms < min 30000 (w.backoff_ms + 5000)
    → ((tick env w).backoff_ms ≡ min 30000 (w.backoff_ms + 5000))
      × (tick env' (tick env w) ≡ tick env w)
failed_lookup_backs_off env env' w c full v done failed late c' soon =
    let e = tick_failed env w c full v done failed late in
    (ground arith, tick_waits env' (tick env w) c' (ground arith) (ground arith))

tick_starts :
    (env : Env) (w : Wg)
    → IsClosed env w
    → IsComplete w
    → w.dns_done ≡ false
    → w.backoff_ms ≤ sub32 env.now_ms w.last_attempt_ms
    → tick env w ≡ start_dns env w
unfolding tick retry_begin begin
tick_starts env w c full idle late = ground arith

tick_malformed :
    (env : Env) (w : Wg)
    → IsClosed env w
    → IsComplete w
    → w.dns_done ≡ true
    → w.dns_failed ≡ false
    → w.resolved_ip ≢ []
    → parse_tunnel_address env.parsers w.tunnel_address ≡ none
    → tick env w ≡ record w { dns_done = false; dns_failed = false; resolved_ip = [] }
unfolding tick retry_begin begin
tick_malformed env w c full done ok ip bad = ground arith

-- With a complete configuration whose tunnel address does not parse, the network up and the backoff
-- since the last attempt over, the tick that takes a successful lookup changes neither the time of
-- the last attempt nor the backoff, and another tick in the same millisecond starts a lookup again.
pub malformed_address_spins :
    (env : Env) (w : Wg)
    → IsClosed env w
    → IsComplete w
    → w.dns_done ≡ true
    → w.dns_failed ≡ false
    → w.resolved_ip ≢ []
    → parse_tunnel_address env.parsers w.tunnel_address ≡ none
    → w.backoff_ms ≤ sub32 env.now_ms w.last_attempt_ms
    → ((tick env w).last_attempt_ms ≡ w.last_attempt_ms)
      × ((tick env w).backoff_ms ≡ w.backoff_ms)
      × (tick env (tick env w) ≡ start_dns env (tick env w))
malformed_address_spins env w c full done ok ip bad late =
    let e = tick_malformed env w c full done ok ip bad in
    (ground arith, ground arith, rw e (tick_starts env _ (ground arith) (ground arith) refl late))
