-- ===== src/WireGuard/Storage.antt =====
-- The settings in flash, and what a setter leaves of the old settings (src/WireGuardManager.cpp).
use birdnetgo_m5stack_atom_e.Prelude.{
  ◌+◌, ◌%◌, ◌≡◌, refl, ◌⊎◌, true, false, Option, none, List, [], ◌∷◌, arith,
}
use birdnetgo_m5stack_atom_e.Prelude.Words.{u8_mod}
use birdnetgo_m5stack_atom_e.WireGuard.State.{
  disabled, wait_time, WgConfig, Wg, Env, boot, is_initialized,
}
use birdnetgo_m5stack_atom_e.WireGuard.Manager.{
  tick, retry_begin, begin, cancel_and_stop, watch_peer,
}
use birdnetgo_m5stack_atom_e.WireGuard.Config.{stored, load, apply_config}
use birdnetgo_m5stack_atom_e.WireGuard.Invariant.{IsWg}
use birdnetgo_m5stack_atom_e.WireGuard.Calls.{
  Call, ticks, sets_enabled, sets_private_key, sets_server_public_key, sets_endpoint,
  sets_tunnel_address, sets_keepalive, clears, call,
}

abbrev pub IsStored : Wg → Type 0
IsStored w = stored w.nvs ≡ w.config

record SameStore (w w' : Wg) : Type 0 where
  config : w'.config ≡ w.config
  nvs : w'.nvs ≡ w.nvs

cancel_and_stop-SameStore : (w : Wg) → SameStore w (cancel_and_stop w)
unfolding cancel_and_stop
cancel_and_stop-SameStore w = ground arith

begin-SameStore : (env : Env) (w : Wg) → SameStore w (begin env w)
unfolding begin
begin-SameStore env w = ground arith

retry_begin-SameStore : (env : Env) (w : Wg) → SameStore w (retry_begin env w)
unfolding retry_begin
retry_begin-SameStore env w = ground (arith, begin-SameStore env w)

watch_peer-SameStore : (env : Env) (w : Wg) → SameStore w (watch_peer env w)
unfolding watch_peer
watch_peer-SameStore env w = ground arith

tick-SameStore : (env : Env) (w : Wg) → SameStore w (tick env w)
unfolding tick
tick-SameStore env w = ground (
  arith,
  cancel_and_stop-SameStore w,
  cancel_and_stop-SameStore (record w { state = wait_time }),
  retry_begin-SameStore env w,
  watch_peer-SameStore env w,
)

pub call-IsStored : (c : Call) (w : Wg) → IsStored w → IsStored (call c w)
unfolding call stored
call-IsStored (ticks env) w h = ground (arith, tick-SameStore env w)
call-IsStored (sets_enabled true) w h = ground arith
call-IsStored (sets_enabled false) w h = ground arith
call-IsStored (sets_private_key key) w h = ground arith
call-IsStored (sets_server_public_key key) w h = ground arith
call-IsStored (sets_endpoint host port) w h = ground arith
call-IsStored (sets_tunnel_address address) w h = ground arith
call-IsStored (sets_keepalive seconds) w h = ground arith
call-IsStored clears w h = refl

pub calls : List Call → Wg → Wg
calls [] w = w
calls (c ∷ cs) w = calls cs (call c w)

calls-IsStored : (cs : List Call) (w : Wg) → IsStored w → IsStored (calls cs w)
unfolding calls
calls-IsStored [] w h = h
calls-IsStored (c ∷ cs) w h = calls-IsStored cs (call c w) (call-IsStored c w h)

pub load-IsStored : (nvs : Option WgConfig) → IsStored (load (boot nvs))
unfolding load boot
load-IsStored nvs = refl

-- A reboot, after any calls since the last boot, comes up with the settings that were in use.
pub reboot-config :
    (nvs : Option WgConfig) (cs : List Call)
    → let w = calls cs (load (boot nvs)) in (load (boot w.nvs)).config ≡ w.config
unfolding load boot
reboot-config nvs cs = calls-IsStored cs _ (load-IsStored nvs)

-- A changed setting stops the interface and withdraws what the resolver did for the old ones: the
-- task, if one runs, has an older generation, and else no result is left.
pub record IsRestarted (w w' : Wg) : Type 0 where
  pub closed : w'.peer ≡ none
  pub not_up : is_initialized w ≡ true → (w'.state ≡ wait_time) ⊎ (w'.state ≡ disabled)
  pub outdated : w.task_alive ≡ true → w'.generation ≡ (w.generation + 1) % u8_mod
  pub withdrawn : w.task_alive ≡ false → (w'.dns_done ≡ false) × (w'.resolved_ip ≡ [])

-- From a state of the invariant, a change of the settings (every setter but `wg_setEnabled`) leaves
-- the interface closed; one that was open waits for the time or is disabled; a running task becomes
-- outdated; and without a task the last result is withdrawn.
pub apply_config-IsRestarted : (w : Wg) (c : WgConfig) → IsWg w → IsRestarted w (apply_config w c)
unfolding apply_config
apply_config-IsRestarted w c v = ground arith
