-- ===== src/WireGuard/Calls.antt =====
-- The calls that reach the manager: the main loop's wg_tick and the setters of the web interface.
use birdnetgo_m5stack_atom_e.Prelude.{ℕ, Bool}
use birdnetgo_m5stack_atom_e.Prelude.Text.{Text}
use birdnetgo_m5stack_atom_e.WireGuard.State.{Wg, Env}
use birdnetgo_m5stack_atom_e.WireGuard.Manager.{tick}
use birdnetgo_m5stack_atom_e.WireGuard.Config.{
  set_enabled, set_private_key, set_server_public_key, set_endpoint, set_tunnel_address,
  set_keepalive, clear,
}

pub data Call : Type 0 where
  ticks : Env → Call
  sets_enabled : Bool → Call
  sets_private_key : Text → Call
  sets_server_public_key : Text → Call
  sets_endpoint : Text → ℕ → Call
  sets_tunnel_address : Text → Call
  sets_keepalive : ℕ → Call
  clears : Call

unfoldable pub call : Call → Wg → Wg
unfolding tick set_enabled set_private_key set_server_public_key set_endpoint set_tunnel_address
    set_keepalive clear
call (ticks env) w = tick env w
call (sets_enabled b) w = set_enabled w b
call (sets_private_key key) w = set_private_key w key
call (sets_server_public_key key) w = set_server_public_key w key
call (sets_endpoint host port) w = set_endpoint w host port
call (sets_tunnel_address address) w = set_tunnel_address w address
call (sets_keepalive seconds) w = set_keepalive w seconds
call clears w = clear w
