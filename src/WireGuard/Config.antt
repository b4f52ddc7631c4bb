-- ===== src/WireGuard/Config.antt =====
-- The setters, wg_load, wg_save and wg_clear (src/WireGuardManager.cpp).
use birdnetgo_m5stack_atom_e.Prelude.{ℕ, Bool, true, false, Option, none, some, if◌then◌else◌}
use birdnetgo_m5stack_atom_e.Prelude.Text.{Text}
use birdnetgo_m5stack_atom_e.WireGuard.State.{
  disabled, wait_time, WgConfig, Wg, default_config, is_initialized,
}
use birdnetgo_m5stack_atom_e.WireGuard.Manager.{cancel_dns, stop}

-- What the getters of `Preferences` give: the stored value, or the default for a missing key.
unfoldable pub stored : Option WgConfig → WgConfig
stored none = default_config
stored (some c) = c

unfoldable pub load : Wg → Wg
unfolding stored
load w =
    let c = stored w.nvs in
    record w { config = c; state = if c.enabled then wait_time else disabled }

unfoldable pub save : Wg → Wg
save w = record w { nvs = some w.config }

-- What every setter does after its assignment: save, cancel the DNS task, stop a running tunnel.
unfoldable pub apply_config : Wg → WgConfig → Wg
unfolding save cancel_dns stop
apply_config w c =
    let w' = cancel_dns (save (record w { config = c })) in
    if is_initialized w' then stop w' else w'

unfoldable pub set_enabled : Wg → Bool → Wg
unfolding save cancel_dns stop
set_enabled w true =
    record (cancel_dns (save (record w { config = record w.config { enabled = true } }))) {
      state = wait_time;
      last_attempt_ms = 0;
    }
set_enabled w false =
    let w' = save (record w { config = record w.config { enabled = false } }) in
    stop (if w'.task_alive then cancel_dns w' else w')

unfoldable pub set_private_key : Wg → Text → Wg
unfolding apply_config
set_private_key w key = apply_config w (record w.config { private_key = key })

unfoldable pub set_server_public_key : Wg → Text → Wg
unfolding apply_config
set_server_public_key w key = apply_config w (record w.config { server_public_key = key })

unfoldable pub set_endpoint : Wg → Text → ℕ → Wg
unfolding apply_config
set_endpoint w host port =
    apply_config w (record w.config { endpoint_host = host; endpoint_port = port })

unfoldable pub set_tunnel_address : Wg → Text → Wg
unfolding apply_config
set_tunnel_address w address = apply_config w (record w.config { tunnel_address = address })

unfoldable pub set_keepalive : Wg → ℕ → Wg
unfolding apply_config
set_keepalive w seconds = apply_config w (record w.config { keepalive = seconds })

unfoldable pub clear : Wg → Wg
unfolding cancel_dns
clear w = record (if w.task_alive then cancel_dns w else w) {
  nvs = none;
  peer = none;
  config = default_config;
  state = disabled;
  was_up = false;
  last_attempt_ms = 0;
  backoff_ms = 5000;
}
