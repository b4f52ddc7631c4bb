-- ===== src/WireGuard/Resolver/Race.antt =====
-- The window that `Fresh` leaves out: a call that changes the endpoint after the task has passed its
-- last check (src/WireGuardManager.cpp, _cancelDNS and _dnsResolveTask).
use birdnetgo_m5stack_atom_e.Prelude.{
  ℕ, ◌+◌, ◌%◌, ◌≤◌, ◌≡◌, ◌≢◌, refl, sym, ap, subst, ◌∙◌, Bool, true, false, none, some, [], arith,
}
use birdnetgo_m5stack_atom_e.Prelude.Text.{Text}
use birdnetgo_m5stack_atom_e.Prelude.Words.{u8_mod}
use birdnetgo_m5stack_atom_e.WireGuard.Address.{IpAddress, parse_tunnel_address}
use birdnetgo_m5stack_atom_e.WireGuard.State.{BeginArgs, Wg, Env}
use birdnetgo_m5stack_atom_e.WireGuard.Manager.{tick, retry_begin, begin, begin_args}
use birdnetgo_m5stack_atom_e.WireGuard.Config.{set_endpoint}
use birdnetgo_m5stack_atom_e.WireGuard.Calls.{sets_endpoint, call}
use birdnetgo_m5stack_atom_e.WireGuard.Resolver.{gone, cleaning, System, TaskStep, leave, loop_step}

-- The task has written a success and is about to clear its handle.
pub record IsPublished (s : System) : Type 0 where
  pub task : s.task ≡ cleaning
  pub alive : s.wg.task_alive ≡ true
  pub done : s.wg.dns_done ≡ true
  pub success : s.wg.dns_failed ≡ false
  pub resolved : s.wg.resolved_ip ≢ []
  pub closed : s.wg.peer ≡ none
  pub enabled : s.wg.enabled ≡ true
  pub key_given : s.wg.private_key ≢ []
  pub remote_key_given : s.wg.server_public_key ≢ []

-- The outside lets the tunnel be opened.
pub record IsOnline (env : Env) (w : Wg) (ip mask : IpAddress) : Type 0 where
  pub clock_set : 100000 ≤ env.epoch
  pub wifi : env.wifi_connected ≡ true
  pub parsed :
      parse_tunnel_address env.parsers w.tunnel_address ≡ some (record { ip = ip; mask = mask })

-- The system after the task has left.
abbrev pub left : System → System
left s = record { wg = record s.wg { task_alive = false }; task = gone }

abbrev pub changed : System → Text → ℕ → System
changed s host port = loop_step (sets_endpoint host port) s

changed_wg :
    (s : System) (host : Text) (port : ℕ) → (changed s host port).wg ≡ set_endpoint s.wg host port
unfolding loop_step call
changed_wg s host port = refl

changed_task :
    (s : System) (host : Text) (port : ℕ)
    → s.wg.task_alive ≡ true
    → (changed s host port).task ≡ s.task
unfolding loop_step
changed_task s host port on = ground arith

opens_with :
    (env : Env) (w : Wg) (ip mask : IpAddress)
    → w.enabled ≡ true
    → 100000 ≤ env.epoch
    → env.wifi_connected ≡ true
    → w.peer ≡ none
    → w.task_alive ≡ false
    → w.dns_done ≡ true
    → w.dns_failed ≡ false
    → w.resolved_ip ≢ []
    → w.endpoint_host ≢ []
    → w.private_key ≢ []
    → w.server_public_key ≢ []
    → w.tunnel_address ≢ []
    → parse_tunnel_address env.parsers w.tunnel_address ≡ some (record { ip = ip; mask = mask })
    → env.begin_ok (begin_args w w.resolved_ip ip mask) ≡ true
    → (tick env w).peer ≡ some (begin_args w w.resolved_ip ip mask)
unfolding tick retry_begin begin
opens_with env w ip mask en clock wifi off idle done ok ip_given host key pub_key addr parsed beg =
    ground arith

set_endpoint_published :
    (w : Wg) (host : Text) (port : ℕ)
    → w.task_alive ≡ true
    → w.peer ≡ none
    → set_endpoint w host port ≡ record w {
      config = record w.config { endpoint_host = host; endpoint_port = port };
      nvs = some (record w.config { endpoint_host = host; endpoint_port = port });
      generation = (w.generation + 1) % u8_mod;
    }
unfolding set_endpoint
set_endpoint_published w host port on off = ground arith

module _ (answers : Text → Text → Bool) where
  -- In every state where the task has published a success and not yet cleared its handle, a change
  -- of the endpoint is followed, once the task has left, by a tick that opens the tunnel for the new
  -- host with the address that was resolved for the old one, if the network is up, the tunnel address
  -- parses and the library opens it.
  pub stale_opened :
      (env : Env) (s : System) (host : Text) (port : ℕ) (ip mask : IpAddress)
      → IsPublished s
      → host ≢ []
      → s.wg.tunnel_address ≢ []
      → IsOnline env s.wg ip mask
      → ((a : BeginArgs) → env.begin_ok a ≡ true)
      → let t = left (changed s host port) in
        TaskStep answers (changed s host port) t
        × (t.wg.endpoint_host ≡ host)
        × ((tick env t.wg).peer ≡ some (begin_args t.wg s.wg.resolved_ip ip mask))
  stale_opened env s host port ip mask p given addr o beg = (
    leave (changed_task s host port p.alive ∙ p.task),
    ap (λ (w : Wg). w.endpoint_host) same,
    subst
        (λ w.
          (tick env (record w { task_alive = false })).peer
          ≡ some (begin_args (record w { task_alive = false }) s.wg.resolved_ip ip mask))
        (sym same)
        (opens_with env _ ip mask p.enabled o.clock_set o.wifi p.closed refl p.done p.success
          p.resolved given p.key_given p.remote_key_given addr o.parsed (beg _)),
  )
    where
      same : (changed s host port).wg ≡ record s.wg {
        config = record s.wg.config { endpoint_host = host; endpoint_port = port };
        nvs = some (record s.wg.config { endpoint_host = host; endpoint_port = port });
        generation = (s.wg.generation + 1) % u8_mod;
      }
      same = changed_wg s host port ∙ set_endpoint_published s.wg host port p.alive p.closed
