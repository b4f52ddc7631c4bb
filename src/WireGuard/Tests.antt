-- ===== src/WireGuard/Tests.antt =====
-- Runs of the tunnel manager, and its theorems at concrete inputs.
use birdnetgo_m5stack_atom_e.Prelude.{
  ℕ, ◌+◌, ◌-◌, ◌^◌, ◌≤◌, ◌≡◌, refl, Bool, true, false, none, some, [], ◌∷◌, arith,
}
use birdnetgo_m5stack_atom_e.Prelude.Int.{pos}
use birdnetgo_m5stack_atom_e.Prelude.Text.{Text, text, index_of}
use birdnetgo_m5stack_atom_e.WireGuard.Address.{
  IpAddress, Parsers, parse_tunnel_address, address_of_word, mask_word, valid_prefix,
}
use birdnetgo_m5stack_atom_e.WireGuard.Address.Mask.{
  word_of_address, IsParsed, parse_tunnel_address_mask,
}
use birdnetgo_m5stack_atom_e.WireGuard.State.{WgState, WgConfig, Wg, Env, boot}
use birdnetgo_m5stack_atom_e.WireGuard.Manager.{tick, retry_begin, begin, start_dns, begin_args}
use birdnetgo_m5stack_atom_e.WireGuard.Config.{load}
use birdnetgo_m5stack_atom_e.WireGuard.Invariant.{IsWg, call-IsWg}
use birdnetgo_m5stack_atom_e.WireGuard.Calls.{ticks, sets_keepalive, call}
use birdnetgo_m5stack_atom_e.WireGuard.Opening.{IsOpening, tick-IsOpening}
use birdnetgo_m5stack_atom_e.WireGuard.Backoff.{malformed_address_spins}
use birdnetgo_m5stack_atom_e.WireGuard.Resolver.{
  gone, cleaning, System, TaskStep, look, found, succeeded, publish, write_done, write_failed,
  leave, loop_step,
}
use birdnetgo_m5stack_atom_e.WireGuard.Resolver.Fresh.{
  Run, start, by_task, by_idle_call, opened_current,
}
use birdnetgo_m5stack_atom_e.WireGuard.Resolver.Ends.{TaskRun, task_ends}
use birdnetgo_m5stack_atom_e.WireGuard.Resolver.Race.{left, changed, stale_opened}

-- Parsers that read two texts only.
abbrev parsers : Parsers
parsers = record {
  to_int = λ s. elim s [ [] ↦ pos 0 | d ∷ rest ↦ pos (d - 48) ];
  from_string = λ s. elim s [
    | [] ↦ none
    | d ∷ rest ↦ some (record { octet0 = d - 48; octet1 = 6; octet2 = 0; octet3 = 5 })
  ];
}

abbrev config : WgConfig
config = record {
  enabled = true;
  private_key = text "k";
  server_public_key = text "p";
  endpoint_host = text "h";
  endpoint_port = 51820;
  tunnel_address = text "9/8";
  keepalive = 25;
}

abbrev online : ℕ → Env
online now = record {
  now_ms = now;
  epoch = 200000;
  wifi_connected = true;
  peer_up = false;
  begin_ok = λ a. true;
  task_ok = true;
  parsers = parsers;
}

-- A lookup has ended with the address "1".
abbrev looked_up : Wg
looked_up = record {
  config = config;
  state = WgState.connecting;
  peer = none;
  last_attempt_ms = 0;
  backoff_ms = 5000;
  was_up = false;
  task_alive = false;
  resolved_ip = text "1";
  dns_done = true;
  dns_failed = false;
  generation = 1;
  nvs = some config;
}

abbrev ip : IpAddress
ip = record { octet0 = 9; octet1 = 6; octet2 = 0; octet3 = 5 }

abbrev mask : IpAddress
mask = record { octet0 = 255; octet1 = 0; octet2 = 0; octet3 = 0 }

parses : parse_tunnel_address parsers (text "9/8") ≡ some (record { ip = ip; mask = mask })
unfolding parse_tunnel_address index_of valid_prefix address_of_word mask_word
parses = refl

parse_tunnel_address_mask_example :
    (slash p : ℕ) × IsParsed parsers (text "9/8") ip mask slash p
    × (word_of_address mask + 2 ^ (32 - p) ≡ 2 ^ 32)
parse_tunnel_address_mask_example = parse_tunnel_address_mask parsers (text "9/8") ip mask parses

looked_up-IsWg : IsWg looked_up
looked_up-IsWg = ground arith

call-IsWg_example : IsWg (call (sets_keepalive 30) looked_up)
call-IsWg_example = call-IsWg (sets_keepalive 30) looked_up looked_up-IsWg

opened : (tick (online 7000) looked_up).peer ≡ some (begin_args looked_up (text "1") ip mask)
unfolding tick retry_begin begin parse_tunnel_address index_of valid_prefix address_of_word
    mask_word begin_args
opened = refl

tick-IsOpening_example : IsOpening (online 7000) looked_up (begin_args looked_up (text "1") ip mask)
tick-IsOpening_example = tick-IsOpening (online 7000) looked_up _ refl opened

-- The lookup has failed instead.
abbrev not_found_wg : Wg
not_found_wg = record looked_up { dns_failed = true }

failed_wg : tick (online 7000) not_found_wg ≡ record looked_up {
  dns_done = false;
  resolved_ip = [];
  last_attempt_ms = 7000;
  backoff_ms = 10000;
}
unfolding tick retry_begin begin
failed_wg = refl

-- A tunnel address with no '/'.
abbrev malformed : Wg
malformed = record looked_up { config = record config { tunnel_address = text "9" } }

malformed_parse : parse_tunnel_address parsers (text "9") ≡ none
unfolding parse_tunnel_address index_of
malformed_parse = refl

malformed_address_spins_example :
    ((tick (online 7000) malformed).last_attempt_ms ≡ 0)
    × ((tick (online 7000) malformed).backoff_ms ≡ 5000)
    × (tick (online 7000) (tick (online 7000) malformed)
        ≡ start_dns (online 7000) (tick (online 7000) malformed))
malformed_address_spins_example =
    malformed_address_spins (online 7000) malformed (ground arith) (ground arith) refl refl
      (λ e. cc) malformed_parse (omega arith)

-- The task stands behind its last write, at the label `cleanup`.
abbrev published : System
published = record { wg = record looked_up { task_alive = true }; task = cleaning }

abbrev any_answer : Text → Text → Bool
any_answer host address = true

stale_opened_example :
    let t = left (changed published (text "new") 1) in
    TaskStep any_answer (changed published (text "new") 1) t
    × (t.wg.endpoint_host ≡ text "new")
    × ((tick (online 7000) t.wg).peer ≡ some (begin_args t.wg (text "1") ip mask))
stale_opened_example =
    stale_opened any_answer (online 7000) published (text "new") 1 ip mask (ground arith) (λ e. cc)
      (λ e. cc) (record { clock_set = omega arith; wifi = refl; parsed = parses }) (λ a. refl)

task_ends_example :
    (n : ℕ) × (t : System) × (n ≤ 1) × TaskRun any_answer published n t × (t.task ≡ gone)
task_ends_example = task_ends any_answer published

-- From power-on: the tunnel is configured in flash, the loop starts a task, and it finds "1".
abbrev sys0 : System
sys0 = record { wg = load (boot (some config)); task = gone }

-- The system with a task that has found "1" and left.
abbrev sys1 : System
sys1 = record {
  wg = record (load (boot (some config))) {
    state = WgState.connecting;
    resolved_ip = text "1";
    dns_done = true;
    generation = 1;
  };
  task = gone;
}

sys1-Run : Run any_answer sys1 0
unfolding load boot loop_step call tick retry_begin begin
sys1-Run =
    by_task
      (by_task
        (by_task
          (by_task
            (by_task
              (by_task
                (by_task (by_idle_call (ticks (online 6000)) (start (some config)) refl)
                  (look refl refl refl))
                (found (text "1") refl refl))
              (succeeded refl refl))
            (publish refl refl refl))
          (write_done refl))
        (write_failed refl))
      (leave refl)

sys1_opened : (tick (online 7000) sys1.wg).peer ≡ some (begin_args sys1.wg (text "1") ip mask)
unfolding tick retry_begin begin parse_tunnel_address index_of valid_prefix address_of_word
    mask_word begin_args load boot
sys1_opened = refl

opened_current_example :
    let a = begin_args sys1.wg (text "1") ip mask in
    (any_answer sys1.wg.endpoint_host a.remote ≡ true)
    × (a.key ≡ sys1.wg.private_key)
    × (a.remote_key ≡ sys1.wg.server_public_key)
    × (a.port ≡ sys1.wg.endpoint_port)
    × (a.keep ≡ sys1.wg.keepalive)
opened_current_example =
    opened_current any_answer (online 7000) (begin_args sys1.wg (text "1") ip mask) sys1-Run
      (unfold load boot in refl) sys1_opened
