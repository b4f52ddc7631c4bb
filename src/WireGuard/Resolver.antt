-- ===== src/WireGuard/Resolver.antt =====
-- _dnsResolveTask (src/WireGuardManager.cpp) beside the main loop, a call of the manager between two
-- steps of the task. A step is one access to the shared variables, but for `look` and `publish`, which
-- read the generation, the handle and the host, or the generation and the handle, in one. The waits
-- between two attempts only delay the task, so the gate after a wait stands for the whole wait.
-- What lwIP answers is left open: `answers host ip` says that `ip` is an answer for `host`.
pub mod Kept
pub mod Fresh
pub mod Ends
pub mod Race
use birdnetgo_m5stack_atom_e.Prelude.{
  ℕ, ◌+◌, ◌<◌, ◌≤◌, ◌≡◌, ◌≢◌, Bool, true, false, not, if◌then◌else◌,
}
use birdnetgo_m5stack_atom_e.Prelude.Text.{Text}
use birdnetgo_m5stack_atom_e.WireGuard.State.{Wg}
use birdnetgo_m5stack_atom_e.WireGuard.Calls.{Call, call}

-- Where the task stands, with the local variables that are live there.
pub data Pc : Type 0 where
  gone : Pc
  gate : (mine retry : ℕ) → Pc  -- before the checks in front of the lookup
  looking : (mine retry : ℕ) (host : Text) → Pc  -- inside lwip_getaddrinfo for `host`
  looked : (mine retry : ℕ) (success : Bool) → Pc  -- before the check behind the lookup
  finishing : (mine : ℕ) (success : Bool) → Pc  -- behind the loop
  writing_done : (success : Bool) → Pc
  writing_failed : (success : Bool) → Pc
  cleaning : Pc  -- at the label `cleanup`

pub record System : Type 0 where
  pub wg : Wg
  pub task : Pc

pub data TaskStep (answers : Text → Text → Bool) (s : System) : System → Type 0 where
  cancelled :
      {mine retry : ℕ}
      → s.task ≡ gate mine retry
      → s.wg.generation ≢ mine
      → TaskStep answers s (record s { task = cleaning })
  no_handle :
      {mine retry : ℕ}
      → s.task ≡ gate mine retry
      → s.wg.task_alive ≡ false
      → TaskStep answers s (record s { task = cleaning })
  look :
      {mine retry : ℕ}
      → s.task ≡ gate mine retry
      → s.wg.generation ≡ mine
      → s.wg.task_alive ≡ true
      → TaskStep answers s (record s { task = looking mine retry s.wg.endpoint_host })
  found :
      {mine retry : ℕ} {host : Text} (ip : Text)
      → s.task ≡ looking mine retry host
      → answers host ip ≡ true
      → TaskStep answers s
          (record { wg = record s.wg { resolved_ip = ip }; task = looked mine retry true })
  not_found :
      {mine retry : ℕ} {host : Text}
      → s.task ≡ looking mine retry host
      → TaskStep answers s (record s { task = looked mine retry false })
  stale :
      {mine retry : ℕ} {success : Bool}
      → s.task ≡ looked mine retry success
      → s.wg.generation ≢ mine
      → TaskStep answers s (record s { task = cleaning })
  again :
      {mine retry : ℕ}
      → s.task ≡ looked mine retry false
      → s.wg.generation ≡ mine
      → retry < 4
      → TaskStep answers s (record s { task = gate mine (retry + 1) })
  exhausted :
      {mine retry : ℕ}
      → s.task ≡ looked mine retry false
      → s.wg.generation ≡ mine
      → 4 ≤ retry
      → TaskStep answers s (record s { task = finishing mine false })
  succeeded :
      {mine retry : ℕ}
      → s.task ≡ looked mine retry true
      → s.wg.generation ≡ mine
      → TaskStep answers s (record s { task = finishing mine true })
  publish :
      {mine : ℕ} {success : Bool}
      → s.task ≡ finishing mine success
      → s.wg.generation ≡ mine
      → s.wg.task_alive ≡ true
      → TaskStep answers s (record s { task = writing_done success })
  withhold :
      {mine : ℕ} {success : Bool}
      → s.task ≡ finishing mine success
      → s.wg.generation ≢ mine
      → TaskStep answers s (record s { task = cleaning })
  no_reader :
      {mine : ℕ} {success : Bool}
      → s.task ≡ finishing mine success
      → s.wg.task_alive ≡ false
      → TaskStep answers s (record s { task = cleaning })
  write_done :
      {success : Bool}
      → s.task ≡ writing_done success
      → TaskStep answers s
          (record { wg = record s.wg { dns_done = true }; task = writing_failed success })
  write_failed :
      {success : Bool}
      → s.task ≡ writing_failed success
      → TaskStep answers s
          (record { wg = record s.wg { dns_failed = not success }; task = cleaning })
  leave :
      s.task ≡ cleaning
      → TaskStep answers s (record { wg = record s.wg { task_alive = false }; task = gone })

-- A call that creates the task puts it at its first gate, under the generation of that moment.
abbrev pub started : Bool → Wg → Pc → Pc
started true w pc = pc
started false w pc = if w.task_alive then gate w.generation 0 else pc

unfoldable pub loop_step : Call → System → System
loop_step c s =
    let wg' = call c s.wg in record { wg = wg'; task = started s.wg.task_alive wg' s.task }
