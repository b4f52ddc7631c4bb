-- ===== src/WireGuard/Resolver/Fresh.antt =====
-- Whose address the DNS task's result is (src/WireGuardManager.cpp, _dnsResolveTask), over the
-- interleavings in which no call cancels the task while it is publishing (for the others, `Race`).
use birdnetgo_m5stack_atom_e.Prelude.{
  ℕ, ◌+◌, ◌-◌, ◌%◌, ◌<◌, ◌≡◌, refl, sym, subst, inl, inr, Bool, true, false, Bool-cases, Option,
  none, some, arith,
}
use birdnetgo_m5stack_atom_e.Prelude.Text.{Text}
use birdnetgo_m5stack_atom_e.Prelude.Words.{u8_mod}
use birdnetgo_m5stack_atom_e.WireGuard.State.{WgConfig, BeginArgs, Wg, Env, boot}
use birdnetgo_m5stack_atom_e.WireGuard.Manager.{tick}
use birdnetgo_m5stack_atom_e.WireGuard.Opening.{tick-IsOpening}
use birdnetgo_m5stack_atom_e.WireGuard.Config.{load}
use birdnetgo_m5stack_atom_e.WireGuard.Invariant.{IsWg, boot-IsWg, call-IsWg}
use birdnetgo_m5stack_atom_e.WireGuard.Calls.{Call, call}
use birdnetgo_m5stack_atom_e.WireGuard.Resolver.{
  Pc, gone, gate, looking, looked, finishing, writing_done, writing_failed, cleaning, System,
  TaskStep, cancelled, no_handle, look, found, not_found, stale, again, exhausted, succeeded,
  publish, withhold, no_reader, write_done, write_failed, leave, loop_step, started,
}
use birdnetgo_m5stack_atom_e.WireGuard.Resolver.Kept.{Kept, call-Kept, Usable, Idle, call-Idle}

-- The task has passed its last check and its result is not yet taken up.
abbrev pub publishing : Pc → Bool → Bool
publishing (writing_done success) done = true
publishing (writing_failed success) done = true
publishing cleaning done = done
publishing _ done = false

-- How often the call cancels (`s_dnsGeneration` is a uint8_t).
abbrev pub cancels : Call → Wg → ℕ
cancels c w = ((call c w).generation + u8_mod - w.generation) % u8_mod

module _ (answers : Text → Text → Bool) where
  -- Any interleaving from power-on of calls and task steps in which no call cancels a publishing
  -- task, and fewer than 256 cancellations meet one task. The number counts the cancellations
  -- since the last task was created.
  pub data Run : System → ℕ → Type 0 where
    start : (nvs : Option WgConfig) → Run (record { wg = load (boot nvs); task = gone }) 0
    by_task : {s t : System} {b : ℕ} → Run s b → TaskStep answers s t → Run t b
    by_idle_call :
        {s : System} {b : ℕ} (c : Call) → Run s b → s.wg.task_alive ≡ false → Run (loop_step c s) 0
    by_call :
        {s : System} {b : ℕ} (c : Call)
        → Run s b
        → s.wg.task_alive ≡ true
        → (publishing s.task s.wg.dns_done ≡ true → (call c s.wg).generation ≡ s.wg.generation)
        → b + cancels c s.wg < u8_mod
        → Run (loop_step c s) (b + cancels c s.wg)

  -- While the task works: its generation, and that nothing is published yet.
  pub record Working (w : Wg) (b mine : ℕ) : Type 0 where
    pub alive : w.task_alive ≡ true
    pub mine_lt : mine < u8_mod
    pub counted : w.generation ≡ (mine + b) % u8_mod
    pub unpublished : w.dns_done ≡ false

  abbrev pub Answered : Wg → Type 0
  Answered w = answers w.endpoint_host w.resolved_ip ≡ true

  abbrev pub At : Wg → ℕ → Pc → Type 0
  At w b gone = (w.task_alive ≡ false) × Usable answers w
  At w b (gate mine retry) = Working w b mine
  At w b (looking mine retry host) = Working w b mine × (b ≡ 0 → host ≡ w.endpoint_host)
  At w b (looked mine retry true) = Working w b mine × (b ≡ 0 → Answered w)
  At w b (looked mine retry false) = Working w b mine
  At w b (finishing mine true) = Working w b mine × (b ≡ 0 → Answered w)
  At w b (finishing mine false) = Working w b mine
  At w b (writing_done true) = (w.task_alive ≡ true) × Answered w
  At w b (writing_done false) = w.task_alive ≡ true
  At w b (writing_failed true) = (w.task_alive ≡ true) × Answered w
  At w b (writing_failed false) = w.task_alive ≡ true
  At w b cleaning = (w.task_alive ≡ true) × Usable answers w

  pub record Good (s : System) (b : ℕ) : Type 0 where
    pub valid : IsWg s.wg
    pub b_lt : b < u8_mod
    pub at : At s.wg b s.task

  -- A call beside a task, by where the task stands.
  call-At :
      (w w' : Wg) (b k : ℕ) (pc : Pc)
      → IsWg w
      → IsWg w'
      → Kept w w'
      → k ≡ (w'.generation + u8_mod - w.generation) % u8_mod
      → w.task_alive ≡ true
      → (publishing pc w.dns_done ≡ true → w'.generation ≡ w.generation)
      → At w b pc
      → At w' (b + k) pc
  call-At w w' b k gone v v' kept e on calm (off, u) = cc
  call-At w w' b k (gate mine retry) v v' kept e on calm at = ground arith
  call-At w w' b k (looking mine retry host) v v' kept e on calm at = ground arith
  call-At w w' b k (looked mine retry true) v v' kept e on calm at = ground arith
  call-At w w' b k (looked mine retry false) v v' kept e on calm at = ground arith
  call-At w w' b k (finishing mine true) v v' kept e on calm at = ground arith
  call-At w w' b k (finishing mine false) v v' kept e on calm at = ground arith
  call-At w w' b k (writing_done true) v v' kept e on calm at = ground arith
  call-At w w' b k (writing_done false) v v' kept e on calm at = ground arith
  call-At w w' b k (writing_failed true) v v' kept e on calm at = ground arith
  call-At w w' b k (writing_failed false) v v' kept e on calm at = ground arith
  call-At w w' b k cleaning v v' kept e on calm at = ground arith

  placed : (s : System) (b : ℕ) (pc : Pc) → Good s b → s.task ≡ pc → At s.wg b pc
  placed s b pc g e = subst (λ p. At s.wg b p) e g.at

  TaskStep-Good : {s t : System} (b : ℕ) → TaskStep answers s t → Good s b → Good t b
  TaskStep-Good {s} b (cancelled {mine = m} {retry = r} e ne) g =
      let at = placed s b (gate m r) g e in ground arith
  TaskStep-Good {s} b (no_handle {mine = m} {retry = r} e off) g =
      let at = placed s b (gate m r) g e in ground arith
  TaskStep-Good {s} b (look {mine = m} {retry = r} e same on) g =
      let at = placed s b (gate m r) g e in ground arith
  TaskStep-Good {s} b (found {mine = m} {retry = r} {host = h} ip e ok) g =
      let at = placed s b (looking m r h) g e in ground arith
  TaskStep-Good {s} b (not_found {mine = m} {retry = r} {host = h} e) g =
      let at = placed s b (looking m r h) g e in ground arith
  TaskStep-Good {s} b (stale {mine = m} {retry = r} {success = true} e ne) g =
      let at = placed s b (looked m r true) g e in ground arith
  TaskStep-Good {s} b (stale {mine = m} {retry = r} {success = false} e ne) g =
      let at = placed s b (looked m r false) g e in ground arith
  TaskStep-Good {s} b (again {mine = m} {retry = r} e same lt) g =
      let at = placed s b (looked m r false) g e in ground arith
  TaskStep-Good {s} b (exhausted {mine = m} {retry = r} e same le) g =
      let at = placed s b (looked m r false) g e in ground arith
  TaskStep-Good {s} b (succeeded {mine = m} {retry = r} e same) g =
      let at = placed s b (looked m r true) g e in ground arith
  TaskStep-Good {s} b (publish {mine = m} {success = true} e same on) g =
      let at = placed s b (finishing m true) g e in ground arith
  TaskStep-Good {s} b (publish {mine = m} {success = false} e same on) g =
      let at = placed s b (finishing m false) g e in ground arith
  TaskStep-Good {s} b (withhold {mine = m} {success = true} e ne) g =
      let at = placed s b (finishing m true) g e in ground arith
  TaskStep-Good {s} b (withhold {mine = m} {success = false} e ne) g =
      let at = placed s b (finishing m false) g e in ground arith
  TaskStep-Good {s} b (no_reader {mine = m} {success = true} e off) g =
      let at = placed s b (finishing m true) g e in ground arith
  TaskStep-Good {s} b (no_reader {mine = m} {success = false} e off) g =
      let at = placed s b (finishing m false) g e in ground arith
  TaskStep-Good {s} b (write_done {success = true} e) g =
      let at = placed s b (writing_done true) g e in ground arith
  TaskStep-Good {s} b (write_done {success = false} e) g =
      let at = placed s b (writing_done false) g e in ground arith
  TaskStep-Good {s} b (write_failed {success = true} e) g =
      let at = placed s b (writing_failed true) g e in ground arith
  TaskStep-Good {s} b (write_failed {success = false} e) g =
      let at = placed s b (writing_failed false) g e in ground arith
  TaskStep-Good {s} b (leave e) g = let at = placed s b cleaning g e in ground arith

  idle_Usable : (w : Wg) (b : ℕ) (pc : Pc) → w.task_alive ≡ false → At w b pc → Usable answers w
  idle_Usable w b gone off at = at.1
  idle_Usable w b (looked mine retry true) off at = ground arith
  idle_Usable w b (looked mine retry false) off at = ground arith
  idle_Usable w b (finishing mine true) off at = ground arith
  idle_Usable w b (finishing mine false) off at = ground arith
  idle_Usable w b (writing_done true) off at = ground arith
  idle_Usable w b (writing_done false) off at = ground arith
  idle_Usable w b (writing_failed true) off at = ground arith
  idle_Usable w b (writing_failed false) off at = ground arith
  idle_Usable w b _ off at = ground arith

  placed-Idle :
      (w w' : Wg) (b : ℕ) (pc : Pc)
      → IsWg w'
      → Idle answers w'
      → w.task_alive ≡ false
      → At w b pc
      → At w' 0 (started false w' pc)
  placed-Idle w w' b gone v' idle off at = elim (Bool-cases w'.task_alive) [
    | inl on' ↦ rw on' (ground arith)
    | inr off' ↦ rw off' (ground arith)
  ]
  placed-Idle w w' b (looked mine retry true) v' idle off at = absurd (ground arith)
  placed-Idle w w' b (looked mine retry false) v' idle off at = absurd (ground arith)
  placed-Idle w w' b (finishing mine true) v' idle off at = absurd (ground arith)
  placed-Idle w w' b (finishing mine false) v' idle off at = absurd (ground arith)
  placed-Idle w w' b (writing_done true) v' idle off at = absurd (ground arith)
  placed-Idle w w' b (writing_done false) v' idle off at = absurd (ground arith)
  placed-Idle w w' b (writing_failed true) v' idle off at = absurd (ground arith)
  placed-Idle w w' b (writing_failed false) v' idle off at = absurd (ground arith)
  placed-Idle w w' b _ v' idle off at = absurd (ground arith)

  start-At : (nvs : Option WgConfig) → At (load (boot nvs)) 0 gone
  unfolding load boot
  start-At nvs = ground arith

  idle_call-Good :
      (c : Call) (s : System) (b : ℕ) → Good s b → s.wg.task_alive ≡ false → Good (loop_step c s) 0
  idle_call-Good c s b g off =
      let v' = call-IsWg c s.wg g.valid in
      let u = idle_Usable s.wg b s.task off g.at in
      record {
        valid = unfold loop_step in v';
        b_lt = omega arith;
        at =
            unfold loop_step in
            subst (λ a. At (call c s.wg) 0 (started a (call c s.wg) s.task)) (sym off)
              (placed-Idle s.wg (call c s.wg) b s.task v' (call-Idle answers c s.wg u off) off
                g.at);
      }

  call-Good :
      (c : Call) (s : System) (b : ℕ)
      → Good s b
      → s.wg.task_alive ≡ true
      → (publishing s.task s.wg.dns_done ≡ true → (call c s.wg).generation ≡ s.wg.generation)
      → b + cancels c s.wg < u8_mod
      → Good (loop_step c s) (b + cancels c s.wg)
  call-Good c s b g on calm lt =
      let v' = call-IsWg c s.wg g.valid in
      let kept = call-Kept c s.wg g.valid on in
      record {
        valid = unfold loop_step in v';
        b_lt = lt;
        at =
            unfold loop_step in
            subst (λ a. At (call c s.wg) (b + cancels c s.wg) (started a (call c s.wg) s.task))
              (sym on)
              (call-At s.wg (call c s.wg) b (cancels c s.wg) s.task g.valid v' kept refl on calm
                g.at);
      }

  pub Run-Good : {s : System} {b : ℕ} → Run s b → Good s b
  Run-Good (start nvs) = record { valid = boot-IsWg nvs; b_lt = omega arith; at = start-At nvs }
  Run-Good (by_task {b = b} r st) = TaskStep-Good b st (Run-Good r)
  Run-Good (by_idle_call {s = s} {b = b} c r off) = idle_call-Good c s b (Run-Good r) off
  Run-Good (by_call {s = s} {b = b} c r on calm lt) = call-Good c s b (Run-Good r) on calm lt

  -- Whenever a tick opens the interface, at any moment of any interleaving from power-on in which no
  -- call cancels the task while it publishes and fewer than 256 cancellations meet one task, it opens
  -- it to an address that DNS gave for the host configured at that moment, and with the other
  -- settings of that moment.
  pub opened_current :
      {s : System} {b : ℕ} (env : Env) (a : BeginArgs)
      → Run s b
      → s.wg.peer ≡ none
      → (tick env s.wg).peer ≡ some a
      → (answers s.wg.endpoint_host a.remote ≡ true)
        × (a.key ≡ s.wg.private_key)
        × (a.remote_key ≡ s.wg.server_public_key)
        × (a.port ≡ s.wg.endpoint_port)
        × (a.keep ≡ s.wg.keepalive)
  opened_current {s} {b} env a r off opened =
      let o = tick-IsOpening env s.wg a off opened in
      let g = Run-Good r in
      let u = idle_Usable s.wg b s.task o.no_task g.at in ground (arith, u.answer)
