-- ===== src/WireGuard/Resolver/Ends.antt =====
-- The steps that are left to the DNS task (src/WireGuardManager.cpp, _dnsResolveTask).
use birdnetgo_m5stack_atom_e.Prelude.{
  ℕ, zero, suc, ◌+◌, ◌-◌, ◌*◌, ◌<◌, ◌≤◌, ◌≡◌, refl, ◌≢◌, ◌⊎◌, inl, inr, Bool, true, false,
  Bool-cases, ltb, arith, ◌==◌,
}
use birdnetgo_m5stack_atom_e.Prelude.Text.{Text}
use birdnetgo_m5stack_atom_e.WireGuard.State.{Wg}
use birdnetgo_m5stack_atom_e.WireGuard.Resolver.{
  Pc, gone, gate, looking, looked, finishing, writing_done, writing_failed, cleaning, System,
  TaskStep, cancelled, no_handle, look, found, not_found, stale, again, exhausted, succeeded,
  publish, withhold, no_reader, write_done, write_failed, leave,
}

-- An upper bound of the steps that are left: five attempts of three steps each, and five more.
abbrev pub steps_left : Pc → ℕ
steps_left gone = 0
steps_left cleaning = 1
steps_left (writing_failed success) = 2
steps_left (writing_done success) = 3
steps_left (finishing mine success) = 4
steps_left (looked mine retry success) = 5 + 3 * (5 - retry)
steps_left (looking mine retry host) = 6 + 3 * (5 - retry)
steps_left (gate mine retry) = 7 + 3 * (5 - retry)

data Branch (w : Wg) (mine : ℕ) : Type 0 where
  other : w.generation ≢ mine → Branch w mine
  orphan : w.task_alive ≡ false → Branch w mine
  same : w.generation ≡ mine → w.task_alive ≡ true → Branch w mine

branch : (w : Wg) (mine : ℕ) → Branch w mine
branch w mine = elim (Bool-cases (w.generation == mine)) [
  | inr ne ↦ other (ground arith)
  | inl e ↦ elim (Bool-cases w.task_alive) [
    | inl on ↦ same (ground arith) on
    | inr off ↦ orphan off
  ]
]

module _ (answers : Text → Text → Bool) where
  -- Every step of the task lowers the bound on the steps that are left.
  pub TaskStep-steps_left :
      {s t : System} → TaskStep answers s t → steps_left t.task < steps_left s.task
  TaskStep-steps_left (cancelled e ne) = rw e (omega arith)
  TaskStep-steps_left (no_handle e off) = rw e (omega arith)
  TaskStep-steps_left (look e eq on) = rw e (omega arith)
  TaskStep-steps_left (found ip e ok) = rw e (omega arith)
  TaskStep-steps_left (not_found e) = rw e (omega arith)
  TaskStep-steps_left (stale e ne) = rw e (omega arith)
  TaskStep-steps_left (again e eq lt) = rw e (omega arith)
  TaskStep-steps_left (exhausted e eq le) = rw e (omega arith)
  TaskStep-steps_left (succeeded e eq) = rw e (omega arith)
  TaskStep-steps_left (publish e eq on) = rw e (omega arith)
  TaskStep-steps_left (withhold e ne) = rw e (omega arith)
  TaskStep-steps_left (no_reader e off) = rw e (omega arith)
  TaskStep-steps_left (write_done e) = rw e (omega arith)
  TaskStep-steps_left (write_failed e) = rw e (omega arith)
  TaskStep-steps_left (leave e) = rw e (omega arith)

  gate-step :
      (s : System) (mine retry : ℕ)
      → s.task ≡ gate mine retry
      → Branch s.wg mine
      → (t : System) × TaskStep answers s t
  gate-step s mine retry e (other ne) = (_, cancelled e ne)
  gate-step s mine retry e (orphan off) = (_, no_handle e off)
  gate-step s mine retry e (same eq on) = (_, look e eq on)

  finishing-step :
      (s : System) (mine : ℕ) (success : Bool)
      → s.task ≡ finishing mine success
      → Branch s.wg mine
      → (t : System) × TaskStep answers s t
  finishing-step s mine success e (other ne) = (_, withhold e ne)
  finishing-step s mine success e (orphan off) = (_, no_reader e off)
  finishing-step s mine success e (same eq on) = (_, publish e eq on)

  looked-step :
      (s : System) (mine retry : ℕ) (success : Bool)
      → s.task ≡ looked mine retry success
      → (s.wg.generation ≡ mine) ⊎ (s.wg.generation ≢ mine)
      → (t : System) × TaskStep answers s t
  looked-step s mine retry success e (inr ne) = (_, stale e ne)
  looked-step s mine retry true e (inl eq) = (_, succeeded e eq)
  looked-step s mine retry false e (inl eq) = elim (Bool-cases (ltb retry 4)) [
    | inl lt ↦ (_, again e eq (ground arith))
    | inr ge ↦ (_, exhausted e eq (ground arith))
  ]

  -- Until it is gone, the task can always take a step.
  step_at :
      (s : System) (pc : Pc) → s.task ≡ pc → (pc ≡ gone) ⊎ ((t : System) × TaskStep answers s t)
  step_at s gone e = inl refl
  step_at s (gate mine retry) e = inr (gate-step s mine retry e (branch s.wg mine))
  step_at s (looking mine retry host) e = inr (_, not_found e)
  step_at s (looked mine retry success) e = inr (
      looked-step s mine retry success e (elim (Bool-cases (s.wg.generation == mine)) [
        | inl eq ↦ inl (ground arith)
        | inr ne ↦ inr (ground arith)
      ]))
  step_at s (finishing mine success) e = inr (finishing-step s mine success e (branch s.wg mine))
  step_at s (writing_done success) e = inr (_, write_done e)
  step_at s (writing_failed success) e = inr (_, write_failed e)
  step_at s cleaning e = inr (_, leave e)

  -- Steps of the task alone, with their number.
  pub data TaskRun : System → ℕ → System → Type 0 where
    here : {s : System} → TaskRun s 0 s
    next : {s t u : System} {n : ℕ} → TaskStep answers s t → TaskRun t n u → TaskRun s (suc n) u

  -- No run of the task alone is longer than the bound on the steps that are left at its start.
  pub TaskRun-bounded :
      {s t : System} {n : ℕ} → TaskRun s n t → n + steps_left t.task ≤ steps_left s.task
  TaskRun-bounded here = omega arith
  TaskRun-bounded (next st run) = omega (arith, TaskStep-steps_left st, TaskRun-bounded run)

  Ended : System → Type 0
  Ended s = (n : ℕ) × (t : System) × (n ≤ steps_left s.task) × TaskRun s n t × (t.task ≡ gone)

  end_within : (bound : ℕ) (s : System) → steps_left s.task ≤ bound → Ended s
  unfolding Ended
  end_within zero s h = elim (step_at s s.task refl) [
    | inl e ↦ (0, s, omega arith, here, e)
    | inr (t, st) ↦ absurd (omega (arith, TaskStep-steps_left st))
  ]
  end_within (suc bound) s h = elim (step_at s s.task refl) [
    | inl e ↦ (0, s, omega arith, here, e)
    | inr (t, st) ↦
        let (n, u, le, run, e) = end_within bound t (omega (arith, TaskStep-steps_left st)) in
        (suc n, u, omega (arith, TaskStep-steps_left st), next st run, e)
  ]

  -- From every state, whatever the shared variables hold and whatever answers DNS may give, the task
  -- can end by steps of its own, within the bound.
  pub task_ends :
      (s : System)
      → (n : ℕ) × (t : System) × (n ≤ steps_left s.task) × TaskRun s n t × (t.task ≡ gone)
  unfolding Ended
  task_ends s = end_within (steps_left s.task) s (omega arith)
