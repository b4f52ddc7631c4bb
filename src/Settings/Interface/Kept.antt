-- ===== src/Settings/Interface/Kept.antt =====
-- What a request keeps of a relation of the settings and the flash that every save establishes
-- (src/WebUI.cpp, httpSet).
use birdnetgo_m5stack_atom_e.Prelude.{
  ℕ, ◌≡◌, refl, Bool, true, false, Option, none, some, List, [], ◌∷◌, All, Bool-cases, inl, inr,
  arith, ◌+◌, ltb, take, drop,
}
use birdnetgo_m5stack_atom_e.Prelude.Int.{ℤ, pos, negsuc}
use birdnetgo_m5stack_atom_e.Prelude.Text.{Text, is_empty}
use birdnetgo_m5stack_atom_e.Settings.{Settings, Flash, minus_one, save_settings}
use birdnetgo_m5stack_atom_e.Settings.Stored.{
  IsSettings, is_gain, is_tx, recommended_low, recommended_high,
}
use birdnetgo_m5stack_atom_e.Settings.Interface.{
  Arduino, Effect, Device, Key, gain, rate, buffer, wifi_tx, auto_recovery, thr_mode, min_rate,
  check_interval, sched_reset, reset_hours, cpu_freq, hp_enable, hp_cutoff, agc_enable, led_mode,
  oh_enable, oh_limit, wg_enable, wg_priv, wg_srvpub, wg_endpoint, wg_tunaddr, wg_keepalive,
  unknown, commit, ask, retune, on_off, names, find_key, last_index_of,
}
use birdnetgo_m5stack_atom_e.Settings.Interface.Keys.{
  half_dbm, tx_steps, distance, snap_from, snap_tx, pick, switch, set_wg_port, set_wg_endpoint,
  set_value, http_set,
}

-- Settings in their ranges, and a flash that is related to them.
pub record Holds (R : Settings → Flash → Type 0) (d : Device) : Type 0 where
  pub in_range : IsSettings d.settings
  pub stored : R d.settings d.flash

retune-IsSettings : (s : Settings) → IsSettings s → IsSettings (retune s)
unfolding retune
retune-IsSettings s v = ground (
  arith,
  recommended_low s.sample_rate s.buffer_size,
  recommended_high s.sample_rate s.buffer_size v.rate_high v.size_low,
)

gain-IsSettings :
    (s : Settings) (x : ℤ) → IsSettings s → is_gain x ≡ true → IsSettings (record s { gain = x })
gain-IsSettings s x v ok = ground arith

power-IsSettings :
    (s : Settings) (x : ℤ) → IsSettings s → is_tx x ≡ true → IsSettings (record s { tx_dbm = x })
power-IsSettings s x v ok = ground arith

-- The nearest step is one of them.
snap_from-is_tx :
    (a : Arduino) (dbm best : ℤ) (steps : List ℕ)
    → is_tx best ≡ true
    → All (λ (n : ℕ). is_tx (half_dbm n) ≡ true) steps
    → is_tx (snap_from a dbm best steps) ≡ true
unfolding snap_from
snap_from-is_tx a dbm best [] ok all = ok
snap_from-is_tx a dbm best (n ∷ steps) ok all =
    let nearer = snap_from-is_tx a dbm (half_dbm n) steps all.0 all.1 in
    let kept = snap_from-is_tx a dbm best steps ok all.1 in
    elim (Bool-cases (ltb (distance a dbm (half_dbm n)) (distance a dbm best))) [
      | inl e ↦ rw e nearer
      | inr e ↦ rw e kept
    ]

tx_steps-is_tx : All (λ (n : ℕ). is_tx (half_dbm n) ≡ true) tx_steps
unfolding is_tx
tx_steps-is_tx =
    (refl, (refl, (refl, (refl, (refl, (refl, (refl, (refl, (refl, (refl, (refl, tt)))))))))))

snap_tx-is_tx : (a : Arduino) (x : ℤ) → is_tx (snap_tx a x) ≡ true
unfolding snap_tx is_tx
snap_tx-is_tx a x = snap_from-is_tx a x minus_one tx_steps refl tx_steps-is_tx

module _ (R : Settings → Flash → Type 0)
    (saved : (s : Settings) → IsSettings s → R s (save_settings s)) where
  commit-Holds :
      (d : Device) (s : Settings) (after : List Effect) → IsSettings s → Holds R (commit d s after)
  unfolding commit
  commit-Holds d s after v = record { in_range = v; stored = saved s v }

  ask-Holds : (d : Device) (after : List Effect) → Holds R d → Holds R (ask d after)
  unfolding ask
  ask-Holds d after v = record { in_range = v.in_range; stored = v.stored }

  switch-Holds :
      (d : Device) (v : Text) (act : Bool → Device)
      → Holds R d
      → ((on : Bool) → Holds R (act on))
      → Holds R (switch d v act)
  unfolding switch
  switch-Holds d v act h k = at (on_off v)
    where
      at : (o : Option Bool) → Holds R (elim o [ none ↦ d | some on ↦ act on ])
      at none = h
      at (some on) = k on

  pick-Holds :
      (b : Bool) (d d' : Device) → (b ≡ true → Holds R d) → Holds R d' → Holds R (pick b d d')
  unfolding pick
  pick-Holds true d d' h k = h refl
  pick-Holds false d d' h k = k

  set_wg_port-Holds :
      (d : Device) (host : Text) (z : ℤ) → Holds R d → Holds R (set_wg_port d host z)
  unfolding set_wg_port
  set_wg_port-Holds d host (negsuc n) h = ask-Holds d _ h
  set_wg_port-Holds d host (pos n) h = pick-Holds _ _ _ (λ e. ask-Holds d _ h) (ask-Holds d _ h)

  set_wg_endpoint-Holds :
      (a : Arduino) (d : Device) (v : Text) → Holds R d → Holds R (set_wg_endpoint a d v)
  unfolding set_wg_endpoint
  set_wg_endpoint-Holds a d v h = at (last_index_of b':' v)
    where
      at :
          (o : Option ℕ)
          → Holds R (elim o [
            | none ↦ d
            | some colon ↦
                pick (ltb 0 colon) (set_wg_port d (take colon v) (a.to_int (drop (colon + 1) v))) d
          ])
      at none = h
      at (some colon) = pick-Holds _ _ _ (λ e. set_wg_port-Holds d _ _ h) h

  set_value-Holds :
      (a : Arduino) (d : Device) (key : Key) (v : Text) → Holds R d → Holds R (set_value a d key v)
  unfolding set_value is_gain
  set_value-Holds a d gain v h =
      pick-Holds _ _ _ (λ e. commit-Holds d _ _ (gain-IsSettings d.settings _ h.in_range e)) h
  set_value-Holds a d rate v h =
      pick-Holds _ _ _ (λ e. commit-Holds d _ _ (retune-IsSettings _ (ground arith))) h
  set_value-Holds a d buffer v h =
      pick-Holds _ _ _ (λ e. commit-Holds d _ _ (retune-IsSettings _ (ground arith))) h
  set_value-Holds a d wifi_tx v h =
      pick-Holds _ _ _
        (λ e. commit-Holds d _ _ (power-IsSettings d.settings _ h.in_range (snap_tx-is_tx a _))) h
  set_value-Holds a d auto_recovery v h =
      switch-Holds d v _ h (λ on. commit-Holds d _ _ (ground arith))
  set_value-Holds a d thr_mode v h =
      pick-Holds _ _ _ (λ e. commit-Holds d _ _ (retune-IsSettings _ (ground arith)))
        (pick-Holds _ _ _ (λ e. commit-Holds d _ _ (ground arith)) h)
  set_value-Holds a d min_rate v h = pick-Holds _ _ _ (λ e. commit-Holds d _ _ (ground arith)) h
  set_value-Holds a d check_interval v h =
      pick-Holds _ _ _ (λ e. commit-Holds d _ _ (ground arith)) h
  set_value-Holds a d sched_reset v h =
      switch-Holds d v _ h (λ on. commit-Holds d _ _ (ground arith))
  set_value-Holds a d reset_hours v h = pick-Holds _ _ _ (λ e. commit-Holds d _ _ (ground arith)) h
  set_value-Holds a d cpu_freq v h = pick-Holds _ _ _ (λ e. commit-Holds d _ _ (ground arith)) h
  set_value-Holds a d hp_enable v h = switch-Holds d v _ h (λ on. commit-Holds d _ _ (ground arith))
  set_value-Holds a d hp_cutoff v h = pick-Holds _ _ _ (λ e. commit-Holds d _ _ (ground arith)) h
  set_value-Holds a d agc_enable v h =
      switch-Holds d v _ h (λ on. commit-Holds d _ _ (ground arith))
  set_value-Holds a d led_mode v h = pick-Holds _ _ _ (λ e. commit-Holds d _ _ (ground arith)) h
  set_value-Holds a d oh_enable v h = switch-Holds d v _ h (λ on. commit-Holds d _ _ h.in_range)
  set_value-Holds a d oh_limit v h = pick-Holds _ _ _ (λ e. commit-Holds d _ _ h.in_range) h
  set_value-Holds a d wg_enable v h = switch-Holds d v _ h (λ on. ask-Holds d _ h)
  set_value-Holds a d wg_priv v h = pick-Holds _ _ _ (λ e. h) (ask-Holds d _ h)
  set_value-Holds a d wg_srvpub v h = pick-Holds _ _ _ (λ e. h) (ask-Holds d _ h)
  set_value-Holds a d wg_endpoint v h = pick-Holds _ _ _ (λ e. h) (set_wg_endpoint-Holds a d v h)
  set_value-Holds a d wg_tunaddr v h = pick-Holds _ _ _ (λ e. h) (ask-Holds d _ h)
  set_value-Holds a d wg_keepalive v h = pick-Holds _ _ _ (λ e. ask-Holds d _ h) h
  set_value-Holds a d unknown v h = h

  pub http_set-Holds :
      (a : Arduino) (d : Device) (key : Text) (value : Option Text)
      → Holds R d
      → Holds R (http_set a d key value)
  unfolding http_set
  http_set-Holds a d key none h = h
  http_set-Holds a d key (some v) h =
      set_value-Holds a _ (find_key names key) v
        (pick-Holds (is_empty v) _ _ (λ e. h) (ask-Holds d _ h))
