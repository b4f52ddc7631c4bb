-- ===== src/Audio/Buffers/Size.antt =====
-- Which requests of httpSet (src/WebUI.cpp) change the block size.
use birdnetgo_m5stack_atom_e.Prelude.{
  ℕ, ◌≡◌, refl, Bool, true, false, Option, none, some, arith, ltb, take, drop, ◌+◌, ◌≢◌, ◌∙◌,
}
use birdnetgo_m5stack_atom_e.Prelude.Int.{ℤ, pos, negsuc}
use birdnetgo_m5stack_atom_e.Prelude.Text.{Text, text, is_empty}
use birdnetgo_m5stack_atom_e.Settings.Interface.{
  Arduino, Device, Key, gain, rate, buffer, wifi_tx, auto_recovery, thr_mode, min_rate,
  check_interval, sched_reset, reset_hours, cpu_freq, hp_enable, hp_cutoff, agc_enable, led_mode,
  oh_enable, oh_limit, wg_enable, wg_priv, wg_srvpub, wg_endpoint, wg_tunaddr, wg_keepalive,
  unknown, names, find_key, on_off, commit, ask, retune, same_text, to_u16, last_index_of, within,
}
use birdnetgo_m5stack_atom_e.Settings.Interface.Keys.{
  pick, switch, set_wg_port, set_wg_endpoint, set_value, http_set,
}

pick_size :
    (b : Bool) (d d' : Device) (n : ℕ)
    → d.settings.buffer_size ≡ n
    → d'.settings.buffer_size ≡ n
    → (pick b d d').settings.buffer_size ≡ n
unfolding pick
pick_size true d d' n e e' = e
pick_size false d d' n e e' = e'

switch_size :
    (d : Device) (v : Text) (act : Bool → Device)
    → ((on : Bool) → (act on).settings.buffer_size ≡ d.settings.buffer_size)
    → (switch d v act).settings.buffer_size ≡ d.settings.buffer_size
unfolding switch
switch_size d v act h = at (on_off v)
  where
    at :
        (o : Option Bool)
        → (elim o as (λ x. Device) [ none ↦ d | some on ↦ act on ]).settings.buffer_size
          ≡ d.settings.buffer_size
    at none = refl
    at (some on) = h on

set_wg_port_size :
    (d : Device) (host : Text) (z : ℤ)
    → (set_wg_port d host z).settings.buffer_size ≡ d.settings.buffer_size
unfolding set_wg_port ask
set_wg_port_size d host (negsuc n) = refl
set_wg_port_size d host (pos n) = pick_size _ _ _ _ refl refl

set_wg_endpoint_size :
    (a : Arduino) (d : Device) (v : Text)
    → (set_wg_endpoint a d v).settings.buffer_size ≡ d.settings.buffer_size
unfolding set_wg_endpoint
set_wg_endpoint_size a d v = at (last_index_of b':' v)
  where
    at :
        (o : Option ℕ)
        → (elim o as (λ x. Device) [
          | none ↦ d
          | some colon ↦
              pick (ltb 0 colon) (set_wg_port d (take colon v) (a.to_int (drop (colon + 1) v))) d
        ]).settings.buffer_size
          ≡ d.settings.buffer_size
    at none = refl
    at (some colon) = pick_size _ _ d _ (set_wg_port_size d _ _) refl

-- The key "buffer" alone changes the block size.
set_value_size :
    (a : Arduino) (d : Device) (key : Key) (v : Text)
    → key ≢ buffer
    → (set_value a d key v).settings.buffer_size ≡ d.settings.buffer_size
unfolding set_value commit ask retune
set_value_size a d gain v h = pick_size _ _ d _ refl refl
set_value_size a d rate v h = pick_size _ _ d _ (ground arith) refl
set_value_size a d buffer v h = absurd (h refl)
set_value_size a d wifi_tx v h = pick_size _ _ d _ refl refl
set_value_size a d auto_recovery v h = switch_size d v _ (λ on. refl)
set_value_size a d thr_mode v h = pick_size _ _ _ _ (ground arith) (pick_size _ _ d _ refl refl)
set_value_size a d min_rate v h = pick_size _ _ d _ refl refl
set_value_size a d check_interval v h = pick_size _ _ d _ refl refl
set_value_size a d sched_reset v h = switch_size d v _ (λ on. refl)
set_value_size a d reset_hours v h = pick_size _ _ d _ refl refl
set_value_size a d cpu_freq v h = pick_size _ _ d _ refl refl
set_value_size a d hp_enable v h = switch_size d v _ (λ on. refl)
set_value_size a d hp_cutoff v h = pick_size _ _ d _ refl refl
set_value_size a d agc_enable v h = switch_size d v _ (λ on. refl)
set_value_size a d led_mode v h = pick_size _ _ d _ refl refl
set_value_size a d oh_enable v h = switch_size d v _ (λ on. refl)
set_value_size a d oh_limit v h = pick_size _ _ d _ refl refl
set_value_size a d wg_enable v h = switch_size d v _ (λ on. refl)
set_value_size a d wg_priv v h = pick_size _ d _ _ refl refl
set_value_size a d wg_srvpub v h = pick_size _ d _ _ refl refl
set_value_size a d wg_endpoint v h = pick_size _ d _ _ refl (set_wg_endpoint_size a d v)
set_value_size a d wg_tunaddr v h = pick_size _ d _ _ refl refl
set_value_size a d wg_keepalive v h = pick_size _ _ d _ refl refl
set_value_size a d unknown v h = refl

pub http_set_size :
    (a : Arduino) (d : Device) (key : Text) (value : Option Text)
    → find_key names key ≢ buffer
    → (http_set a d key value).settings.buffer_size ≡ d.settings.buffer_size
unfolding http_set ask
http_set_size a d key none h = refl
http_set_size a d key (some v) h =
    set_value_size a _ (find_key names key) v h ∙ pick_size (is_empty v) d _ _ refl refl

pub http_set_buffer :
    (a : Arduino) (d : Device) (v : Text) (n : ℕ)
    → to_u16 (a.to_int v) ≡ n
    → within 256 8192 n ≡ true
    → (http_set a d (text "buffer") (some v)).settings.buffer_size ≡ n
unfolding http_set set_value find_key names same_text commit retune pick
http_set_buffer a d v n e ok = rw (e, ok) (ground arith)
