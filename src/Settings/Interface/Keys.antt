-- ===== src/Settings/Interface/Keys.antt =====
-- httpSet (src/WebUI.cpp): one clause for each of its keys. `saveAudioSettings` and the calls of
-- other components do not read each other's results, so the calls are listed behind the save.
use birdnetgo_m5stack_atom_e.Prelude.{
  ℕ, ◌+◌, ◌-◌, ◌*◌, ◌%◌, ◌^◌, Bool, true, false, ◌&&◌, Option, none, some, List, [], ◌∷◌, ◌++◌, ltb,
  leb, if◌then◌else◌, take, drop,
}
use birdnetgo_m5stack_atom_e.Prelude.Int.{ℤ, pos, negsuc, leb_int, ltb_int, pos_part, neg_part}
use birdnetgo_m5stack_atom_e.Prelude.Text.{Text, text, is_empty}
use birdnetgo_m5stack_atom_e.Prelude.Words.{u8_mod, u16_mod}
use birdnetgo_m5stack_atom_e.WireGuard.Calls.{
  sets_enabled, sets_private_key, sets_server_public_key, sets_endpoint, sets_tunnel_address,
  sets_keepalive,
}
use birdnetgo_m5stack_atom_e.Settings.{default_tx, tenth, hundred, minus_one}
use birdnetgo_m5stack_atom_e.Settings.Interface.{
  Arduino, restarts_i2s, updates_highpass, applies_tx, resets_agc, logs, sets_cpu, protects, limits,
  calls, Device, Key, gain, rate, buffer, wifi_tx, auto_recovery, thr_mode, min_rate,
  check_interval, sched_reset, reset_hours, cpu_freq, hp_enable, hp_cutoff, agc_enable, led_mode,
  oh_enable, oh_limit, wg_enable, wg_priv, wg_srvpub, wg_endpoint, wg_tunaddr, wg_keepalive,
  unknown, same_text, names, find_key, to_u32, to_u16, within, on_off, last_index_of, commit, ask,
  retune,
}

abbrev pub half_dbm : ℕ → ℤ
half_dbm n = pos (n * 2 ^ 148)

-- The steps of snapWifiTxDbm after the first, in half dBm.
abbrev pub tx_steps : List ℕ
tx_steps = 4 ∷ 10 ∷ 14 ∷ 17 ∷ 22 ∷ 26 ∷ 30 ∷ 34 ∷ 37 ∷ 38 ∷ 39 ∷ []

-- `fabsf(dbm - step)`
abbrev pub distance : Arduino → ℤ → ℤ → ℕ
distance a x y =
    let d = a.round (
      if ltb_int x y
      then negsuc (pos_part y + neg_part x - (pos_part x + neg_part y) - 1)
      else pos (pos_part x + neg_part y - (pos_part y + neg_part x))) in
    pos_part d + neg_part d

unfoldable pub snap_from : Arduino → ℤ → ℤ → List ℕ → ℤ
snap_from a dbm best [] = best
snap_from a dbm best (n ∷ steps) =
    let nearer = snap_from a dbm (half_dbm n) steps in
    let kept = snap_from a dbm best steps in
    if ltb (distance a dbm (half_dbm n)) (distance a dbm best) then nearer else kept

unfoldable pub snap_tx : Arduino → ℤ → ℤ
snap_tx a dbm = snap_from a dbm minus_one tx_steps

-- A flag that is set from "on" or "off".
unfoldable pub switch : Device → Text → (Bool → Device) → Device
switch d v act = elim (on_off v) [ none ↦ d | some on ↦ act on ]

-- A test of the source with its two outcomes, most often the changed device and the old one.
unfoldable pub pick : Bool → Device → Device → Device
pick ok d d' = if ok then d else d'

-- The port behind the colon.
unfoldable pub set_wg_port : Device → Text → ℤ → Device
set_wg_port d host (negsuc n) = ask d (logs (text "UI set: wg_endpoint=invalid port") ∷ [])
set_wg_port d host (pos port) =
    pick (ltb 0 port && ltb port 65536) (ask d (calls (sets_endpoint host port) ∷ []))
      (ask d (logs (text "UI set: wg_endpoint=invalid port") ∷ []))

unfoldable pub set_wg_endpoint : Arduino → Device → Text → Device
set_wg_endpoint a d v = elim (last_index_of b':' v) [
  | none ↦ d
  | some colon ↦ pick (ltb 0 colon) (set_wg_port d (take colon v) (a.to_int (drop (colon + 1) v))) d
]

-- The branch of a key for a value that is given.
unfoldable pub set_value : Arduino → Device → Key → Text → Device
set_value a d gain v =
    let x = a.to_float v in
    pick (leb_int tenth x && leb_int x hundred)
      (commit d (record d.settings { gain = x }) (restarts_i2s ∷ [])) d
set_value a d rate v =
    let n = to_u32 (a.to_int v) in
    pick (within 8000 96000 n)
      (commit d (retune (record d.settings { sample_rate = n })) (restarts_i2s ∷ [])) d
set_value a d buffer v =
    let n = to_u16 (a.to_int v) in
    pick (within 256 8192 n)
      (commit d (retune (record d.settings { buffer_size = n })) (restarts_i2s ∷ [])) d
set_value a d wifi_tx v =
    let x = a.to_float v in
    pick (leb_int minus_one x && leb_int x default_tx)
      (commit d (record d.settings { tx_dbm = snap_tx a x }) (applies_tx ∷ [])) d
set_value a d auto_recovery v =
    switch d v (λ on. commit d (record d.settings { auto_recovery = on }) [])
set_value a d thr_mode v =
    pick (same_text v (text "auto"))
      (commit d (retune (record d.settings { auto_threshold = true })) [])
      (pick (same_text v (text "manual"))
        (commit d (record d.settings { auto_threshold = false }) []) d)
set_value a d min_rate v =
    let n = to_u32 (a.to_int v) in
    pick (within 5 200 n) (commit d (record d.settings { min_rate = n }) []) d
set_value a d check_interval v =
    let n = to_u32 (a.to_int v) in
    pick (within 1 60 n) (commit d (record d.settings { check_interval = n }) []) d
set_value a d sched_reset v =
    switch d v (λ on. commit d (record d.settings { scheduled_reset = on }) [])
set_value a d reset_hours v =
    let n = to_u32 (a.to_int v) in
    pick (within 1 168 n) (commit d (record d.settings { reset_hours = n }) []) d
set_value a d cpu_freq v =
    let n = to_u32 (a.to_int v) in
    pick (within 40 240 n)
      (commit d (record d.settings { cpu_mhz = n % u8_mod }) (sets_cpu (n % u8_mod) ∷ [])) d
set_value a d hp_enable v =
    switch d v (λ on. commit d (record d.settings { highpass = on }) (updates_highpass ∷ []))
set_value a d hp_cutoff v =
    let n = to_u32 (a.to_int v) in
    pick (within 10 10000 n)
      (commit d (record d.settings { cutoff_hz = n % u16_mod }) (updates_highpass ∷ [])) d
set_value a d agc_enable v =
    switch d v
      (λ on. commit d (record d.settings { agc = on }) (if on then [] else resets_agc ∷ []))
set_value a d led_mode v =
    let n = to_u32 (a.to_int v) in
    pick (leb n 2) (commit d (record d.settings { led_mode = n % u8_mod }) []) d
set_value a d oh_enable v = switch d v (λ on. commit d d.settings (protects on ∷ []))
set_value a d oh_limit v =
    let n = to_u32 (a.to_int v) in pick (within 30 95 n) (commit d d.settings (limits n ∷ [])) d
set_value a d wg_enable v = switch d v (λ on. ask d (calls (sets_enabled on) ∷ []))
set_value a d wg_priv v = pick (is_empty v) d (ask d (calls (sets_private_key v) ∷ []))
set_value a d wg_srvpub v = pick (is_empty v) d (ask d (calls (sets_server_public_key v) ∷ []))
set_value a d wg_endpoint v = pick (is_empty v) d (set_wg_endpoint a d v)
set_value a d wg_tunaddr v = pick (is_empty v) d (ask d (calls (sets_tunnel_address v) ∷ []))
set_value a d wg_keepalive v =
    let n = to_u32 (a.to_int v) in
    pick (leb n 65535) (ask d (calls (sets_keepalive (n % u16_mod)) ∷ [])) d
set_value a d unknown v = d

-- The line for the log, which does not show a private key.
unfoldable pub log_line : Text → Text → Text
log_line key v =
    text "UI set: "
    ++ (key ++ (text "=" ++ (if same_text key (text "wg_priv") then text "********" else v)))

unfoldable pub http_set : Arduino → Device → Text → Option Text → Device
http_set a d key none = d
http_set a d key (some v) =
    let logged = pick (is_empty v) d (ask d (logs (log_line key v) ∷ [])) in
    set_value a logged (find_key names key) v
