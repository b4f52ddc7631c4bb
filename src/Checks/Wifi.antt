-- ===== src/Checks/Wifi.antt =====
-- checkWiFiHealth and applyWifiTxPower (src/esp32_rtsp_mic_birdnetgo.ino). The warning about a weak
-- signal and the log line are left out.
use birdnetgo_m5stack_atom_e.Prelude.{ℕ, suc, Bool, if◌then◌else◌, ◌==◌}
use birdnetgo_m5stack_atom_e.Prelude.Int.{ℤ}
use birdnetgo_m5stack_atom_e.Power.{
  Level, minus_1, dbm_2, dbm_5, dbm_7, dbm_8_5, dbm_11, dbm_13, dbm_15, dbm_17, dbm_18_5, dbm_19,
  dbm_19_5, pick_level,
}
use birdnetgo_m5stack_atom_e.Stream.Control.{Link, request_stream_stop, stop_audio_task}

pub record Radio : Type 0 where
  pub level : Level  -- currentWifiPowerLevel
  pub driver_level : Level  -- as set by WiFi.setTxPower
  pub reconnects : ℕ  -- the calls of WiFi.reconnect

abbrev pub level_number : Level → ℕ
level_number minus_1 = 0
level_number dbm_2 = 1
level_number dbm_5 = 2
level_number dbm_7 = 3
level_number dbm_8_5 = 4
level_number dbm_11 = 5
level_number dbm_13 = 6
level_number dbm_15 = 7
level_number dbm_17 = 8
level_number dbm_18_5 = 9
level_number dbm_19 = 10
level_number dbm_19_5 = 11

unfoldable pub apply_wifi_tx_power : ℤ → Radio → Radio
unfolding pick_level
apply_wifi_tx_power dbm r =
    let desired = pick_level dbm in
    if level_number desired == level_number r.level
    then r
    else record r { level = desired; driver_level = desired }

unfoldable pub halt_stream : (Link → Link) → (Link → Link) → Link → Link
halt_stream core1 exit l =
    if l.is_streaming then stop_audio_task exit (request_stream_stop core1 l).0 else l

unfoldable pub check_wifi_health :
    (Link → Link) → (Link → Link) → Bool → ℤ → Link → Radio → Link × Radio
unfolding halt_stream apply_wifi_tx_power
check_wifi_health core1 exit connected dbm l r =
    if connected then (l, apply_wifi_tx_power dbm r) else (
      halt_stream core1 exit l,
      apply_wifi_tx_power dbm (record r { reconnects = suc r.reconnects }),
    )
