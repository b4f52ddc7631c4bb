-- ===== src/Power.antt =====
-- The levels of the WiFi transmitter (src/esp32_rtsp_mic_birdnetgo.ino): pickWifiPowerLevel and
-- wifiPowerLevelToDbm. A power is a float as in `Settings`.
mod Tests
use birdnetgo_m5stack_atom_e.Prelude.{ℕ, ◌*◌, ◌^◌, ◌-◌, ◌≡◌, true, if◌then◌else◌, arith}
use birdnetgo_m5stack_atom_e.Prelude.Int.{ℤ, pos, negsuc, leb_int}

-- wifi_power_t
pub data Level : Type 0 where
  minus_1 dbm_2 dbm_5 dbm_7 dbm_8_5 dbm_11 dbm_13 dbm_15 dbm_17 dbm_18_5 dbm_19 dbm_19_5 : Level

-- n half dBm.
abbrev pub halves : ℕ → ℤ
halves n = pos (n * 2 ^ 148)

unfoldable pub level_dbm : Level → ℤ
level_dbm dbm_19_5 = halves 39
level_dbm dbm_19 = halves 38
level_dbm dbm_18_5 = halves 37
level_dbm dbm_17 = halves 34
level_dbm dbm_15 = halves 30
level_dbm dbm_13 = halves 26
level_dbm dbm_11 = halves 22
level_dbm dbm_8_5 = halves 17
level_dbm dbm_7 = halves 14
level_dbm dbm_5 = halves 10
level_dbm dbm_2 = halves 4
level_dbm minus_1 = negsuc (2 ^ 149 - 1)

unfoldable pub pick_level : ℤ → Level
pick_level dbm =
    if leb_int dbm (negsuc (2 ^ 149 - 1))
    then minus_1
    else if leb_int dbm (halves 4)
    then dbm_2
    else if leb_int dbm (halves 10)
    then dbm_5
    else if leb_int dbm (halves 14)
    then dbm_7
    else if leb_int dbm (halves 17)
    then dbm_8_5
    else if leb_int dbm (halves 22)
    then dbm_11
    else if leb_int dbm (halves 26)
    then dbm_13
    else if leb_int dbm (halves 30)
    then dbm_15
    else if leb_int dbm (halves 34)
    then dbm_17
    else if leb_int dbm (halves 37)
    then dbm_18_5
    else if leb_int dbm (halves 38)
    then dbm_19
    else dbm_19_5

-- The level picked is the lowest one that is not below the request, where there is such a level.
pub pick_level_lem :
    (dbm : ℤ) (level : Level)
    → leb_int dbm (level_dbm level) ≡ true
    → (leb_int dbm (level_dbm (pick_level dbm)) ≡ true)
      × (leb_int (level_dbm (pick_level dbm)) (level_dbm level) ≡ true)
unfolding pick_level level_dbm
pick_level_lem dbm minus_1 h = ground arith
pick_level_lem dbm dbm_2 h = ground arith
pick_level_lem dbm dbm_5 h = ground arith
pick_level_lem dbm dbm_7 h = ground arith
pick_level_lem dbm dbm_8_5 h = ground arith
pick_level_lem dbm dbm_11 h = ground arith
pick_level_lem dbm dbm_13 h = ground arith
pick_level_lem dbm dbm_15 h = ground arith
pick_level_lem dbm dbm_17 h = ground arith
pick_level_lem dbm dbm_18_5 h = ground arith
pick_level_lem dbm dbm_19 h = ground arith
pick_level_lem dbm dbm_19_5 h = ground arith
