-- ===== src/Settings/Interface.antt =====
-- What httpSet (src/WebUI.cpp) is made of: the arguments' conversions, the names of the keys, and
-- the device that it changes. What it asks of other components is listed in order as effects.
pub mod Keys
mod Kept
pub mod Laws
use birdnetgo_m5stack_atom_e.Prelude.{
  ℕ, suc, ◌+◌, ◌-◌, ◌*◌, ◌/◌, ◌%◌, ◌^◌, Bool, true, false, not, ◌&&◌, Option, none, some, List, [],
  ◌∷◌, ◌++◌, ltb, leb, if◌then◌else◌, take, drop, ◌==◌,
}
use birdnetgo_m5stack_atom_e.Prelude.Int.{ℤ, pos, negsuc, leb_int}
use birdnetgo_m5stack_atom_e.Prelude.Text.{Text, text, is_empty}
use birdnetgo_m5stack_atom_e.Prelude.Words.{u16_mod, u32_mod}
use birdnetgo_m5stack_atom_e.WireGuard.Calls.{
  Call, sets_enabled, sets_private_key, sets_server_public_key, sets_endpoint, sets_tunnel_address,
  sets_keepalive,
}
use birdnetgo_m5stack_atom_e.Settings.{
  Settings, Flash, unit_of_float, recommended_min_rate, save_settings,
}

-- Arduino's `toInt` and `toFloat`, the latter for finite numbers, and how the machine rounds the
-- difference of two floats.
pub record Arduino : Type 0 where
  pub to_int : Text → ℤ
  pub to_float : Text → ℤ
  pub round : ℤ → ℤ

pub data Effect : Type 0 where
  restarts_i2s updates_highpass applies_tx resets_agc : Effect
  logs : Text → Effect
  sets_cpu : ℕ → Effect
  protects : Bool → Effect
  limits : ℕ → Effect
  calls : Call → Effect

pub record Device : Type 0 where
  pub settings : Settings
  pub flash : Flash
  pub effects : List Effect

-- The keys of httpSet.
pub data Key : Type 0 where
  gain rate buffer wifi_tx auto_recovery thr_mode min_rate check_interval sched_reset : Key
  reset_hours cpu_freq hp_enable hp_cutoff agc_enable led_mode oh_enable oh_limit : Key
  wg_enable wg_priv wg_srvpub wg_endpoint wg_tunaddr wg_keepalive unknown : Key

unfoldable pub same_text : Text → Text → Bool
same_text [] [] = true
same_text [] (d ∷ t) = false
same_text (c ∷ s) [] = false
same_text (c ∷ s) (d ∷ t) = (c == d) && same_text s t

-- The names of the keys, in the order of the comparisons.
unfoldable pub names : List (Text × Key)
names =
    (text "gain", gain)
    ∷ (text "rate", rate)
    ∷ (text "buffer", buffer)
    ∷ (text "wifi_tx", wifi_tx)
    ∷ (text "auto_recovery", auto_recovery)
    ∷ (text "thr_mode", thr_mode)
    ∷ (text "min_rate", min_rate)
    ∷ (text "check_interval", check_interval)
    ∷ (text "sched_reset", sched_reset)
    ∷ (text "reset_hours", reset_hours)
    ∷ (text "cpu_freq", cpu_freq)
    ∷ (text "hp_enable", hp_enable)
    ∷ (text "hp_cutoff", hp_cutoff)
    ∷ (text "agc_enable", agc_enable)
    ∷ (text "led_mode", led_mode)
    ∷ (text "oh_enable", oh_enable)
    ∷ (text "oh_limit", oh_limit)
    ∷ (text "wg_enable", wg_enable)
    ∷ (text "wg_priv", wg_priv)
    ∷ (text "wg_srvpub", wg_srvpub)
    ∷ (text "wg_endpoint", wg_endpoint)
    ∷ (text "wg_tunaddr", wg_tunaddr)
    ∷ (text "wg_keepalive", wg_keepalive)
    ∷ []

unfoldable pub find_key : List (Text × Key) → Text → Key
find_key [] key = unknown
find_key ((name, k) ∷ rest) key = if same_text key name then k else find_key rest key

-- `(uint32_t) toInt()`, where `toInt` returns a long of 32 bits.
unfoldable pub to_u32 : ℤ → ℕ
to_u32 (pos n) = n % u32_mod
to_u32 (negsuc n) = u32_mod - 1 - n % u32_mod

-- `(uint16_t) toInt()`
unfoldable pub to_u16 : ℤ → ℕ
unfolding to_u32
to_u16 z = to_u32 z % u16_mod

-- `v >= low && v <= high`
abbrev pub within : ℕ → ℕ → ℕ → Bool
within low high v = leb low v && leb v high

-- `v == "on"`, or `none` if it is not "off" either.
unfoldable pub on_off : Text → Option Bool
unfolding same_text
on_off v =
    if same_text v (text "on")
    then some true
    else if same_text v (text "off")
    then some false
    else none

-- `lastIndexOf(c)`, with `none` for the result -1.
unfoldable pub last_index_of : ℕ → Text → Option ℕ
last_index_of c [] = none
last_index_of c (d ∷ s) = elim (last_index_of c s) [
  | some i ↦ some (suc i)
  | none ↦ if d == c then some 0 else none
]

-- The assignment, `saveAudioSettings()`, and the calls after it.
unfoldable pub commit : Device → Settings → List Effect → Device
unfolding save_settings
commit d s after = record { settings = s; flash = save_settings s; effects = d.effects ++ after }

unfoldable pub ask : Device → List Effect → Device
ask d effects = record d { effects = d.effects ++ effects }

-- `if (autoThresholdEnabled) { minAcceptableRate = computeRecommendedMinRate(); }`
unfoldable pub retune : Settings → Settings
unfolding recommended_min_rate
retune s =
    if s.auto_threshold
    then record s { min_rate = recommended_min_rate s.sample_rate s.buffer_size }
    else s
