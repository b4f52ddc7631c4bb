-- ===== src/Settings/Tests.antt =====
-- The laws of the settings at concrete requests.
use birdnetgo_m5stack_atom_e.Prelude.{◌-◌, refl, some, [], ◌∷◌}
use birdnetgo_m5stack_atom_e.Prelude.Int.{pos}
use birdnetgo_m5stack_atom_e.Prelude.Text.{text}
use birdnetgo_m5stack_atom_e.Settings.{default_settings, save_settings}
use birdnetgo_m5stack_atom_e.Settings.Stored.{default_settings-IsSettings}
use birdnetgo_m5stack_atom_e.Settings.Interface.{Arduino, Device}
use birdnetgo_m5stack_atom_e.Settings.Interface.Keys.{http_set}
use birdnetgo_m5stack_atom_e.Settings.Interface.Laws.{IsDevice, http_set-IsDevice}

abbrev arduino : Arduino
arduino = record {
  to_int = λ s. elim s [ [] ↦ pos 0 | d ∷ rest ↦ pos (d - 48) ];
  to_float = λ s. pos 0;
  round = λ z. z;
}

abbrev fresh : Device
fresh = record { settings = default_settings; flash = save_settings default_settings; effects = [] }

fresh-IsDevice : IsDevice fresh
fresh-IsDevice = record { in_range = default_settings-IsSettings; stored = refl }

http_set-IsDevice_example : IsDevice (http_set arduino fresh (text "led_mode") (some (text "2")))
http_set-IsDevice_example =
    http_set-IsDevice arduino fresh (text "led_mode") (some (text "2")) fresh-IsDevice
