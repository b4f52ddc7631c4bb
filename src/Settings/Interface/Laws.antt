-- ===== src/Settings/Interface/Laws.antt =====
-- What a request does to the settings and the flash, and what it logs (src/WebUI.cpp, httpSet).
use birdnetgo_m5stack_atom_e.Prelude.{ℕ, ◌≡◌, refl, Option, some, [], ◌∷◌, ◌++◌}
use birdnetgo_m5stack_atom_e.Prelude.Text.{Text, text}
use birdnetgo_m5stack_atom_e.WireGuard.Calls.{sets_private_key}
use birdnetgo_m5stack_atom_e.Settings.{save_settings, load_settings}
use birdnetgo_m5stack_atom_e.Settings.Stored.{reloaded, load-save_settings}
use birdnetgo_m5stack_atom_e.Settings.Interface.{
  Arduino, logs, calls, Device, ask, names, find_key, same_text,
}
use birdnetgo_m5stack_atom_e.Settings.Interface.Kept.{Holds, http_set-Holds}
use birdnetgo_m5stack_atom_e.Settings.Interface.Keys.{pick, set_value, log_line, http_set}

-- The flash is what a save of the settings leaves.
abbrev pub IsDevice : Device → Type 0
IsDevice = Holds (λ s f. f ≡ save_settings s)

-- The next start-up loads what a start-up behind a save would.
abbrev pub IsReloadable : Device → Type 0
IsReloadable = Holds (λ s f. load_settings f ≡ reloaded s)

-- From settings in their ranges and a flash that holds them, every request, whatever its key and
-- value, ends in settings in their ranges and a flash that holds them.
pub http_set-IsDevice :
    (a : Arduino) (d : Device) (key : Text) (value : Option Text)
    → IsDevice d
    → IsDevice (http_set a d key value)
http_set-IsDevice = http_set-Holds (λ s f. f ≡ save_settings s) (λ s v. refl)

pub http_set-IsReloadable :
    (a : Arduino) (d : Device) (key : Text) (value : Option Text)
    → IsReloadable d
    → IsReloadable (http_set a d key value)
http_set-IsReloadable = http_set-Holds (λ s f. load_settings f ≡ reloaded s) load-save_settings

-- A request for a private key hands the key to the manager, changes no audio setting, and logs a
-- line of asterisks, the same for every key.
pub http_set-private_key :
    (a : Arduino) (d : Device) (c : ℕ) (v : Text)
    → http_set a d (text "wg_priv") (some (c ∷ v)) ≡ record d {
      effects =
          (d.effects ++ logs (text "UI set: wg_priv=********") ∷ [])
          ++ calls (sets_private_key (c ∷ v)) ∷ [];
    }
unfolding http_set set_value log_line find_key names same_text ask pick
http_set-private_key a d c v = refl
