-- ===== src/Format/Tests.antt =====
-- Runs of the formatters, and their theorems at concrete texts.
use birdnetgo_m5stack_atom_e.Prelude.{ℕ, ◌+◌, ◌≡◌, refl, [], ◌∷◌}
use birdnetgo_m5stack_atom_e.Prelude.Text.{Text, text}
use birdnetgo_m5stack_atom_e.Format.Uptime.{format_uptime}
use birdnetgo_m5stack_atom_e.Format.Json.{quote, backslash, newline}

-- A printer for digits only.
abbrev digit : ℕ → Text
digit n = (n + 48) ∷ []

one_day : format_uptime digit 86405 ≡ text "1d 0h 0m 5s"
unfolding format_uptime
one_day = refl

abbrev awkward : Text
awkward = b'a' ∷ quote ∷ backslash ∷ newline ∷ []
