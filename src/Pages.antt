-- ===== src/Pages.antt =====
-- The JSON pages of src/WebUI.cpp. A handler appends text after text to one String, which is `join`.
-- What the pages are compared with are the fields below: an object of named values in JSON.
pub mod Read
pub mod Fields
pub mod Status
pub mod Routes
use birdnetgo_m5stack_atom_e.Prelude.{ℕ, List, [], ◌∷◌, ◌++◌}
use birdnetgo_m5stack_atom_e.Prelude.Text.{Text}
use birdnetgo_m5stack_atom_e.Format.Json.{quote, json_escape}

unfoldable pub join : List Text → Text
join [] = []
join (t ∷ ts) = t ++ join ts

-- A number or a word, a text in quotes as it is, and a text in quotes that goes through jsonEscape.
pub data Value : Type 0 where
  raw quoted escaped : Text → Value

pub record Field : Type 0 where
  pub name : Text
  pub value : Value

unfoldable pub write_value : Value → Text
write_value (raw t) = t
write_value (quoted t) = quote ∷ (t ++ quote ∷ [])
write_value (escaped t) = quote ∷ (json_escape t ++ quote ∷ [])

unfoldable pub write_field : Field → Text
write_field f = quote ∷ (f.name ++ quote ∷ b':' ∷ write_value f.value)

unfoldable pub write_rest : List Field → Text
write_rest [] = b'}' ∷ []
write_rest (f ∷ fs) = b',' ∷ (write_field f ++ write_rest fs)

unfoldable pub write_page : Field → List Field → Text
write_page f fs = b'{' ∷ (write_field f ++ write_rest fs)
