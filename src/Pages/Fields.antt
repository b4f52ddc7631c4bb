-- ===== src/Pages/Fields.antt =====
-- The fields of a JSON page (src/WebUI.cpp), one behind the other.
use mathlib.Core.List.{append_assoc}
use birdnetgo_m5stack_atom_e.Prelude.{◌≡◌, refl, ap, ◌∙◌, some, List, [], ◌∷◌, ◌++◌, map, All}
use birdnetgo_m5stack_atom_e.Prelude.Text.{Text}
use birdnetgo_m5stack_atom_e.Format.Json.{quote, json_escape}
use birdnetgo_m5stack_atom_e.Pages.{
  Value, raw, quoted, escaped, Field, write_value, write_field, write_rest, write_page,
}
use birdnetgo_m5stack_atom_e.Pages.Read.{IsField, entry, read_object, read_object-write_page}

pub record AreFields (fs : List Field) : Type 0 where
  pub all : All IsField fs

pub no_more : AreFields []
no_more = record { all = tt }

infixr 20 ◌&◌
pub ◌&◌ : {f : Field} {fs : List Field} → IsField f → AreFields fs → AreFields (f ∷ fs)
h & hs = record { all = (h, hs.all) }

-- A value and what comes behind it.
abbrev pub onto : Value → Text → Text
onto (raw t) rest = t ++ rest
onto (quoted t) rest = quote ∷ (t ++ quote ∷ rest)
onto (escaped t) rest = quote ∷ (json_escape t ++ quote ∷ rest)

abbrev pub fields_text : List Field → Text
fields_text [] = b'}' ∷ []
fields_text (f ∷ fs) = b',' ∷ quote ∷ (f.name ++ quote ∷ b':' ∷ onto f.value (fields_text fs))

-- The text of a page, every value followed by the rest.
abbrev pub fields_page : Field → List Field → Text
fields_page f fs = b'{' ∷ quote ∷ (f.name ++ quote ∷ b':' ∷ onto f.value (fields_text fs))

onto-write : (v : Value) (rest : Text) → onto v rest ≡ write_value v ++ rest
unfolding write_value
onto-write (raw t) rest = refl
onto-write (quoted t) rest = simp append_assoc
onto-write (escaped t) rest = simp append_assoc

field-write :
    (f : Field) (rest : Text)
    → quote ∷ (f.name ++ quote ∷ b':' ∷ onto f.value rest) ≡ write_field f ++ rest
unfolding write_field
field-write f rest = simp (append_assoc, onto-write f.value rest)

fields_text-write : (fs : List Field) → fields_text fs ≡ write_rest fs
unfolding write_rest
fields_text-write [] = refl
fields_text-write (f ∷ fs) =
    ap (λ t. b',' ∷ t)
      (field-write f (fields_text fs) ∙ ap (λ t. write_field f ++ t) (fields_text-write fs))

fields_page-write : (f : Field) (fs : List Field) → fields_page f fs ≡ write_page f fs
unfolding write_page
fields_page-write f fs =
    ap (λ t. b'{' ∷ t)
      (field-write f (fields_text fs) ∙ ap (λ t. write_field f ++ t) (fields_text-write fs))

pub page_reads :
    {f : Field} {fs : List Field}
    → IsField f
    → AreFields fs
    → read_object (fields_page f fs) ≡ some (entry f ∷ map entry fs)
page_reads {f} {fs} h hs =
    ap read_object (fields_page-write f fs) ∙ read_object-write_page f fs h hs.all
