-- ===== src/Pages/Read.antt =====
-- A reader of JSON objects, written from RFC 8259, and what it reads of the pages of src/WebUI.cpp.
use mathlib.Core.List.{append_assoc}
use birdnetgo_m5stack_atom_e.Prelude.{
  ℕ, zero, suc, ◌≤◌, ◌<◌, ◌≡◌, refl, sym, ap, ◌∙◌, inl, Bool, true, false, ◌||◌, Option, none, some,
  List, [], ◌∷◌, ◌++◌, arith, map, ◌==◌, if◌then◌else◌, All, length, length-append,
}
use birdnetgo_m5stack_atom_e.Prelude.Text.{Text}
use birdnetgo_m5stack_atom_e.Format.Json.{
  quote, backslash, escape_char, json_escape, read_string, IsPlain, read_string-json_escape,
}
use birdnetgo_m5stack_atom_e.Pages.{
  Value, raw, quoted, escaped, Field, write_value, write_field, write_rest, write_page,
}

-- A number or word, and a string.
pub data Json : Type 0 where
  token string : Text → Json

abbrev ends : ℕ → Bool
ends c = c == b',' || c == b'}'

-- Up to a comma or the closing brace.
read_token : Text → Text × Text
read_token [] = ([], [])
read_token (c ∷ s) = let (t, rest) = read_token s in if ends c then ([], c ∷ s) else (c ∷ t, rest)

as_string : Option (Text × Text) → Option (Json × Text)
as_string none = none
as_string (some (t, rest)) = some (string t, rest)

read_value : Text → Option (Json × Text)
read_value [] = none
read_value (c ∷ s) =
    if c == quote
    then as_string (read_string false s)
    else some (token (read_token (c ∷ s)).0, (read_token (c ∷ s)).1)

named : Text → Option (Json × Text) → Option ((Text × Json) × Text)
named name none = none
named name (some (v, rest)) = some ((name, v), rest)

read_colon : Option (Text × Text) → Option ((Text × Json) × Text)
read_colon none = none
read_colon (some (name, [])) = none
read_colon (some (name, c ∷ s)) = if c == b':' then named name (read_value s) else none

read_field : Text → Option ((Text × Json) × Text)
read_field [] = none
read_field (c ∷ s) = if c == quote then read_colon (read_string false s) else none

abbrev push : Text × Json → Option (List (Text × Json)) → Option (List (Text × Json))
push f none = none
push f (some fs) = some (f ∷ fs)

-- Behind a field, with fuel for the fields that follow.
read_more : ℕ → Text → Option (List (Text × Json))
read_more zero s = none
read_more (suc n) [] = none
read_more (suc n) (c ∷ s) =
    let next : Option (List (Text × Json)) = elim (read_field s) [
      | none ↦ none
      | some (f, rest) ↦ push f (read_more n rest)
    ] in
    if c == b'}' then (elim s [ [] ↦ some [] | d ∷ t ↦ none ]) else if c == b',' then next else none

-- A whole text.
pub read_object : Text → Option (List (Text × Json))
read_object [] = none
read_object (c ∷ s) =
    let fields : Option (List (Text × Json)) = elim (read_field s) [
      | none ↦ none
      | some (f, rest) ↦ push f (read_more (length rest) rest)
    ] in
    if c == b'{' then fields else none

-- A character of a number or a word, and one that a string may hold as it is.
pub record IsTokenChar (c : ℕ) : Type 0 where
  pub inside : ends c ≡ false
  pub unquoted : (c == quote) ≡ false

pub record IsBare (c : ℕ) : Type 0 where
  pub printable : 32 ≤ c
  pub unquoted : (c == quote) ≡ false
  pub unescaped : (c == backslash) ≡ false

abbrev pub Writes : Value → Type 0
Writes (raw t) = All IsTokenChar t
Writes (quoted t) = All IsBare t
Writes (escaped t) = All IsPlain t

pub record IsField (f : Field) : Type 0 where
  pub name_bare : All IsBare f.name
  pub value_ok : Writes f.value

abbrev pub read_back : Value → Json
read_back (raw t) = token t
read_back (quoted t) = string t
read_back (escaped t) = string t

abbrev pub entry : Field → Text × Json
entry f = (f.name, read_back f.value)

bare-IsPlain : (t : Text) → All IsBare t → All IsPlain t
bare-IsPlain [] h = tt
bare-IsPlain (c ∷ t) h = (inl h.0.printable, bare-IsPlain t h.1)

escape_char_bare : (c : ℕ) → IsBare c → escape_char c ≡ c ∷ []
unfolding escape_char
escape_char_bare c h = ground (arith, h.printable)

json_escape_bare : (t : Text) → All IsBare t → json_escape t ≡ t
unfolding json_escape
json_escape_bare [] h = refl
json_escape_bare (c ∷ t) h = rw (escape_char_bare c h.0, json_escape_bare t h.1) refl

read_string_bare :
    (t rest : Text) → All IsBare t → read_string false (t ++ quote ∷ rest) ≡ some (t, rest)
read_string_bare t rest h =
    ap (λ s. read_string false (s ++ quote ∷ rest)) (sym (json_escape_bare t h))
    ∙ read_string-json_escape t rest (bare-IsPlain t h)

read_token-raw :
    (t rest : Text) (c : ℕ)
    → All IsTokenChar t
    → ends c ≡ true
    → read_token (t ++ c ∷ rest) ≡ (t, c ∷ rest)
unfolding read_token
read_token-raw [] rest c h e = rw e refl
read_token-raw (d ∷ t) rest c h e = rw (h.0.inside, read_token-raw t rest c h.1 e) refl

ends-unquoted : (c : ℕ) → ends c ≡ true → (c == quote) ≡ false
ends-unquoted c e = ground arith

read_value-write :
    (v : Value) (rest : Text) (c : ℕ)
    → Writes v
    → ends c ≡ true
    → read_value (write_value v ++ c ∷ rest) ≡ some (read_back v, c ∷ rest)
unfolding read_value write_value as_string
read_value-write (raw []) rest c h e = rw (ends-unquoted c e, read_token-raw [] rest c tt e) refl
read_value-write (raw (d ∷ t)) rest c h e =
    rw (h.0.unquoted, read_token-raw (d ∷ t) rest c h e) refl
read_value-write (quoted t) rest c h e =
    rw (append_assoc t (quote ∷ []) (c ∷ rest), read_string_bare t (c ∷ rest) h) refl
read_value-write (escaped t) rest c h e =
    rw
      (append_assoc (json_escape t) (quote ∷ []) (c ∷ rest), read_string-json_escape t (c ∷ rest) h)
      refl

read_field-write :
    (f : Field) (rest : Text) (c : ℕ)
    → IsField f
    → ends c ≡ true
    → read_field (write_field f ++ c ∷ rest) ≡ some (entry f, c ∷ rest)
unfolding read_field write_field read_colon named
read_field-write f rest c h e =
    rw
      (
        append_assoc f.name (quote ∷ b':' ∷ write_value f.value) (c ∷ rest),
        read_string_bare f.name (b':' ∷ (write_value f.value ++ c ∷ rest)) h.name_bare,
        read_value-write f.value rest c h.value_ok e,
      )
      refl

read_more-write :
    (fs : List Field) (n : ℕ)
    → All IsField fs
    → length fs < n
    → read_more n (write_rest fs) ≡ some (map entry fs)
unfolding read_more write_rest
read_more-write [] zero h e = absurd (omega arith)
read_more-write [] (suc n) h e = refl
read_more-write (f ∷ fs) zero h e = absurd (omega arith)
read_more-write (f ∷ []) (suc n) h e =
    rw (read_field-write f [] b'}' h.0 refl, read_more-write [] n tt (omega arith)) refl
read_more-write (f ∷ g ∷ fs) (suc n) h e =
    rw
      (
        read_field-write f (write_field g ++ write_rest fs) b',' h.0 refl,
        read_more-write (g ∷ fs) n h.1 (omega arith),
      )
      refl

length-write_rest : (fs : List Field) → length fs < length (write_rest fs)
unfolding write_rest
length-write_rest [] = omega arith
length-write_rest (f ∷ fs) =
    omega (arith, length-write_rest fs, length-append (write_field f) (write_rest fs))

write_rest-ends :
    (fs : List Field) → (c : ℕ) × (rest : Text) × (write_rest fs ≡ c ∷ rest) × (ends c ≡ true)
unfolding write_rest
write_rest-ends [] = (_, _, refl, refl)
write_rest-ends (f ∷ fs) = (_, _, refl, refl)

-- A page whose names and texts in quotes hold no quote, backslash or control character, whose numbers
-- and words hold no comma, brace or quote, and whose escaped texts hold no control character but the
-- newline, is read back as the list of its names and values, in order and whole.
pub read_object-write_page :
    (f : Field) (fs : List Field)
    → IsField f
    → All IsField fs
    → read_object (write_page f fs) ≡ some (entry f ∷ map entry fs)
unfolding read_object write_page
read_object-write_page f fs h hs =
    let (c, rest, e, ended) = write_rest-ends fs in
    let first : read_field (write_field f ++ write_rest fs) ≡ some (entry f, write_rest fs) =
      rw (e, read_field-write f rest c h ended) refl in
    rw (first, read_more-write fs (length (write_rest fs)) hs (length-write_rest fs)) refl
