-- ===== src/Format/Json.antt =====
-- jsonEscape (src/WebUI.cpp), and a reader of JSON strings written from RFC 8259.
use mathlib.Core.List.{append_assoc}
use birdnetgo_m5stack_atom_e.Prelude.{
  ℕ, ◌≤◌, ◌≡◌, refl, ◌⊎◌, inl, inr, Bool, true, false, Bool-cases, ◌||◌, Option, none, some, [],
  ◌∷◌, ◌++◌, arith, ltb, ◌==◌, ==_iff, if◌then◌else◌, All,
}
use birdnetgo_m5stack_atom_e.Prelude.Text.{Text}

abbrev pub quote : ℕ
quote = 0x22

abbrev pub backslash : ℕ
backslash = 0x5c

abbrev pub newline : ℕ
newline = 0x0a

unfoldable pub escape_char : ℕ → Text
escape_char c =
    if c == quote || c == backslash
    then backslash ∷ c ∷ []
    else if c == newline
    then backslash ∷ b'n' ∷ []
    else c ∷ []

unfoldable pub json_escape : Text → Text
unfolding escape_char
json_escape [] = []
json_escape (c ∷ s) = escape_char c ++ json_escape s

-- What the character behind a backslash stands for (the escapes that the page can meet).
abbrev unescaped : ℕ → Option ℕ
unescaped c =
    if c == quote
    then some quote
    else if c == backslash
    then some backslash
    else if c == b'n'
    then some newline
    else none

abbrev prepend : ℕ → Option (Text × Text) → Option (Text × Text)
prepend c none = none
prepend c (some (s, rest)) = some (c ∷ s, rest)

-- Reads behind the opening quote: the text up to the closing quote, and what follows it. A control
-- character is not allowed in a string. The flag tells that a backslash has just been read.
unfoldable pub read_string : Bool → Text → Option (Text × Text)
read_string escaped [] = none
read_string true (c ∷ s) = elim (unescaped c) [
  | none ↦ none
  | some d ↦ prepend d (read_string false s)
]
read_string false (c ∷ s) =
    let rest = read_string false s in
    let next = read_string true s in
    if c == quote
    then some ([], s)
    else if c == backslash
    then next
    else if ltb c 32
    then none
    else prepend c rest

-- No control character but the newline.
abbrev pub IsPlain : ℕ → Type 0
IsPlain c = (32 ≤ c) ⊎ (c ≡ newline)

read_string-escape_char :
    (c : ℕ) (s : Text)
    → IsPlain c
    → read_string false (escape_char c ++ s) ≡ prepend c (read_string false s)
unfolding read_string escape_char
read_string-escape_char c s plain = elim (Bool-cases (c == quote)) [
  | inl q ↦ let e : c ≡ quote = (==_iff c quote).0 q in rw e
  | inr not_quote ↦ elim (Bool-cases (c == backslash)) [
    | inl b ↦ let e : c ≡ backslash = (==_iff c backslash).0 b in rw e
    | inr not_backslash ↦ elim (Bool-cases (c == newline)) [
      | inl n ↦ let e : c ≡ newline = (==_iff c newline).0 n in rw e
      | inr not_newline ↦
          let printable : ltb c 32 ≡ false = ground arith in
          rw (not_quote, not_backslash, not_newline)
            (rw (read_string, not_quote, not_backslash, printable))
    ]
  ]
]

-- A reader of the page's JSON gets back the escaped text, whole, and stops at the quote that the
-- page puts behind it, for a text without control characters other than the newline.
pub read_string-json_escape :
    (s rest : Text)
    → All IsPlain s
    → read_string false (json_escape s ++ quote ∷ rest) ≡ some (s, rest)
unfolding json_escape
read_string-json_escape [] rest h = unfold read_string in refl
read_string-json_escape (c ∷ s) rest h = rw (
  append_assoc (escape_char c) (json_escape s) (quote ∷ rest),
  read_string-escape_char c (json_escape s ++ quote ∷ rest) h.0,
  read_string-json_escape s rest h.1,
)
