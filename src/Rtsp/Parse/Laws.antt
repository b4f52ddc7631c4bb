-- ===== src/Rtsp/Parse/Laws.antt =====
-- The parse buffer and the bytes that pass it (src/esp32_rtsp_mic_birdnetgo.ino, processRTSP).
use birdnetgo_m5stack_atom_e.Prelude.{
  ℕ, suc, ◌+◌, ◌-◌, ◌<◌, ◌≤◌, ◌≡◌, ◌⊎◌, inl, inr, refl, ap, sym, subst, ◌∙◌, Bool, true, false,
  Option, none, some, [], ◌∷◌, ◌++◌, arith, length, take, drop, take-append-drop, length-append,
  length-take, length-drop, min, ◌==◌,
}
use birdnetgo_m5stack_atom_e.Prelude.Text.{Text}
use mathlib.Core.List.{append_assoc}
use birdnetgo_m5stack_atom_e.Rtsp.Parse.{
  parse_buffer_size, at_blank_line, find_blank_line, found_at, Parsed, cut_request, process_rtsp,
}

abbrev pub blank_line : Text
blank_line = 13 ∷ 10 ∷ 13 ∷ 10 ∷ []

at_blank_line-cut : (s : Text) → at_blank_line s ≡ true → blank_line ++ drop 4 s ≡ s
at_blank_line-cut [] e = ground arith
at_blank_line-cut (a ∷ []) e = ground arith
at_blank_line-cut (a ∷ b ∷ []) e = ground arith
at_blank_line-cut (a ∷ b ∷ c ∷ []) e = ground arith
at_blank_line-cut (a ∷ b ∷ c ∷ d ∷ s) e = ground arith

found_at-some :
    (here ended : Bool) (later : Option ℕ) (i : ℕ)
    → found_at here ended later ≡ some i
    → ((here ≡ true) × (i ≡ 0)) ⊎ ((j : ℕ) × (later ≡ some j) × (i ≡ suc j))
unfolding found_at
found_at-some true ended later i e = inl (refl, ground arith)
found_at-some false true later i e = ground arith
found_at-some false false none i e = ground arith
found_at-some false false (some j) i e = inr (j, refl, ground arith)

-- A search that succeeds cuts the text at a blank line.
pub find_blank_line-cut :
    (s : Text) (i : ℕ) → find_blank_line s ≡ some i → take i s ++ (blank_line ++ drop (i + 4) s) ≡ s
unfolding find_blank_line
find_blank_line-cut [] i e = ground arith
find_blank_line-cut (c ∷ s) i e =
    elim (found_at-some (at_blank_line (c ∷ s)) (c == 0) (find_blank_line s) i e) [
      | inl (at, zero_at) ↦ rw zero_at (at_blank_line-cut (c ∷ s) at)
      | inr (j, found, next) ↦
          let shift : suc j + 4 ≡ suc (j + 4) = omega arith in
          rw (next, shift) (ap (◌∷◌ c) (find_blank_line-cut s j found))
    ]

cut_request-shorter :
    (buffer pending : Text) (o : Option ℕ)
    → length (cut_request buffer pending o).buffer ≤ length buffer
unfolding cut_request
cut_request-shorter buffer pending none = omega arith
cut_request-shorter buffer pending (some end) = omega (arith, length-drop (end + 4) buffer)

pub filled-fits :
    (buffer pending : Text)
    → length buffer < parse_buffer_size
    → length (buffer ++ take (min (length pending) (parse_buffer_size - length buffer - 1)) pending)
      < parse_buffer_size
filled-fits buffer pending h =
    let n = min (length pending) (parse_buffer_size - length buffer - 1) in
    omega (arith, length-append buffer (take n pending), length-take n pending)

-- The buffer, which has room for 1023 bytes and the final zero, is never filled further.
pub process_rtsp-fits :
    (connected : Bool) (buffer pending : Text)
    → length buffer < parse_buffer_size
    → length (process_rtsp connected buffer pending).buffer < parse_buffer_size
unfolding process_rtsp
process_rtsp-fits connected buffer pending h =
    let n = min (length pending) (parse_buffer_size - length buffer - 1) in
    let filled = buffer ++ take n pending in
    ground (
      arith,
      filled-fits buffer pending h,
      cut_request-shorter filled (drop n pending) (find_blank_line filled),
    )

-- The bytes that are not handled yet.
abbrev pub waiting : Parsed → Text
waiting p = p.buffer ++ p.pending

-- The request, the blank line behind it and what is left are the bytes that were there.
abbrev pub Accounted : Parsed → Text → Type 0
Accounted p bytes = elim p.request [
  | none ↦ waiting p ≡ bytes
  | some request ↦ request ++ (blank_line ++ waiting p) ≡ bytes
]

cut_request-Accounted :
    (buffer pending : Text)
    → Accounted (cut_request buffer pending (find_blank_line buffer)) (buffer ++ pending)
unfolding cut_request
cut_request-Accounted buffer pending = at (find_blank_line buffer) refl
  where
    at :
        (o : Option ℕ)
        → find_blank_line buffer ≡ o
        → Accounted (cut_request buffer pending o) (buffer ++ pending)
    at none e = refl
    at (some i) e =
        sym (append_assoc (take i buffer) (blank_line ++ drop (i + 4) buffer) pending)
        ∙ ap (λ (x : Text). x ++ pending) (find_blank_line-cut buffer i e)

-- While the buffer has room, a call loses and invents no byte: a request that it hands on, the blank
-- line behind it and the bytes still waiting are, in order, the bytes that were waiting.
pub process_rtsp-Accounted :
    (connected : Bool) (buffer pending : Text)
    → length buffer + 1 < parse_buffer_size
    → Accounted (process_rtsp connected buffer pending) (buffer ++ pending)
unfolding process_rtsp
process_rtsp-Accounted connected buffer pending h =
    let n = min (length pending) (parse_buffer_size - length buffer - 1) in
    let filled = buffer ++ take n pending in
    let same : filled ++ drop n pending ≡ buffer ++ pending =
      append_assoc buffer (take n pending) (drop n pending)
      ∙ ap (λ (x : Text). buffer ++ x) (take-append-drop n pending) in
    let read = cut_request filled (drop n pending) (find_blank_line filled) in
    let cut = subst (Accounted read) same (cut_request-Accounted filled (drop n pending)) in
    ground (arith, cut)
