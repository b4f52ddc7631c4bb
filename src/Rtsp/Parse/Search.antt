-- ===== src/Rtsp/Parse/Search.antt =====
-- Where the search of processRTSP (src/esp32_rtsp_mic_birdnetgo.ino) for a blank line ends.
use birdnetgo_m5stack_atom_e.Prelude.{
  ℕ, suc, ◌+◌, ◌≤◌, ◌≡◌, ◌⊎◌, inl, inr, refl, Bool, true, false, Option, none, some, [], ◌∷◌, ◌++◌,
  arith, length, ◌==◌,
}
use birdnetgo_m5stack_atom_e.Prelude.Text.{Text}
use birdnetgo_m5stack_atom_e.Rtsp.Parse.{at_blank_line, find_blank_line, found_at}

found_at-inv :
    (here ended : Bool) (later : Option ℕ) (i : ℕ)
    → found_at here ended later ≡ some i
    → ((here ≡ true) × (i ≡ 0))
      ⊎ ((j : ℕ) × (here ≡ false) × (ended ≡ false) × (later ≡ some j) × (i ≡ suc j))
unfolding found_at
found_at-inv true ended later i e = inl (refl, ground arith)
found_at-inv false true later i e = ground arith
found_at-inv false false none i e = ground arith
found_at-inv false false (some j) i e = inr (j, refl, refl, refl, ground arith)

at_blank_line-append : (s t : Text) → 4 ≤ length s → at_blank_line (s ++ t) ≡ at_blank_line s
at_blank_line-append [] t h = absurd (omega arith)
at_blank_line-append (a ∷ []) t h = absurd (omega arith)
at_blank_line-append (a ∷ b ∷ []) t h = absurd (omega arith)
at_blank_line-append (a ∷ b ∷ c ∷ []) t h = absurd (omega arith)
at_blank_line-append (a ∷ b ∷ c ∷ d ∷ s) t h = refl

at_blank_line-long : (s : Text) → at_blank_line s ≡ true → 4 ≤ length s
at_blank_line-long [] e = ground arith
at_blank_line-long (a ∷ []) e = ground arith
at_blank_line-long (a ∷ b ∷ []) e = ground arith
at_blank_line-long (a ∷ b ∷ c ∷ []) e = ground arith
at_blank_line-long (a ∷ b ∷ c ∷ d ∷ s) e = omega arith

pub find_blank_line-le-length : (s : Text) (i : ℕ) → find_blank_line s ≡ some i → i + 4 ≤ length s
unfolding find_blank_line
find_blank_line-le-length [] i e = ground arith
find_blank_line-le-length (c ∷ s) i e =
    elim (found_at-inv (at_blank_line (c ∷ s)) (c == 0) (find_blank_line s) i e) [
      | inl (at, zero_at) ↦ omega (arith, at_blank_line-long (c ∷ s) at)
      | inr (j, off, goes_on, found, next) ↦ omega (arith, find_blank_line-le-length s j found)
    ]

-- What follows behind a blank line does not change where the search finds it, in either direction.
pub find_blank_line-extend :
    (s t : Text) (i : ℕ) → find_blank_line s ≡ some i → find_blank_line (s ++ t) ≡ some i
unfolding find_blank_line found_at
find_blank_line-extend [] t i e = ground arith
find_blank_line-extend (c ∷ s) t i e =
    let long = find_blank_line-le-length (c ∷ s) i e in
    let same = at_blank_line-append (c ∷ s) t (omega arith) in
    elim (found_at-inv (at_blank_line (c ∷ s)) (c == 0) (find_blank_line s) i e) [
      | inl (at, zero_at) ↦ rw (same, at, zero_at, found_at) refl
      | inr (j, off, goes_on, found, next) ↦
          rw (same, off, goes_on, find_blank_line-extend s t j found, next, found_at) refl
    ]

pub find_blank_line-shorten :
    (s t : Text) (i : ℕ)
    → i + 4 ≤ length s
    → find_blank_line (s ++ t) ≡ some i
    → find_blank_line s ≡ some i
unfolding find_blank_line found_at
find_blank_line-shorten [] t i h e = absurd (omega arith)
find_blank_line-shorten (c ∷ s) t i h e =
    let same = at_blank_line-append (c ∷ s) t (omega arith) in
    elim (found_at-inv (at_blank_line (c ∷ (s ++ t))) (c == 0) (find_blank_line (s ++ t)) i e) [
      | inl (at, zero_at) ↦ rw (← same, at, zero_at, found_at) refl
      | inr (j, off, goes_on, found, next) ↦
          rw
            (
              ← same,
              off,
              goes_on,
              find_blank_line-shorten s t j (omega arith) found,
              next,
              found_at,
            )
            refl
    ]
