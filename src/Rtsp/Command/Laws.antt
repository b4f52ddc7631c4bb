-- ===== src/Rtsp/Command/Laws.antt =====
-- The answers of the RTSP server, and a session from SETUP to TEARDOWN.
use birdnetgo_m5stack_atom_e.Prelude.{
  ℕ, suc, ◌+◌, ◌≡◌, refl, ap, ◌∙◌, Bool, true, false, some, [], ◌∷◌, ◌++◌, arith, length, take,
  drop, All,
}
use birdnetgo_m5stack_atom_e.Prelude.Text.{Text, text, index_of}
use birdnetgo_m5stack_atom_e.Stream.Control.{Link, hand_over, start_audio_task}
use birdnetgo_m5stack_atom_e.Rtsp.Command.{
  is_space, trim, trim_start, trim_end, index_of_text, cseq_at, line_value, cseq_of,
}

-- A character of a number or word.
abbrev pub IsVisible : ℕ → Type 0
IsVisible c = is_space c ≡ false

drop_past :
    (before : Text) (s : Text) → drop (length before + 6) (before ++ (text "CSeq: " ++ s)) ≡ s
drop_past [] s = refl
drop_past (c ∷ before) s =
    let shift : suc (length before) + 6 ≡ suc (length before + 6) = omega arith in
    rw shift (drop_past before s)

index_of_return :
    (n after : Text) → All IsVisible n → index_of 13 (n ++ 13 ∷ after) ≡ some (length n)
unfolding index_of
index_of_return [] after h = refl
index_of_return (c ∷ n) after h = ground (arith, index_of_return n after h.1)

take_past : (n s : Text) → take (length n) (n ++ s) ≡ n
take_past [] s = refl
take_past (c ∷ n) s = ap (◌∷◌ c) (take_past n s)

trim_start_visible : (n : Text) → All IsVisible n → trim_start n ≡ n
unfolding trim_start
trim_start_visible [] h = refl
trim_start_visible (c ∷ n) h = rw (h.0) refl

trim_end_visible : (n : Text) → All IsVisible n → trim_end n ≡ n
unfolding trim_end
trim_end_visible [] h = refl
trim_end_visible (c ∷ []) h = rw (h.0) refl
trim_end_visible (c ∷ d ∷ n) h = rw (trim_end_visible (d ∷ n) h.1) refl

trim_visible : (n : Text) → All IsVisible n → trim n ≡ n
unfolding trim
trim_visible n h = rw (trim_start_visible n h) (trim_end_visible n h)

-- The sequence number that an answer repeats is the one that stands behind the first "CSeq: " of the
-- request, up to the end of its line, where it holds no white space.
pub cseq_of_lem :
    (before n after : Text)
    → let request = before ++ (text "CSeq: " ++ (n ++ 13 ∷ after)) in
      index_of_text (text "CSeq: ") request ≡ some (length before)
      → All IsVisible n
      → cseq_of (before ++ (text "CSeq: " ++ (n ++ 13 ∷ after))) ≡ n
unfolding cseq_of cseq_at line_value
cseq_of_lem before n after first h =
    let request = before ++ (text "CSeq: " ++ (n ++ 13 ∷ after)) in
    ap (cseq_at request) first
    ∙ ap (λ (v : Text). line_value v (index_of 13 v)) (drop_past before (n ++ 13 ∷ after))
    ∙ ap (line_value (n ++ 13 ∷ after)) (index_of_return n after h)
    ∙ ap trim (take_past n (13 ∷ after))
    ∙ trim_visible n h

play-ready :
    (created : Bool) (l : Link)
    → ((hand_over created l).is_streaming ≡ true)
      × ((hand_over created l).stop_requested ≡ false)
      × ((hand_over created l).cleanup_done ≡ false)
unfolding hand_over start_audio_task
play-ready created l = ground arith
