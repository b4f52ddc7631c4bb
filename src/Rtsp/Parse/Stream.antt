-- ===== src/Rtsp/Parse/Stream.antt =====
-- A client's whole byte stream through processRTSP (src/esp32_rtsp_mic_birdnetgo.ino), in any split
-- into the pieces that have arrived before each call.
use birdnetgo_m5stack_atom_e.Prelude.{
  ℕ, ◌+◌, ◌-◌, ◌<◌, ◌≡◌, inl, inr, refl, ap, sym, subst, ◌∙◌, true, Option, none, some, List, [],
  ◌∷◌, ◌++◌, arith, length, take, drop, take-append-drop, length-append, length-take, length-drop,
  min, All, Bool-cases, leb, leb→le, ltb, concat,
}
use birdnetgo_m5stack_atom_e.Prelude.Text.{Text}
use mathlib.Core.List.{append_assoc}
use birdnetgo_m5stack_atom_e.Rtsp.Parse.{
  parse_buffer_size, find_blank_line, Parsed, cut_request, process_rtsp,
}
use birdnetgo_m5stack_atom_e.Rtsp.Parse.Search.{
  find_blank_line-le-length, find_blank_line-extend, find_blank_line-shorten,
}
use birdnetgo_m5stack_atom_e.Rtsp.Parse.Laws.{blank_line, find_blank_line-cut, filled-fits}

-- One call for each piece; the requests that the calls hand on, and the bytes left behind the last.
unfoldable pub feed : Text → Text → List Text → List Text × Text
feed buffer pending [] = ([], buffer ++ pending)
feed buffer pending (piece ∷ pieces) =
    let p = process_rtsp true buffer (pending ++ piece) in
    let rest = feed p.buffer p.pending pieces in
    (elim p.request [ none ↦ rest.0 | some request ↦ request ∷ rest.0 ], rest.1)

-- The stream of a client that sends these requests.
abbrev pub stream_of : List Text → Text
stream_of [] = []
stream_of (r ∷ rs) = r ++ (blank_line ++ stream_of rs)

-- No blank line before the one that ends it, no byte 0, and room for it in the buffer.
pub record IsRequest (r : Text) : Type 0 where
  pub ends : find_blank_line (r ++ blank_line) ≡ some (length r)
  pub fits : length r + 4 < parse_buffer_size

length-blank : (r : Text) → length (r ++ blank_line) ≡ length r + 4
length-blank r = length-append r blank_line

append-split : (a b x y : Text) → a ++ x ≡ b ++ y → length a ≡ length b → (a ≡ b) × (x ≡ y)
append-split [] [] x y e h = (refl, e)
append-split [] (c ∷ b) x y e h = absurd (omega (arith, h))
append-split (c ∷ a) [] x y e h = absurd (omega (arith, h))
append-split (c ∷ a) (d ∷ b) x y e h =
    let split = append-split a b x y (ap (drop 1) e) (omega (arith, h)) in
    (ground (arith, e, split.0), split.1)

-- The first blank line of a stream is the one behind its first request.
pub find_blank_line-stream_of :
    (r : Text) (rs : List Text)
    → IsRequest r
    → find_blank_line (stream_of (r ∷ rs)) ≡ some (length r)
find_blank_line-stream_of r rs v =
    rw (← append_assoc r blank_line (stream_of rs))
      (find_blank_line-extend (r ++ blank_line) (stream_of rs) (length r) v.ends)

-- What a call has done to a stream of requests: handed on nothing or the first request, with all the
-- rest waiting or still to come.
abbrev pub Advanced : Option Text → Text → List Text → Type 0
Advanced none left rs = left ≡ stream_of rs
Advanced (some r) left rs = (later : List Text) × (rs ≡ r ∷ later) × (left ≡ stream_of later)

pub record IsStep (p : Parsed) (more : Text) (rs : List Text) : Type 0 where
  pub advanced : Advanced p.request (p.buffer ++ (p.pending ++ more)) rs
  pub has_room : length p.buffer + 1 < parse_buffer_size

pub first_request :
    (filled behind r : Text) (rs : List Text) (i : ℕ)
    → filled ++ behind ≡ stream_of (r ∷ rs)
    → IsRequest r
    → find_blank_line filled ≡ some i
    → (take i filled ≡ r) × (drop (i + 4) filled ++ behind ≡ stream_of rs)
first_request filled behind r rs i e v found =
    let whole = find_blank_line-extend filled behind i found in
    let here : i ≡ length r =
      ground (arith, ap find_blank_line e, whole, find_blank_line-stream_of r rs v) in
    let long = find_blank_line-le-length filled i found in
    let same : take i filled ++ (blank_line ++ (drop (i + 4) filled ++ behind))
        ≡ stream_of (r ∷ rs) =
      sym (append_assoc (take i filled) (blank_line ++ drop (i + 4) filled) behind)
      ∙ ap (λ (x : Text). x ++ behind) (find_blank_line-cut filled i found)
      ∙ e in
    let split =
      append-split (take i filled) r _ _ same (omega (arith, here, length-take i filled)) in
    (split.0, ap (drop 4) split.1)

-- While no request is complete, the buffer has room for the rest of it.
unfinished_fits :
    (filled behind r : Text)
    → IsRequest r
    → find_blank_line filled ≡ none
    → find_blank_line (filled ++ behind) ≡ some (length r)
    → length filled + 1 < parse_buffer_size
unfinished_fits filled behind r v open_end whole =
    elim (Bool-cases (leb (length r + 4) (length filled))) [
      | inl long ↦ absurd (
          ground (
            arith,
            find_blank_line-shorten filled behind (length r) (leb→le _ _ long) whole,
            open_end,
          ))
      | inr short ↦ ground (arith, v.fits)
    ]

cut_request-IsStep :
    (filled pending more : Text) (rs : List Text)
    → filled ++ (pending ++ more) ≡ stream_of rs
    → All IsRequest rs
    → length filled < parse_buffer_size
    → IsStep (cut_request filled pending (find_blank_line filled)) more rs
unfolding cut_request find_blank_line
cut_request-IsStep [] pending more [] e v h = record { advanced = e; has_room = omega arith }
cut_request-IsStep (c ∷ filled) pending more [] e v h = absurd (ground (arith, e))
cut_request-IsStep filled pending more (r ∷ rs) e v h = at (find_blank_line filled) refl
  where
    at :
        (o : Option ℕ)
        → find_blank_line filled ≡ o
        → IsStep (cut_request filled pending o) more (r ∷ rs)
    at none found =
        let whole = ap find_blank_line e ∙ find_blank_line-stream_of r rs v.0 in
        record {
          advanced = e;
          has_room = unfinished_fits filled (pending ++ more) r v.0 found whole;
        }
    at (some i) found =
        let cut = first_request filled (pending ++ more) r rs i e v.0 found in
        record {
          advanced = (rs, ap (λ (x : Text). x ∷ rs) (sym cut.0), cut.1);
          has_room = omega (arith, length-drop (i + 4) filled);
        }

process_rtsp-IsStep :
    (buffer arrived more : Text) (rs : List Text)
    → buffer ++ (arrived ++ more) ≡ stream_of rs
    → All IsRequest rs
    → length buffer + 1 < parse_buffer_size
    → IsStep (process_rtsp true buffer arrived) more rs
unfolding process_rtsp
process_rtsp-IsStep buffer [] more rs e v h = record { advanced = e; has_room = h }
process_rtsp-IsStep buffer (c ∷ arrived) more rs e v h =
    let n = min (length (c ∷ arrived)) (parse_buffer_size - length buffer - 1) in
    let filled = buffer ++ take n (c ∷ arrived) in
    let same : filled ++ (drop n (c ∷ arrived) ++ more) ≡ stream_of rs =
      append_assoc buffer (take n (c ∷ arrived)) (drop n (c ∷ arrived) ++ more)
      ∙ ap (λ (x : Text). buffer ++ x)
          (sym (append_assoc (take n (c ∷ arrived)) (drop n (c ∷ arrived)) more)
            ∙ ap (λ (x : Text). x ++ more) (take-append-drop n (c ∷ arrived)))
      ∙ e in
    let read =
      cut_request-IsStep filled (drop n (c ∷ arrived)) more rs same v
        (filled-fits buffer (c ∷ arrived) (omega arith)) in
    let waits : ltb 0 (length (c ∷ arrived)) ≡ true = ground arith in
    let room : ltb 0 n ≡ true = ground arith in rw (waits, room) read

-- The requests of a list that these are the first of, with what is left of its stream.
abbrev pub Delivered : List Text → Text → List Text → Type 0
Delivered handed left rs = (later : List Text) × (rs ≡ handed ++ later) × (left ≡ stream_of later)

Advanced-Delivered :
    (o : Option Text) (mid left : Text) (handed : List Text) (rs : List Text)
    → All IsRequest rs
    → Advanced o mid rs
    → ((rs' : List Text) → All IsRequest rs' → mid ≡ stream_of rs' → Delivered handed left rs')
    → Delivered (elim o [ none ↦ handed | some r ↦ r ∷ handed ]) left rs
Advanced-Delivered none mid left handed rs v a rest = rest rs v a
Advanced-Delivered (some r) mid left handed rs v (later, e, a) rest =
    let done = rest later (subst (All IsRequest) e v).1 a in
    (done.0, e ∙ ap (λ (x : List Text). r ∷ x) done.1, done.2)

-- However the bytes of a client are cut into the pieces that the calls find, a prefix of its requests
-- is handed on, each once, whole and in order, and the bytes of the rest wait or are still to come;
-- for requests that end with their first blank line, hold no byte 0, and with the blank line are
-- shorter than the buffer.
pub feed-Delivered :
    (pieces : List Text) (buffer pending unsent : Text) (rs : List Text)
    → All IsRequest rs
    → length buffer + 1 < parse_buffer_size
    → (buffer ++ pending) ++ (concat pieces ++ unsent) ≡ stream_of rs
    → let end = feed buffer pending pieces in Delivered end.0 (end.1 ++ unsent) rs
unfolding feed
feed-Delivered [] buffer pending unsent rs v h e = (rs, refl, e)
feed-Delivered (piece ∷ pieces) buffer pending unsent rs v h e =
    let more = concat pieces ++ unsent in
    let p = process_rtsp true buffer (pending ++ piece) in
    let regroup : buffer ++ ((pending ++ piece) ++ more)
        ≡ (buffer ++ pending) ++ ((piece ++ concat pieces) ++ unsent) =
      simp append_assoc in
    let step = process_rtsp-IsStep buffer (pending ++ piece) more rs (regroup ∙ e) v h in
    Advanced-Delivered p.request _ _ (feed p.buffer p.pending pieces).0 rs v step.advanced
      (λ rs' v' mid.
        feed-Delivered pieces p.buffer p.pending unsent rs' v' step.has_room
          (append_assoc p.buffer p.pending more ∙ mid))
