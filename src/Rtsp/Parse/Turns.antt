-- ===== src/Rtsp/Parse/Turns.antt =====
-- A client that waits for the answer before it sends the next request, as RTSP clients do, at
-- processRTSP (src/esp32_rtsp_mic_birdnetgo.ino), and one that sends two requests at once.
use birdnetgo_m5stack_atom_e.Prelude.{
  ℕ, zero, suc, replicate, ◌+◌, ◌-◌, ◌<◌, ◌≤◌, ◌≡◌, refl, ap, sym, ◌∙◌, true, Option, none, some,
  List, [], ◌∷◌, ◌++◌, arith, length, drop, length-append, min, All, ltb, concat, take_all,
  length-drop,
}
use birdnetgo_m5stack_atom_e.Prelude.Text.{Text}
use mathlib.Core.List.{append_assoc, append-nil}
use birdnetgo_m5stack_atom_e.Rtsp.Parse.{
  parse_buffer_size, find_blank_line, Parsed, cut_request, process_rtsp,
}
use birdnetgo_m5stack_atom_e.Rtsp.Parse.Laws.{blank_line}
use birdnetgo_m5stack_atom_e.Rtsp.Parse.Stream.{
  feed, IsRequest, stream_of, first_request, find_blank_line-stream_of,
}

drop_all : (n : ℕ) (s : Text) → length s ≤ n → drop n s ≡ []
drop_all n s h = empty (drop n s) (omega (arith, length-drop n s))
  where
    empty : (t : Text) → length t ≡ 0 → t ≡ []
    empty [] e = refl
    empty (c ∷ t) e = absurd (omega (arith, e))

-- A piece that fits is read whole.
process_rtsp-read :
    (buffer piece : Text)
    → 0 < length piece
    → length (buffer ++ piece) < parse_buffer_size
    → process_rtsp true buffer piece
      ≡ cut_request (buffer ++ piece) [] (find_blank_line (buffer ++ piece))
unfolding process_rtsp
process_rtsp-read buffer piece some_bytes fits =
    let long = length-append buffer piece in
    let whole : min (length piece) (parse_buffer_size - length buffer - 1) ≡ length piece =
      ground (arith, long) in
    let waits : ltb 0 (length piece) ≡ true = ground arith in
    rw
      (
        whole,
        waits,
        take_all (length piece) piece (omega arith),
        drop_all (length piece) piece (omega arith),
      )
      refl

-- What the calls behind one hand on together with it.
behind : Parsed → List Text → List Text × Text
behind p pieces =
    let rest = feed p.buffer p.pending pieces in
    (elim p.request [ none ↦ rest.0 | some request ↦ request ∷ rest.0 ], rest.1)

feed-read :
    (buffer piece : Text) (pieces : List Text) (o : Option ℕ)
    → 0 < length piece
    → length (buffer ++ piece) < parse_buffer_size
    → find_blank_line (buffer ++ piece) ≡ o
    → feed buffer [] (piece ∷ pieces) ≡ behind (cut_request (buffer ++ piece) [] o) pieces
unfolding feed behind
feed-read buffer piece pieces o some_bytes fits e =
    ap (λ (p : Parsed). behind p pieces)
      (process_rtsp-read buffer piece some_bytes fits ∙ ap (cut_request (buffer ++ piece) []) e)

-- Before its last bytes have come, no blank line of a request is found.
open_end :
    (filled next r : Text)
    → IsRequest r
    → filled ++ next ≡ r ++ blank_line
    → 0 < length next
    → find_blank_line filled ≡ none
open_end filled next r v e more = at (find_blank_line filled) refl
  where
    at : (o : Option ℕ) → find_blank_line filled ≡ o → o ≡ none
    at none found = refl
    at (some i) found =
        let cut = first_request filled next r [] i e v found in
        absurd (omega (arith, ap length cut.1, length-append (drop (i + 4) filled) next))

-- A piece, perhaps empty, behind which bytes of the request are still to come.
pub process_rtsp-part :
    (buffer piece next r : Text)
    → IsRequest r
    → (buffer ++ piece) ++ next ≡ r ++ blank_line
    → 0 < length next
    → process_rtsp true buffer piece
      ≡ record { buffer = buffer ++ piece; pending = []; request = none }
unfolding process_rtsp cut_request
process_rtsp-part buffer [] next r v e more = rw append-nil refl
process_rtsp-part buffer (c ∷ piece) next r v e more =
    process_rtsp-read buffer (c ∷ piece) (omega arith) (
      omega (
        arith,
        ap length e,
        length-append r blank_line,
        length-append (buffer ++ c ∷ piece) next,
        v.fits,
      ))
    ∙ ap (cut_request (buffer ++ c ∷ piece) []) (open_end (buffer ++ c ∷ piece) next r v e more)

-- The last piece of a request.
pub process_rtsp-last :
    (buffer piece r : Text)
    → IsRequest r
    → buffer ++ piece ≡ r ++ blank_line
    → 0 < length piece
    → process_rtsp true buffer piece ≡ record { buffer = []; pending = []; request = some r }
unfolding cut_request
process_rtsp-last buffer piece r v e some_bytes =
    let found : find_blank_line (buffer ++ piece) ≡ some (length r) =
      ap find_blank_line e ∙ v.ends in
    let cut =
      first_request (buffer ++ piece) [] r [] (length r) (append-nil (buffer ++ piece) ∙ e) v
        found in
    process_rtsp-read buffer piece some_bytes
      (omega (arith, ap length e, length-append r blank_line, v.fits))
    ∙ ap (cut_request (buffer ++ piece) []) found
    ∙ rw (cut.0, sym (append-nil (drop (length r + 4) (buffer ++ piece))) ∙ cut.1) refl

-- The pieces of one request, which is handed on with the last of them.
feed-request :
    (pieces more : List Text) (buffer r : Text)
    → IsRequest r
    → All (λ (p : Text). 0 < length p) pieces
    → buffer ++ concat pieces ≡ r ++ blank_line
    → 0 < length (concat pieces)
    → feed buffer [] (pieces ++ more) ≡ (let rest = feed [] [] more in (r ∷ rest.0, rest.1))
unfolding feed behind
feed-request [] more buffer r v some_bytes e h = absurd (omega (arith, h))
feed-request (piece ∷ []) more buffer r v some_bytes e h =
    ap (λ (p : Parsed). behind p more)
      (process_rtsp-last buffer piece r v
        (ap (λ (x : Text). buffer ++ x) (sym (append-nil piece)) ∙ e) some_bytes.0)
feed-request (piece ∷ next ∷ pieces) more buffer r v some_bytes e h =
    let filled : (buffer ++ piece) ++ concat (next ∷ pieces) ≡ r ++ blank_line =
      append_assoc buffer piece (concat (next ∷ pieces)) ∙ e in
    let later : 0 < length (concat (next ∷ pieces)) =
      omega (arith, some_bytes.1.0, length-append next (concat pieces)) in
    ap (λ (p : Parsed). behind p (next ∷ pieces ++ more))
      (process_rtsp-part buffer piece (concat (next ∷ pieces)) r v filled later)
    ∙ feed-request (next ∷ pieces) more (buffer ++ piece) r v some_bytes.1 filled later

-- A request with the pieces in which it arrives.
abbrev pub Sent : (Text × List Text) → Type 0
Sent (r, pieces) =
    IsRequest r × All (λ (p : Text). 0 < length p) pieces × (concat pieces ≡ r ++ blank_line)

abbrev pub requests_of : List (Text × List Text) → List Text
requests_of [] = []
requests_of ((r, pieces) ∷ rest) = r ∷ requests_of rest

abbrev pub pieces_of : List (Text × List Text) → List Text
pieces_of [] = []
pieces_of ((r, pieces) ∷ rest) = pieces ++ pieces_of rest

-- From a client that sends its next request only behind the end of the one before, every request is
-- handed on, once, whole and in order, and nothing is left waiting, however each request is cut into
-- pieces that are not empty; for requests that end with their first blank line, hold no byte 0, and
-- with the blank line are shorter than the buffer.
pub feed-requests :
    (sends : List (Text × List Text))
    → All Sent sends
    → feed [] [] (pieces_of sends) ≡ (requests_of sends, [])
unfolding feed
feed-requests [] v = refl
feed-requests ((r, pieces) ∷ rest) v =
    let whole = v.0.2 in
    feed-request pieces (pieces_of rest) [] r v.0.0 v.0.1 whole
      (omega (arith, ap length whole, length-append r blank_line))
    ∙ ap (λ (x : List Text × Text). (r ∷ x.0, x.1)) (feed-requests rest v.1)

feed-silence : (n : ℕ) (buffer : Text) → feed buffer [] (replicate n []) ≡ ([], buffer)
unfolding feed process_rtsp
feed-silence zero buffer = ap (λ (x : Text). ([], x)) (append-nil buffer)
feed-silence (suc n) buffer = feed-silence n buffer

-- Of two requests that arrive together the second, whole in the buffer, is not handed on by any
-- number of further calls as long as the client is silent.
pub pipelined_waits :
    (n : ℕ) (r s : Text)
    → IsRequest r
    → length (stream_of (r ∷ s ∷ [])) < parse_buffer_size
    → feed [] [] (stream_of (r ∷ s ∷ []) ∷ replicate n []) ≡ (r ∷ [], s ++ blank_line)
unfolding behind cut_request
pipelined_waits n r s v fits =
    let both = stream_of (r ∷ s ∷ []) in
    let found = find_blank_line-stream_of r (s ∷ []) v in
    let cut = first_request both [] r (s ∷ []) (length r) (append-nil both) v found in
    feed-read [] both (replicate n []) (some (length r))
      (omega (arith, length-append r (blank_line ++ (s ++ blank_line)))) fits found
    ∙ rw
        (
          cut.0,
          sym (append-nil (drop (length r + 4) both)) ∙ cut.1,
          feed-silence n (s ++ blank_line),
        )
        refl
