-- ===== src/Rtsp/Tests/Pieces.antt =====
-- Streams of requests that arrive in pieces, and the laws of processRTSP there.
use birdnetgo_m5stack_atom_e.Prelude.{◌≡◌, refl, [], ◌∷◌, ◌++◌, arith, replicate}
use birdnetgo_m5stack_atom_e.Prelude.Text.{Text, text}
use birdnetgo_m5stack_atom_e.Rtsp.Parse.{find_blank_line, found_at}
use birdnetgo_m5stack_atom_e.Rtsp.Parse.Laws.{blank_line}
use birdnetgo_m5stack_atom_e.Rtsp.Parse.Stream.{
  feed, stream_of, IsRequest, Delivered, feed-Delivered,
}
use birdnetgo_m5stack_atom_e.Rtsp.Parse.Turns.{feed-requests, pipelined_waits}

abbrev options : Text
options = text "OPTIONS *"

abbrev describe : Text
describe = text "DESCRIBE *"

options-IsRequest : IsRequest options
unfolding find_blank_line found_at
options-IsRequest = record { ends = refl; fits = omega arith }

describe-IsRequest : IsRequest describe
unfolding find_blank_line found_at
describe-IsRequest = record { ends = refl; fits = omega arith }

-- The first piece ends inside a blank line, the second inside the next request.
feed-Delivered_example :
    let end =
      feed [] []
        ((options ++ 13 ∷ 10 ∷ []) ∷ (13 ∷ 10 ∷ text "DESC") ∷ (text "RIBE *" ++ (13 ∷ [])) ∷ []) in
    Delivered end.0 (end.1 ++ (10 ∷ 13 ∷ 10 ∷ [])) (options ∷ describe ∷ [])
feed-Delivered_example =
    feed-Delivered
      ((options ++ 13 ∷ 10 ∷ []) ∷ (13 ∷ 10 ∷ text "DESC") ∷ (text "RIBE *" ++ (13 ∷ [])) ∷ []) []
      [] (10 ∷ 13 ∷ 10 ∷ []) (options ∷ describe ∷ []) (options-IsRequest, (describe-IsRequest, tt))
      (omega arith) refl

feed-requests_example :
    feed [] [] ((options ++ 13 ∷ []) ∷ (10 ∷ 13 ∷ 10 ∷ []) ∷ (describe ++ blank_line) ∷ [])
    ≡ (options ∷ describe ∷ [], [])
feed-requests_example =
    feed-requests
      ((options, (options ++ 13 ∷ []) ∷ (10 ∷ 13 ∷ 10 ∷ []) ∷ [])
        ∷ (describe, (describe ++ blank_line) ∷ [])
        ∷ [])
      (
        (options-IsRequest, (omega arith, (omega arith, tt)), refl),
        ((describe-IsRequest, (omega arith, tt), refl), tt),
      )

pipelined_waits_example :
    feed [] [] (stream_of (options ∷ describe ∷ []) ∷ replicate 1000 [])
    ≡ (options ∷ [], describe ++ blank_line)
pipelined_waits_example = pipelined_waits 1000 options describe options-IsRequest (omega arith)
