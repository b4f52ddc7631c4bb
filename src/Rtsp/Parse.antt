-- ===== src/Rtsp/Parse.antt =====
-- processRTSP (src/esp32_rtsp_mic_birdnetgo.ino). The parse buffer is the bytes up to
-- rtspParseBufferPos; `pending` are the bytes that `client.available()` counts, of which
-- `client.read` takes as many as it is asked for. The warning about a full buffer is left out.
pub mod Laws
mod Search
pub mod Stream
pub mod Turns
use birdnetgo_m5stack_atom_e.Prelude.{
  ℕ, suc, ◌+◌, ◌-◌, Bool, true, false, not, ◌&&◌, Option, none, some, List, [], ◌∷◌, ◌++◌, ltb,
  if◌then◌else◌, length, take, drop, ◌==◌, min,
}
use birdnetgo_m5stack_atom_e.Prelude.Text.{Text}

abbrev pub parse_buffer_size : ℕ
parse_buffer_size = 1024

-- The text begins with "\r\n\r\n".
abbrev pub at_blank_line : Text → Bool
at_blank_line (a ∷ b ∷ c ∷ d ∷ rest) = (a == 13) && ((b == 10) && ((c == 13) && (d == 10)))
at_blank_line _ = false

-- One place of the search below: a blank line, a byte 0, or what the search finds behind it.
unfoldable pub found_at : Bool → Bool → Option ℕ → Option ℕ
found_at true ended later = some 0
found_at false true later = none
found_at false false none = none
found_at false false (some i) = some (suc i)

-- `strstr(buffer, "\r\n\r\n")`, which ends at a byte 0.
unfoldable pub find_blank_line : Text → Option ℕ
find_blank_line [] = none
find_blank_line (c ∷ s) = found_at (at_blank_line (c ∷ s)) (c == 0) (find_blank_line s)

pub record Parsed : Type 0 where
  pub buffer : Text
  pub pending : Text
  pub request : Option Text  -- what is passed to handleRTSPCommand

-- What follows the read.
unfoldable pub cut_request : Text → Text → Option ℕ → Parsed
cut_request buffer pending none = record { buffer = buffer; pending = pending; request = none }
cut_request buffer pending (some end) = record {
  buffer = drop (end + 4) buffer;
  pending = pending;
  request = some (take end buffer);
}

unfoldable pub process_rtsp : Bool → Text → Text → Parsed
process_rtsp connected buffer pending =
    let space_left = parse_buffer_size - length buffer - 1 in
    let available = min (length pending) space_left in
    let filled = buffer ++ take available pending in
    let read = cut_request filled (drop available pending) (find_blank_line filled) in
    if not connected
    then record { buffer = buffer; pending = pending; request = none }
    else if not (ltb 0 (length pending))
    then record { buffer = buffer; pending = pending; request = none }
    else if not (ltb 0 available)
    then record { buffer = []; pending = pending; request = none }
    else read
