-- ===== src/Audio/Task/Commands.antt =====
-- The part of audioCaptureTask that answers RTSP commands while it streams
-- (src/esp32_rtsp_mic_birdnetgo.ino).
use birdnetgo_m5stack_atom_e.Prelude.{
  ℕ, ◌+◌, Bool, ◌&&◌, not, none, some, [], ◌∷◌, ◌++◌, length, take, drop, ltb, if◌then◌else◌, ◌==◌,
  min, is_some,
}
use birdnetgo_m5stack_atom_e.Prelude.Int.{ℤ, pos}
use birdnetgo_m5stack_atom_e.Prelude.Text.{Text, text}
use birdnetgo_m5stack_atom_e.Prelude.Words.{sub32}
use birdnetgo_m5stack_atom_e.Rtp.Write.{Socket, accept, accepted}
use birdnetgo_m5stack_atom_e.Rtp.Send.{Sender, disconnect}
use birdnetgo_m5stack_atom_e.Rtsp.Command.{index_of_text, crlf}

-- `atoi`, and `%d`.
pub record Codec : Type 0 where
  pub atoi : Text → ℤ
  pub decimal : ℤ → Text

-- The sender, the bytes that the client has sent, and the times of the last look and activity.
pub record Channel : Type 0 where
  pub sender : Sender
  pub incoming : Text
  pub last_check_ms : ℕ
  pub last_activity_ms : ℕ

-- A char array up to its final zero.
unfoldable pub c_string : Text → Text
c_string [] = []
c_string (c ∷ s) = let rest = c_string s in if c == 0 then [] else c ∷ rest

-- `strstr(...) != NULL`
unfoldable pub contains : Text → Text → Bool
unfolding index_of_text
contains s part = is_some (index_of_text part s)

unfoldable pub cseq_number : Codec → Text → ℤ
unfolding index_of_text
cseq_number codec s = elim (index_of_text (text "CSeq: ") s) [
  | none ↦ pos 1
  | some i ↦ codec.atoi (drop (i + 6) s)
]

unfoldable pub short_answer : Codec → Text → Text
unfolding cseq_number
short_answer codec s =
    text "RTSP/1.0 200 OK"
    ++ (crlf ++ (text "CSeq: " ++ (codec.decimal (cseq_number codec s) ++ (crlf ++ crlf))))

-- `client->write` once, its result ignored.
unfoldable pub write_once : Socket → Text → Socket
write_once s bytes = accept s bytes (accepted (s.replies s.rounds).wrote)

unfoldable pub obey_command : Codec → ℕ → Channel → Text → Channel
obey_command codec now_ms c s =
    let answered : Sender = record c.sender {
      socket = write_once c.sender.socket (short_answer codec s);
    } in
    if contains s (text "TEARDOWN")
    then record c { sender = disconnect answered }
    else if contains s (text "GET_PARAMETER")
    then record c { sender = answered; last_activity_ms = now_ms }
    else c

-- The size of rtspBuf, less its final zero.
abbrev pub command_size : ℕ
command_size = 511

unfoldable pub serve_commands : Codec → ℕ → Channel → Channel
serve_commands codec now_ms c =
    let looked : Channel = record c { last_check_ms = now_ms } in
    let n = min (length c.incoming) command_size in
    let read : Channel = record looked { incoming = drop n c.incoming } in
    let obeyed = obey_command codec now_ms read (c_string (take n c.incoming)) in
    if not (c.sender.stream.is_streaming && ltb 200 (sub32 now_ms c.last_check_ms))
    then c
    else if ltb 0 n
    then obeyed
    else looked
