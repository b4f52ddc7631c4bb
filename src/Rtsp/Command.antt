-- ===== src/Rtsp/Command.antt =====
-- handleRTSPCommand (src/esp32_rtsp_mic_birdnetgo.ino). What `client.print` sends is collected in one
-- text. Log lines and the LED are left out.
pub mod Laws
use birdnetgo_m5stack_atom_e.Prelude.{
  ℕ, suc, ◌+◌, ◌-◌, Bool, true, false, ◌&&◌, ◌||◌, Option, none, some, List, [], ◌∷◌, ◌++◌, ltb,
  leb, if◌then◌else◌, length, take, drop, ◌==◌,
}
use birdnetgo_m5stack_atom_e.Prelude.Text.{Text, text, index_of}
use birdnetgo_m5stack_atom_e.Prelude.Words.{add32}
use birdnetgo_m5stack_atom_e.Stream.Control.{Link, request_stream_stop, hand_over}
use birdnetgo_m5stack_atom_e.Rtp.Packet.{Rtp}

unfoldable pub starts_with : Text → Text → Bool
starts_with s [] = true
starts_with [] (d ∷ p) = false
starts_with (c ∷ s) (d ∷ p) = (c == d) && starts_with s p

-- `indexOf(p)`, with `none` for the result -1.
unfoldable pub index_of_text : Text → Text → Option ℕ
unfolding starts_with
index_of_text p [] = none
index_of_text p (c ∷ s) =
    let later = index_of_text p s in
    if starts_with (c ∷ s) p then some 0 else elim later [ none ↦ none | some i ↦ some (suc i) ]

-- isspace
abbrev pub is_space : ℕ → Bool
is_space c = (c == 32) || (leb 9 c && leb c 13)

unfoldable pub trim_start : Text → Text
trim_start [] = []
trim_start (c ∷ s) = let rest = trim_start s in if is_space c then rest else c ∷ s

unfoldable pub trim_end : Text → Text
trim_end [] = []
trim_end (c ∷ s) = elim (trim_end s) [
  | [] ↦ if is_space c then [] else c ∷ []
  | d ∷ rest ↦ c ∷ d ∷ rest
]

unfoldable pub trim : Text → Text
unfolding trim_start trim_end
trim s = trim_end (trim_start s)

-- A header's value up to its "\r"; without one, the value goes to the end.
unfoldable pub line_value : Text → Option ℕ → Text
line_value value none = trim value
line_value value (some n) = trim (take n value)

unfoldable pub cseq_at : Text → Option ℕ → Text
cseq_at request none = text "1"
cseq_at request (some i) = let value = drop (i + 6) request in line_value value (index_of 13 value)

-- The value of the header "CSeq: ", or "1".
unfoldable pub cseq_of : Text → Text
cseq_of request = cseq_at request (index_of_text (text "CSeq: ") request)

pub record Env : Type 0 where
  pub now_ms : ℕ
  pub local_ip : Text
  pub decimal : ℕ → Text  -- String(n)
  pub session_number : ℕ  -- random(100000000, 999999999)
  pub sample_rate : ℕ
  pub created : Bool  -- whether the audio task can be created
  pub core1 : Link → Link  -- Core 1 while Core 0 waits for it

pub record Rtsp : Type 0 where
  pub session_id : Text
  pub last_activity_ms : ℕ
  pub last_stats_reset : ℕ
  pub last_play_ms : ℕ
  pub play_count : ℕ
  pub rtp : Rtp
  pub link : Link

abbrev pub crlf : Text
crlf = 13 ∷ 10 ∷ []

-- The first two lines of every answer.
unfoldable pub answer_head : Text → Text
answer_head cseq = text "RTSP/1.0 200 OK" ++ (crlf ++ (text "CSeq: " ++ (cseq ++ crlf)))

unfoldable pub sdp : Env → Text
sdp env =
    (text "v=0" ++ crlf)
    ++ (text "o=- 0 0 IN IP4 " ++ (env.local_ip ++ crlf))
    ++ (text "s=ESP32 RTSP Mic ("
        ++ (env.decimal env.sample_rate ++ (text "Hz, 16-bit PCM)" ++ crlf)))
    ++ (text "c=IN IP4 " ++ (env.local_ip ++ crlf))
    ++ (text "t=0 0" ++ crlf)
    ++ (text "m=audio 0 RTP/AVP 96" ++ crlf)
    ++ (text "a=rtpmap:96 L16/" ++ (env.decimal env.sample_rate ++ (text "/1" ++ crlf)))
    ++ (text "a=control:track1" ++ crlf)

pub data Method : Type 0 where
  options describe setup play teardown get_parameter other : Method

-- The chain of `request.startsWith`.
unfoldable pub method_of : Text → Method
method_of request =
    if starts_with request (text "OPTIONS")
    then options
    else if starts_with request (text "DESCRIBE")
    then describe
    else if starts_with request (text "SETUP")
    then setup
    else if starts_with request (text "PLAY")
    then play
    else if starts_with request (text "TEARDOWN")
    then teardown
    else if starts_with request (text "GET_PARAMETER")
    then get_parameter
    else other

-- What follows the first two lines.
unfoldable pub answer_tail : Env → Rtsp → Method → Text
unfolding sdp
answer_tail env r options =
    text "Public: OPTIONS, DESCRIBE, SETUP, PLAY, TEARDOWN, GET_PARAMETER" ++ (crlf ++ crlf)
answer_tail env r describe =
    (text "Content-Type: application/sdp" ++ crlf)
    ++ (text "Content-Base: rtsp://" ++ (env.local_ip ++ (text ":8554/audio/" ++ crlf)))
    ++ (text "Content-Length: " ++ (env.decimal (length (sdp env)) ++ (crlf ++ crlf)))
    ++ sdp env
answer_tail env r setup =
    (text "Session: " ++ (env.decimal env.session_number ++ (text ";timeout=86400" ++ crlf)))
    ++ (text "Transport: RTP/AVP/TCP;unicast;interleaved=0-1" ++ (crlf ++ crlf))
answer_tail env r play =
    (text "Session: " ++ (r.session_id ++ crlf)) ++ (text "Range: npt=0.000-" ++ (crlf ++ crlf))
answer_tail env r teardown = text "Session: " ++ (r.session_id ++ (crlf ++ crlf))
answer_tail env r get_parameter = crlf
answer_tail env r other = []

-- What a method changes.
unfoldable pub obey : Env → Rtsp → Method → Rtsp
obey env r setup = record r { session_id = env.decimal env.session_number }
obey env r play = record r {
  rtp = record r.rtp { sequence = 0; timestamp = 0; packets_sent = 0; packets_dropped = 0 };
  last_stats_reset = env.now_ms;
  last_play_ms = env.now_ms;
  play_count = add32 r.play_count 1;
  link = hand_over env.created r.link;
}
obey env r teardown = record r {
  link = if r.link.is_streaming then (request_stream_stop env.core1 r.link).0 else r.link;
}
obey env r _ = r

abbrev pub is_other : Method → Bool
is_other other = true
is_other _ = false

-- The new state, and the answer.
unfoldable pub handle_rtsp_command : Env → Rtsp → Text → Rtsp × Text
handle_rtsp_command env r request =
    let active : Rtsp = record r { last_activity_ms = env.now_ms } in
    let method = method_of request in
    (
      obey env active method,
      if is_other method
          then []
          else answer_head (cseq_of request) ++ answer_tail env active method,
    )
