-- ===== src/Stream/Handshake.antt =====
-- The stop handshake in small steps (src/esp32_rtsp_mic_birdnetgo.ino): requestStreamStop and PLAY on
-- Core 0 beside the loop of audioCaptureTask with sendRTPPacket on Core 1, in any interleaving. A step
-- is one access to the flags that the other core can see the effect of; the flags that PLAY writes
-- are read only behind `isStreaming`, which it writes last, so PLAY is one step. The task of Core 1
-- keeps running.
pub mod Exclusive
pub mod Late
use birdnetgo_m5stack_atom_e.Prelude.{
  Bool, true, false, not, ◌&&◌, ◌||◌, List, [], ◌∷◌, if◌then◌else◌,
}
use birdnetgo_m5stack_atom_e.Stream.{Stream, drop_client}

-- Where Core 1 stands in its loop.
pub data Pc1 : Type 0 where
  top : Pc1
  checked : Pc1  -- no stop was requested
  entering : Pc1  -- a stream and its client were seen
  streaming : Bool → Pc1  -- with the pointer read, true if it is not NULL
  clearing : Bool → Pc1  -- the client is closed and streamClient NULL; true inside sendRTPPacket
  sent : Pc1
  commanding : Pc1  -- reading a command of the client
  closing : Pc1  -- a stop was requested
  confirming : Pc1
  waiting : Pc1

-- Where Core 0 stands: elsewhere, in the wait of requestStreamStop, or behind it with its answer.
pub data Pc0 : Type 0 where
  elsewhere polling stopped forced : Pc0

pub record System : Type 0 where
  pub flags : Stream
  pub core0 : Pc0
  pub core1 : Pc1

-- One step of Core 1; `outcome` is what the socket or the clock says there.
unfoldable pub core1_step : Bool → Stream → Pc1 → Stream × Pc1
core1_step outcome f top = (f, if f.stop_requested then closing else checked)
core1_step outcome f closing = (drop_client f, confirming)
core1_step outcome f confirming = (record f { cleanup_done = true }, waiting)
core1_step outcome f waiting = (f, if f.stop_requested then waiting else top)
core1_step outcome f checked = (f, if f.is_streaming && f.client_set then entering else top)
core1_step outcome f entering = (f, streaming f.client_set)
core1_step outcome f (streaming client) =
    if outcome then (record f { client_set = false }, clearing true) else (f, sent)
core1_step outcome f (clearing true) =
    (record f { is_streaming = false; core1_owns_led = false }, sent)
core1_step outcome f (clearing false) =
    (record f { is_streaming = false; core1_owns_led = false }, top)
core1_step outcome f sent = (f, if f.is_streaming && outcome then commanding else top)
core1_step outcome f commanding =
    if outcome then (record f { client_set = false }, clearing false) else (f, top)

-- What Core 0 can do next.
pub data Act : Type 0 where
  asks : Act  -- calls requestStreamStop
  polls : Act
  deadline : Act  -- the wait ends with the deadline
  plays : Act

-- The flags that requestStreamStop clears in both of its branches.
abbrev pub clear_flags : Stream → Stream
clear_flags f = record f {
  is_streaming = false;
  client_set = false;
  stop_requested = false;
  cleanup_done = false;
}

unfoldable pub ask : Stream → Stream × Pc0
ask f =
    if not f.is_streaming && not f.client_set
    then (f, stopped)
    else (record f { stop_requested = true }, polling)

-- PLAY is handled only while nothing streams.
unfoldable pub play : Stream → Pc0 → Stream × Pc0
play f pc = if f.is_streaming then (f, pc) else (
  record f {
    stop_requested = false;
    cleanup_done = false;
    core1_owns_led = true;
    client_set = true;
    is_streaming = true;
  },
  elsewhere,
)

unfoldable pub core0_step : Act → Stream → Pc0 → Stream × Pc0
unfolding ask play
core0_step polls f polling = if f.cleanup_done then (clear_flags f, stopped) else (f, polling)
core0_step deadline f polling =
    if f.cleanup_done
    then (clear_flags f, stopped)
    else (record (clear_flags f) { core1_owns_led = false }, forced)
core0_step asks f polling = (f, polling)
core0_step plays f polling = (f, polling)
core0_step asks f pc = ask f
core0_step plays f pc = play f pc
core0_step polls f pc = (f, pc)
core0_step deadline f pc = (f, pc)

pub data Turn : Type 0 where
  acts : Act → Turn
  moves : Bool → Turn

unfoldable pub turn : Turn → System → System
turn (acts act) s =
    let (f, pc) = core0_step act s.flags s.core0 in record s { flags = f; core0 = pc }
turn (moves outcome) s =
    let (f, pc) = core1_step outcome s.flags s.core1 in record s { flags = f; core1 = pc }

unfoldable pub run : List Turn → System → System
run [] s = s
run (t ∷ ts) s = run ts (turn t s)
