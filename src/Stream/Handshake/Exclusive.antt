-- ===== src/Stream/Handshake/Exclusive.antt =====
-- Who may touch the client's socket during the stop handshake
-- (src/esp32_rtsp_mic_birdnetgo.ino: requestStreamStop, audioCaptureTask).
use birdnetgo_m5stack_atom_e.Prelude.{
  ◌≡◌, ◌⊎◌, refl, inl, inr, Bool, Bool-cases, true, false, List, [], ◌∷◌, arith, All,
}
use birdnetgo_m5stack_atom_e.Stream.{Stream}
use birdnetgo_m5stack_atom_e.Stream.Handshake.{
  Pc1, top, checked, entering, streaming, clearing, sent, commanding, closing, confirming, waiting,
  Pc0, elsewhere, polling, stopped, forced, System, Act, asks, polls, deadline, plays, core0_step,
  core1_step, ask, play, Turn, acts, moves, turn, run,
}

abbrev pub is_stopped : Pc0 → Bool
is_stopped stopped = true
is_stopped _ = false

abbrev is_polling : Pc0 → Bool
is_polling polling = true
is_polling _ = false

-- Core 1 is between reading the pointer to the client and its last use of it.
abbrev pub touches : Pc1 → Bool
touches (streaming client) = true
touches commanding = true
touches closing = true
touches _ = false

-- The pointer that Core 1 dereferences is not NULL.
abbrev pub pointer : Pc1 → Bool
pointer (streaming client) = client
pointer _ = true

abbrev in_stream : Pc1 → Bool
in_stream entering = true
in_stream (streaming client) = true
in_stream (clearing sending) = true
in_stream commanding = true
in_stream _ = false

abbrev is_clearing : Pc1 → Bool
is_clearing (clearing sending) = true
is_clearing _ = false

abbrev serves : Pc1 → Bool
serves closing = true
serves confirming = true
serves _ = false

abbrev confirms : Pc1 → Bool
confirms confirming = true
confirms _ = false

abbrev pub is_waiting : Pc1 → Bool
is_waiting waiting = true
is_waiting _ = false

pub record IsOrderly (s : System) : Type 0 where
  pub backed :
      s.flags.is_streaming ≡ true → (s.flags.client_set ≡ true) ⊎ (is_clearing s.core1 ≡ true)
  pub used : in_stream s.core1 ≡ true → s.flags.is_streaming ≡ true
  pub real : pointer s.core1 ≡ true
  pub asked : s.flags.stop_requested ≡ is_polling s.core0
  pub served : serves s.core1 ≡ true → is_polling s.core0 ≡ true
  pub confirmed : s.flags.cleanup_done ≡ true → is_waiting s.core1 ≡ true
  pub awaited : s.flags.cleanup_done ≡ true → is_polling s.core0 ≡ true
  pub done_quiet : s.flags.cleanup_done ≡ true → s.flags.is_streaming ≡ false
  pub confirming_quiet : confirms s.core1 ≡ true → s.flags.is_streaming ≡ false
  pub stopped_quiet : is_stopped s.core0 ≡ true → s.flags.is_streaming ≡ false

core1-IsOrderly :
    (outcome : Bool) (f : Stream) (pc0 : Pc0) (pc : Pc1)
    → IsOrderly (record { flags = f; core0 = pc0; core1 = pc })
    → IsOrderly (turn (moves outcome) (record { flags = f; core0 = pc0; core1 = pc }))
unfolding turn core1_step
core1-IsOrderly outcome f pc0 top v = ground arith
core1-IsOrderly outcome f pc0 checked v = ground arith
core1-IsOrderly outcome f pc0 entering v = ground arith
core1-IsOrderly outcome f pc0 (streaming client) v = ground arith
core1-IsOrderly outcome f pc0 (clearing true) v = ground arith
core1-IsOrderly outcome f pc0 (clearing false) v = ground arith
core1-IsOrderly outcome f pc0 sent v = ground arith
core1-IsOrderly outcome f pc0 commanding v = ground arith
core1-IsOrderly outcome f pc0 closing v = ground arith
core1-IsOrderly outcome f pc0 confirming v = ground arith
core1-IsOrderly outcome f pc0 waiting v = ground arith

-- A waiting Core 1 is not in a stream.
record Waits (pc : Pc1) : Type 0 where
  outside : in_stream pc ≡ false
  kept : is_clearing pc ≡ false
  silent : serves pc ≡ false
  settled : confirms pc ≡ false

waiting-Waits : (pc : Pc1) → is_waiting pc ≡ true → Waits pc
waiting-Waits top w = ground arith
waiting-Waits checked w = ground arith
waiting-Waits entering w = ground arith
waiting-Waits (streaming client) w = ground arith
waiting-Waits (clearing sending) w = ground arith
waiting-Waits sent w = ground arith
waiting-Waits commanding w = ground arith
waiting-Waits closing w = ground arith
waiting-Waits confirming w = ground arith
waiting-Waits waiting w = ground arith

-- The deadline does not pass.
abbrev pub IsPatient : Turn → Type 0
IsPatient (acts deadline) = ⊥
IsPatient _ = Unit {0}

core0-IsOrderly :
    (act : Act) (f : Stream) (pc0 : Pc0) (pc : Pc1)
    → IsPatient (acts act)
    → IsOrderly (record { flags = f; core0 = pc0; core1 = pc })
    → IsOrderly (turn (acts act) (record { flags = f; core0 = pc0; core1 = pc }))
unfolding turn core0_step ask play
core0-IsOrderly asks f elsewhere pc p v = ground arith
core0-IsOrderly asks f polling pc p v = ground arith
core0-IsOrderly asks f stopped pc p v = ground arith
core0-IsOrderly asks f forced pc p v = ground arith
core0-IsOrderly polls f elsewhere pc p v = ground arith
core0-IsOrderly polls f polling pc p v = ground (arith, waiting-Waits pc)
core0-IsOrderly polls f stopped pc p v = ground arith
core0-IsOrderly polls f forced pc p v = ground arith
core0-IsOrderly plays f elsewhere pc p v = ground arith
core0-IsOrderly plays f polling pc p v = ground arith
core0-IsOrderly plays f stopped pc p v = ground arith
core0-IsOrderly plays f forced pc p v = ground arith
core0-IsOrderly deadline f pc0 pc p v = elim p [ ]

turn-IsOrderly : (t : Turn) (s : System) → IsPatient t → IsOrderly s → IsOrderly (turn t s)
turn-IsOrderly (acts act) s p v = core0-IsOrderly act s.flags s.core0 s.core1 p v
turn-IsOrderly (moves outcome) s p v = core1-IsOrderly outcome s.flags s.core0 s.core1 v

run-IsOrderly :
    (ts : List Turn) (s : System) → All IsPatient ts → IsOrderly s → IsOrderly (run ts s)
unfolding run
run-IsOrderly [] s p v = v
run-IsOrderly (t ∷ ts) s p v = run-IsOrderly ts (turn t s) p.1 (turn-IsOrderly t s p.0 v)

-- A core that touches the socket is in a stream or serves a stop.
touches-cases : (pc : Pc1) → touches pc ≡ true → (in_stream pc ≡ true) ⊎ (serves pc ≡ true)
touches-cases (streaming client) t = inl refl
touches-cases commanding t = inl refl
touches-cases closing t = inr refl
touches-cases top t = ground arith
touches-cases checked t = ground arith
touches-cases entering t = ground arith
touches-cases (clearing sending) t = ground arith
touches-cases sent t = ground arith
touches-cases confirming t = ground arith
touches-cases waiting t = ground arith

stopped-polling : (pc : Pc0) → is_stopped pc ≡ true → is_polling pc ≡ false
stopped-polling elsewhere h = ground arith
stopped-polling polling h = ground arith
stopped-polling stopped h = refl
stopped-polling forced h = ground arith

out_of_stream : (s : System) → IsOrderly s → is_stopped s.core0 ≡ true → touches s.core1 ≡ false
out_of_stream s v h = elim (Bool-cases (touches s.core1)) [
  | inr free ↦ free
  | inl t ↦ ground (arith, touches-cases s.core1 t, stopped-polling s.core0 h)
]

-- In any interleaving of the two cores in which the deadline of a wait does not pass: whenever Core 0
-- has returned from a stop request with `true` and started nothing since, Core 1 is not between
-- reading the pointer to the client and its last use of it.
pub confirmed_alone :
    (ts : List Turn) (s : System)
    → All IsPatient ts
    → IsOrderly s
    → is_stopped (run ts s).core0 ≡ true
    → touches (run ts s).core1 ≡ false
confirmed_alone ts s p v h = out_of_stream (run ts s) (run-IsOrderly ts s p v) h

-- In any such interleaving, the pointer that Core 1 dereferences is not NULL.
pub pointer_real :
    (ts : List Turn) (s : System) → All IsPatient ts → IsOrderly s → pointer (run ts s).core1 ≡ true
pointer_real ts s p v = (run-IsOrderly ts s p v).real
