-- ===== src/Stream/Handshake/Late.antt =====
-- What the deadline of requestStreamStop does to the handshake, and how long Core 1 needs to confirm
-- (src/esp32_rtsp_mic_birdnetgo.ino).
use birdnetgo_m5stack_atom_e.Prelude.{
  ℕ, ◌-◌, ◌≤◌, ◌≡◌, refl, Bool, true, false, List, [], ◌∷◌, arith, length,
}
use birdnetgo_m5stack_atom_e.Stream.{Stream}
use birdnetgo_m5stack_atom_e.Stream.Handshake.{
  Pc1, top, checked, entering, streaming, clearing, sent, commanding, closing, confirming, waiting,
  polling, stopped, polls, core0_step, core1_step,
}
use birdnetgo_m5stack_atom_e.Stream.Handshake.Exclusive.{is_waiting}

-- How many steps Core 1 takes at most from there to the wait behind its confirmation.
abbrev steps_left : Pc1 → ℕ
steps_left waiting = 0
steps_left confirming = 1
steps_left closing = 2
steps_left top = 3
steps_left (clearing false) = 4
steps_left commanding = 5
steps_left sent = 6
steps_left (clearing true) = 7
steps_left (streaming client) = 8
steps_left entering = 9
steps_left checked = 10

record IsServing (n : ℕ) (f : Stream) (pc : Pc1) : Type 0 where
  asked : f.stop_requested ≡ true
  near : steps_left pc ≤ n
  done : is_waiting pc ≡ true → f.cleanup_done ≡ true

core1_step-IsServing :
    (outcome : Bool) (n : ℕ) (f : Stream) (pc : Pc1)
    → IsServing n f pc
    → IsServing (n - 1) (core1_step outcome f pc).0 (core1_step outcome f pc).1
unfolding core1_step
core1_step-IsServing outcome n f top v = ground arith
core1_step-IsServing outcome n f checked v = ground arith
core1_step-IsServing outcome n f entering v = ground arith
core1_step-IsServing outcome n f (streaming client) v = ground arith
core1_step-IsServing outcome n f (clearing true) v = ground arith
core1_step-IsServing outcome n f (clearing false) v = ground arith
core1_step-IsServing outcome n f sent v = ground arith
core1_step-IsServing outcome n f commanding v = ground arith
core1_step-IsServing outcome n f closing v = ground arith
core1_step-IsServing outcome n f confirming v = ground arith
core1_step-IsServing outcome n f waiting v = ground arith

pub core1_run : List Bool → Stream → Pc1 → Stream × Pc1
core1_run [] f pc = (f, pc)
core1_run (outcome ∷ os) f pc = let (f', pc') = core1_step outcome f pc in core1_run os f' pc'

core1_run-confirms :
    (os : List Bool) (n : ℕ) (f : Stream) (pc : Pc1)
    → IsServing n f pc
    → n ≤ length os
    → (core1_run os f pc).0.cleanup_done ≡ true
unfolding core1_run
core1_run-confirms [] n f pc v e = ground arith
core1_run-confirms (outcome ∷ os) n f pc v e =
    core1_run-confirms os (n - 1) _ _ (core1_step-IsServing outcome n f pc v) (ground arith)

-- Once a stop is requested while Core 1 is anywhere but in its wait behind an earlier one, ten steps
-- of Core 1 are enough, whatever its socket does, for the next poll of Core 0 to see the confirmation.
pub stop_confirmed :
    (os : List Bool) (f : Stream) (pc : Pc1)
    → f.stop_requested ≡ true
    → is_waiting pc ≡ false
    → 10 ≤ length os
    → (core0_step polls (core1_run os f pc).0 polling).1 ≡ stopped
unfolding core0_step
stop_confirmed os f pc asked away enough =
    rw (core1_run-confirms os 10 f pc (first f pc asked away) enough) refl
  where
    first :
        (f : Stream) (pc : Pc1)
        → f.stop_requested ≡ true
        → is_waiting pc ≡ false
        → IsServing 10 f pc
    first f top a w = ground arith
    first f checked a w = ground arith
    first f entering a w = ground arith
    first f (streaming client) a w = ground arith
    first f (clearing true) a w = ground arith
    first f (clearing false) a w = ground arith
    first f sent a w = ground arith
    first f commanding a w = ground arith
    first f closing a w = ground arith
    first f confirming a w = ground arith
    first f waiting a w = ground arith
